-- ===== src/Batch/Valid/Submitting.antt =====
-- `create_batch` keeps the invariant, for identifiers that are new and at least one request.
use fleet_lm.Base.{
  ℕ, Option, none, some, ◌≡◌, ◌≢◌, ◌⊎◌, refl, List, [], ◌∷◌, inl, inr, lookup, length, String,
}
use fleet_lm.Batch.Data.{WorkUnit, BatchStore, Request, pending}
use fleet_lm.Batch.Submit.{plant, request_units, canary_units, create_batch}
use fleet_lm.Batch.Valid.Defs.{Valid}
use fleet_lm.Batch.Valid.Inserting.{request_units-IsNew, canary_units-IsNew}
use fleet_lm.Batch.Valid.Submitted.{unit_before, unit_kept, submitted-IsValid}

-- `uuid4` draws identifiers that the store does not hold, and no two alike.
pub record IsFresh (batch_id : ℕ) (unit_id : ℕ → ℕ) (s : BatchStore) : Type 0 where
  pub batch : lookup batch_id s.batches ≡ none
  pub unit : (i : ℕ) → lookup (unit_id i) s.units ≡ none
  pub distinct : (i j : ℕ) → unit_id i ≡ unit_id j → i ≡ j

request_units-ne-nil :
    (now batch_id : ℕ) (unit_id : ℕ → ℕ) (model : Option String) (i : ℕ) (reqs : List Request)
    → reqs ≢ []
    → request_units now batch_id unit_id model i reqs ≢ []
unfolding request_units
request_units-ne-nil now batch_id unit_id model i [] h = λ e. h refl
request_units-ne-nil now batch_id unit_id model i (r ∷ rs) h = λ e. cc

pub create_batch-IsValid :
    (now batch_id : ℕ) (unit_id : ℕ → ℕ) (model : Option String) (requests : List Request)
    (s : BatchStore)
    → requests ≢ []
    → IsFresh batch_id unit_id s
    → Valid s
    → Valid (create_batch now batch_id unit_id model requests s).1
unfolding create_batch
create_batch-IsValid now batch_id unit_id model requests s some_requests fresh v =
    let canaries = plant (length requests) s.verifier in
    submitted-IsValid s batch_id (create_batch now batch_id unit_id model requests s).0
      (request_units now batch_id unit_id model 0 requests)
      (canary_units now batch_id unit_id model (length requests) canaries) v fresh.batch refl refl
      (request_units-IsNew now batch_id unit_id model s.units fresh.unit 0 requests)
      (canary_units-IsNew now batch_id unit_id model s.units fresh.unit (length requests) canaries)
      refl (request_units-ne-nil now batch_id unit_id model 0 requests some_requests)

pub create_batch-kept :
    (now batch_id : ℕ) (unit_id : ℕ → ℕ) (model : Option String) (requests : List Request)
    (s : BatchStore) (k : ℕ)
    → IsFresh batch_id unit_id s
    → Valid s
    → lookup k s.units ≢ none
    → lookup k (create_batch now batch_id unit_id model requests s).1.units ≡ lookup k s.units
unfolding create_batch
create_batch-kept now batch_id unit_id model requests s k fresh v =
    let canaries = plant (length requests) s.verifier in
    unit_kept s batch_id (create_batch now batch_id unit_id model requests s).0
      (request_units now batch_id unit_id model 0 requests)
      (canary_units now batch_id unit_id model (length requests) canaries) v fresh.batch refl refl
      (request_units-IsNew now batch_id unit_id model s.units fresh.unit 0 requests)
      (canary_units-IsNew now batch_id unit_id model s.units fresh.unit (length requests) canaries)
      k

-- A unit that is there after a submission was there before, or is pending.
pub create_batch-before :
    (now batch_id : ℕ) (unit_id : ℕ → ℕ) (model : Option String) (requests : List Request)
    (s : BatchStore) (k : ℕ) (u : WorkUnit)
    → IsFresh batch_id unit_id s
    → Valid s
    → lookup k (create_batch now batch_id unit_id model requests s).1.units ≡ some u
    → (lookup k s.units ≡ some u) ⊎ (u.state ≡ pending)
unfolding create_batch
create_batch-before now batch_id unit_id model requests s k u fresh v h =
    let canaries = plant (length requests) s.verifier in
    elim (unit_before s batch_id (create_batch now batch_id unit_id model requests s).0
      (request_units now batch_id unit_id model 0 requests)
      (canary_units now batch_id unit_id model (length requests) canaries) v fresh.batch refl refl
      (request_units-IsNew now batch_id unit_id model s.units fresh.unit 0 requests)
      (canary_units-IsNew now batch_id unit_id model s.units fresh.unit (length requests) canaries)
      k u h) [ inl old ↦ inl old | inr (e, n, c) ↦ inr n.waiting ]
