-- ===== src/Batch/Requested.antt =====
-- What becomes of each request of a submission: its unit, with its place and what it asks.
use fleet_lm.Base.{
  ℕ, zero, suc, ◌+◌, ◌≤◌, ◌<◌, String, true, false, Option, none, some, ◌≡◌, refl, ◌∙◌, inl, inr,
  List, [], ◌∷◌, ◌==◌, arith, Bool-cases, contains, length, Dict, lookup, lookup-insert_same,
}
use fleet_lm.Verification.{Canary}
use fleet_lm.Batch.Data.{WorkUnit, BatchStore, Request, Payload, payload, requeued}
use fleet_lm.Batch.Lease.{lease_unit}
use fleet_lm.Batch.Report.{record_result, dead_letter, retry}
use fleet_lm.Batch.Cancel.{cancel_unit}
use fleet_lm.Batch.Submit.{ids, insert_units, plant, request_units, canary_units, create_batch}
use fleet_lm.Batch.Machine.{
  Moves, stays, leases, completes, dies, retries, returns, cancels, Moves-SameTask,
}
use fleet_lm.Batch.Valid.Inserting.{insert_units-other}

-- What a node is asked to do never changes.
pub Moves-payload : {u v : WorkUnit} → Moves u v → payload v ≡ payload u
unfolding lease_unit record_result dead_letter retry requeued cancel_unit payload
Moves-payload stays = refl
Moves-payload (leases settings now node_id node_model p) = refl
Moves-payload (completes node_id r p) = refl
Moves-payload (dies message p) = refl
Moves-payload (retries message p) = refl
Moves-payload (returns p) = refl
Moves-payload (cancels p) = rw p refl

-- What a node is to be asked for a request.
abbrev pub payload_of : ℕ → Request → Payload
payload_of unit_id req = record {
  unit_id = unit_id;
  messages = req.messages;
  max_tokens = req.max_tokens;
  temperature = req.temperature;
}

-- The request at a place of a list, if there is one.
abbrev pub request_at : List Request → ℕ → Option Request
request_at [] j = none
request_at (req ∷ reqs) zero = some req
request_at (req ∷ reqs) (suc j) = request_at reqs j

pub request_at-within :
    (reqs : List Request) (j : ℕ) (req : Request) → request_at reqs j ≡ some req → j < length reqs
request_at-within [] j req e = cc
request_at-within (r ∷ reqs) zero req e = omega arith
request_at-within (r ∷ reqs) (suc j) req e = omega (arith, request_at-within reqs j req e)

-- The unit is the one that a request of a batch gets: its place there, and what it asks.
pub record IsFor (batch_id unit_id j : ℕ) (req : Request) (u : WorkUnit) : Type 0 where
  pub home : u.batch_id ≡ batch_id
  pub place : u.index ≡ j
  pub asked : payload u ≡ payload_of unit_id req

abbrev pub HoldsFor : ℕ → ℕ → ℕ → Request → Dict WorkUnit → Type 0
HoldsFor batch_id unit_id j req units =
    (u : WorkUnit) × (lookup unit_id units ≡ some u) × IsFor batch_id unit_id j req u

module _ (now batch_id : ℕ) (unit_id : ℕ → ℕ) (model : Option String)
    (distinct : (i j : ℕ) → unit_id i ≡ unit_id j → i ≡ j) where
  abbrev made : ℕ → List Request → List WorkUnit
  made = request_units now batch_id unit_id model

  -- The identifiers of the units are drawn from `i` on.
  made-back :
      (k i : ℕ) (reqs : List Request)
      → contains k (ids (made i reqs)) ≡ true
      → (j : ℕ) × (k ≡ unit_id j) × (i ≤ j) × (j < i + length reqs)
  unfolding request_units contains
  made-back k i [] c = cc
  made-back k i (req ∷ reqs) c = elim (Bool-cases (k == unit_id i)) [
    | inl e ↦ (i, ground arith, omega arith, omega arith)
    | inr e ↦
        let (j, q, low, high) = made-back k (suc i) reqs (ground arith) in
        (j, q, omega arith, omega arith)
  ]

  planted-back :
      (k i : ℕ) (cs : List Canary)
      → contains k (ids (canary_units now batch_id unit_id model i cs)) ≡ true
      → (j : ℕ) × (k ≡ unit_id j) × (i ≤ j)
  unfolding canary_units contains
  planted-back k i [] c = cc
  planted-back k i (x ∷ cs) c = elim (Bool-cases (k == unit_id i)) [
    | inl e ↦ (i, ground arith, omega arith)
    | inr e ↦ let (j, q, low) = planted-back k (suc i) cs (ground arith) in (j, q, omega arith)
  ]

  made-unlike :
      (i : ℕ) (reqs : List Request) → contains (unit_id i) (ids (made (suc i) reqs)) ≡ false
  made-unlike i reqs = elim (Bool-cases (contains (unit_id i) (ids (made (suc i) reqs)))) [
    | inr e ↦ e
    | inl e ↦
        let (j, q, low, high) = made-back (unit_id i) (suc i) reqs e in
        absurd (omega (arith, distinct i j q))
  ]

module _ (now batch_id : ℕ) (unit_id : ℕ → ℕ) (model : Option String)
    (distinct : (i j : ℕ) → unit_id i ≡ unit_id j → i ≡ j) where
  made-HoldsFor :
      (i : ℕ) (reqs : List Request) (d : Dict WorkUnit) (j n : ℕ) (req : Request)
      → n ≡ i + j
      → request_at reqs j ≡ some req
      → HoldsFor batch_id
          (unit_id n)
          n
          req
          (insert_units (request_units now batch_id unit_id model i reqs) d)
  unfolding request_units insert_units payload
  made-HoldsFor i [] d j n req at e = cc
  made-HoldsFor i (r ∷ reqs) d zero n req at e =
      let same : n ≡ i = omega (arith, at) in
      let this : r ≡ req = ground arith in
      rw (same, ← this)
        (
          _,
          insert_units-other (unit_id i) (request_units now batch_id unit_id model (suc i) reqs) _
                (made-unlike now batch_id unit_id model distinct i reqs)
              ∙ lookup-insert_same (unit_id i) _ d,
          record { home = refl; place = refl; asked = refl },
        )
  made-HoldsFor i (r ∷ reqs) d (suc j) n req at e =
      made-HoldsFor (suc i) reqs _ j n req (omega (arith, at)) e

  pub submitted-HoldsFor :
      (s : BatchStore) (requests : List Request) (j : ℕ) (req : Request)
      → request_at requests j ≡ some req
      → HoldsFor batch_id
          (unit_id j)
          j
          req
          (create_batch now batch_id unit_id model requests s).1.units
  unfolding create_batch
  submitted-HoldsFor s requests j req e =
      let canaries = plant (length requests) s.verifier in
      let checks = canary_units now batch_id unit_id model (length requests) canaries in
      let (u, q, h) = made-HoldsFor 0 requests s.units j j req (omega arith) e in
      let off : contains (unit_id j) (ids checks) ≡ false =
        elim (Bool-cases (contains (unit_id j) (ids checks))) [
          | inr off ↦ off
          | inl on ↦
              let (k, same, low) =
                planted-back now batch_id unit_id model distinct (unit_id j) (length requests)
                  canaries on in
              absurd (omega (arith, distinct j k same, request_at-within requests j req e))
        ] in
      (u, insert_units-other (unit_id j) checks _ off ∙ q, h)

pub Moves-IsFor :
    {u v : WorkUnit} (batch_id unit_id j : ℕ) (req : Request)
    → Moves u v
    → IsFor batch_id unit_id j req u
    → IsFor batch_id unit_id j req v
Moves-IsFor batch_id unit_id j req m h = record {
  home = (Moves-SameTask m).batch_id ∙ h.home;
  place = (Moves-SameTask m).index ∙ h.place;
  asked = Moves-payload m ∙ h.asked;
}
