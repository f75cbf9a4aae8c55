-- ===== src/Batch/Valid/Inserting.antt =====
-- The units that `create_batch` puts in the store, and where they stand in the queue.
use fleet_lm.Base.{
  ℕ, zero, suc, true, false, Option, none, some, ◌≡◌, refl, ◌⊎◌, ◌∙◌, List, [], ◌∷◌, ◌||◌, arith,
  ◌==◌, Bool-cases, contains, inl, inr, Dict, lookup, insert, lookup-insert, All, subst, insert_at,
  length, String,
}
use fleet_lm.Verification.{Canary}
use fleet_lm.Batch.Data.{WorkUnit, Request, pending}
use fleet_lm.Batch.Submit.{ids, insert_units, place, spread, request_units, canary_units}

pub insert_units-other :
    (k : ℕ) (us : List WorkUnit) (d : Dict WorkUnit)
    → contains k (ids us) ≡ false
    → lookup k (insert_units us d) ≡ lookup k d
unfolding insert_units contains
insert_units-other k [] d c = refl
insert_units-other k (u ∷ us) d c =
    ground (arith, insert_units-other k us (insert u.id u d), lookup-insert k u.id u d)

module _ (P : WorkUnit → Type 0) where
  abbrev pub Inserted : ℕ → List WorkUnit → WorkUnit → Type 0
  Inserted k us u = (contains k (ids us) ≡ true) × (u.id ≡ k) × P u

  -- What is in the store afterwards was there, or is one of the units.
  pub insert_units-back :
      (k : ℕ) (u : WorkUnit) (us : List WorkUnit) (d : Dict WorkUnit)
      → All P us
      → lookup k (insert_units us d) ≡ some u
      → (lookup k d ≡ some u) ⊎ Inserted k us u
  unfolding insert_units contains
  insert_units-back k u [] d all h = inl h
  insert_units-back k u (w ∷ us) d all h =
      elim (insert_units-back k u us (insert w.id w d) all.1 h) [
        | inr (c, e, p) ↦ inr (ground arith, e, p)
        | inl e ↦ elim (Bool-cases (k == w.id)) [
          | inr off ↦ inl (ground (arith, lookup-insert k w.id w d))
          | inl at ↦
              let same : w ≡ u = ground (arith, lookup-insert k w.id w d) in
              inr (ground arith, ground arith, subst P same all.0)
        ]
      ]

  -- Each of the identifiers leads to one of the units.
  pub insert_units-on :
      (k : ℕ) (us : List WorkUnit) (d : Dict WorkUnit)
      → All P us
      → contains k (ids us) ≡ true
      → (u : WorkUnit) × (lookup k (insert_units us d) ≡ some u) × P u
  unfolding insert_units contains
  insert_units-on k [] d all c = cc
  insert_units-on k (w ∷ us) d all c = elim (Bool-cases (contains k (ids us))) [
    | inl e ↦ insert_units-on k us (insert w.id w d) all.1 e
    | inr e ↦ (
      w,
      insert_units-other k us (insert w.id w d) e ∙ ground (arith, lookup-insert k w.id w d),
      all.0,
    )
  ]

-- Placing a canary keeps the queue's members and adds its own.
contains-insert_at :
    (k i a : ℕ) (xs : List ℕ) → contains k (insert_at i a xs) ≡ (k == a || contains k xs)
unfolding contains insert_at
contains-insert_at k zero a xs = refl
contains-insert_at k (suc i) a [] = refl
contains-insert_at k (suc i) a (x ∷ xs) = ground (arith, contains-insert_at k i a xs)

pub contains-spread :
    (k offset : ℕ) (uids queue : List ℕ)
    → contains k (spread offset uids queue) ≡ (contains k uids || contains k queue)
unfolding contains spread
contains-spread k offset [] queue = refl
contains-spread k offset (uid ∷ uids) queue = ground (
  arith,
  contains-spread k (suc offset) uids (insert_at (place offset (length queue)) uid queue),
  contains-insert_at k (place offset (length queue)) uid queue,
)

-- What is known of a unit that `create_batch` makes.
pub record IsNew (batch_id : ℕ) (units : Dict WorkUnit) (u : WorkUnit) : Type 0 where
  pub home : u.batch_id ≡ batch_id
  pub waiting : u.state ≡ pending
  pub no_node : u.node_id ≡ none
  pub no_lease : u.lease_expires_at ≡ 0
  pub no_text : u.result_text ≡ none
  pub unused : lookup u.id units ≡ none

pub new-unused :
    (batch_id k : ℕ) (units : Dict WorkUnit) (us : List WorkUnit)
    → All (IsNew batch_id units) us
    → contains k (ids us) ≡ true
    → lookup k units ≡ none
unfolding contains
new-unused batch_id k units [] all c = cc
new-unused batch_id k units (u ∷ us) all c =
    ground (arith, new-unused batch_id k units us all.1, all.0.unused)

module _ (now batch_id : ℕ) (unit_id : ℕ → ℕ) (model : Option String) (units : Dict WorkUnit)
    (unused : (i : ℕ) → lookup (unit_id i) units ≡ none) where
  pub request_units-IsNew :
      (i : ℕ) (reqs : List Request)
      → All (IsNew batch_id units) (request_units now batch_id unit_id model i reqs)
  unfolding request_units
  request_units-IsNew i [] = tt
  request_units-IsNew i (req ∷ reqs) = (
    record {
      home = refl;
      waiting = refl;
      no_node = refl;
      no_lease = refl;
      no_text = refl;
      unused = unused i;
    },
    request_units-IsNew (suc i) reqs,
  )

  pub canary_units-IsNew :
      (i : ℕ) (canaries : List Canary)
      → All (IsNew batch_id units) (canary_units now batch_id unit_id model i canaries)
  unfolding canary_units
  canary_units-IsNew i [] = tt
  canary_units-IsNew i (c ∷ cs) = (
    record {
      home = refl;
      waiting = refl;
      no_node = refl;
      no_lease = refl;
      no_text = refl;
      unused = unused i;
    },
    canary_units-IsNew (suc i) cs,
  )
