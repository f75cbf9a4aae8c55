-- ===== src/Batch/Leasing/Handed.antt =====
-- The units that `lease` hands out.
use fleet_lm.Base.{
  Distinct, ℕ, ◌≤◌, String, true, false, Option, some, ◌≡◌, refl, List, [], ◌∷◌, ◌++◌, arith, ◌==◌,
  leb, length, length-append, All, All-append, All-map, Bool-cases, contains, contains-append, inl,
  inr, Dict, lookup, modify, lookup-modify,
}
use mathlib.Core.List.{map-append}
use fleet_lm.Config.{Settings, lease_end}
use fleet_lm.Batch.Data.{WorkUnit, Batch, BatchStore, leased, is_pending}
use fleet_lm.Batch.Lease.{serves, lease_unit, lease_loop, lease}
use fleet_lm.Batch.LeaseLoop.{leased_unit, run_queue, IsTaken, lease_loop_cases}
use fleet_lm.Batch.Submit.{ids}
use fleet_lm.Batch.Valid.Defs.{Valid}

Distinct-snoc :
    (xs : List ℕ) (x : ℕ) → Distinct xs → contains x xs ≡ false → Distinct (xs ++ x ∷ [])
unfolding contains
Distinct-snoc [] x d c = (refl, tt)
Distinct-snoc (y ∷ xs) x d c =
    (ground (arith, contains-append y xs (x ∷ [])), Distinct-snoc xs x d.1 (ground arith))

pub ids_snoc : (out : List WorkUnit) (u : WorkUnit) → ids (out ++ u ∷ []) ≡ ids out ++ u.id ∷ []
ids_snoc out u = map-append (λ w. w.id) out (u ∷ [])

module _ (settings : Settings) (now node_id : ℕ) (node_model : Option String) where
  -- What a unit holds when it is handed to the node.
  pub record IsHanded (u : WorkUnit) : Type 0 where
    pub state : u.state ≡ leased
    pub node : u.node_id ≡ some node_id
    pub since : u.leased_at ≡ now
    pub until : u.lease_expires_at ≡ lease_end settings now
    pub served : serves node_model u.model ≡ true

  -- The unit is in the store as it was handed out.
  abbrev pub Holds : Dict WorkUnit → WorkUnit → Type 0
  Holds units u = (lookup u.id units ≡ some u) × (is_pending u.state ≡ false)

  abbrev pub Keyed : Dict WorkUnit → Type 0
  Keyed units = (k : ℕ) (u : WorkUnit) → lookup k units ≡ some u → u.id ≡ k

  module _ (batches : Dict Batch) (uid : ℕ) (units : Dict WorkUnit) (u : WorkUnit)
      (t : IsTaken settings now node_id node_model batches (lookup uid units) u) where
    abbrev new_units : Dict WorkUnit
    new_units = modify uid (leased_unit settings now node_id node_model) units

    pub taken-Keyed : Keyed units → Keyed new_units
    unfolding lease_unit
    taken-Keyed h k w q = elim (Bool-cases (k == uid)) [
      | inl e ↦ ground (
        arith,
        t.found,
        h uid u t.found,
        lookup-modify k uid (leased_unit settings now node_id node_model) units,
      )
      | inr e ↦
          h k w (
            ground (arith, lookup-modify k uid (leased_unit settings now node_id node_model) units))
    ]

    taken-Holds : (w : WorkUnit) → Holds units w → Holds new_units w
    taken-Holds w h = elim (Bool-cases (w.id == uid)) [
      | inl e ↦ let same : w.id ≡ uid = ground arith in absurd (ground (arith, t.found, t.waiting))
      | inr e ↦ (
        ground (arith, lookup-modify w.id uid (leased_unit settings now node_id node_model) units),
        h.1,
      )
    ]

    taken-unlisted : (out : List WorkUnit) → All (Holds units) out → contains uid (ids out) ≡ false
    unfolding contains
    taken-unlisted [] all = refl
    taken-unlisted (w ∷ out) all = elim (Bool-cases (uid == w.id)) [
      | inl e ↦
          let same : w.id ≡ uid = ground arith in absurd (ground (arith, t.found, t.waiting, all.0))
      | inr e ↦ ground (arith, taken-unlisted out all.1)
    ]

  -- The state of the loop: what it has handed out so far.
  record Good (count : ℕ) (units : Dict WorkUnit) (out : List WorkUnit) : Type 0 where
    keyed : Keyed units
    stored : All (Holds units) out
    distinct : Distinct (ids out)
    handed : All IsHanded out
    bounded : length out ≤ count

  taken-Good :
      (batches : Dict Batch) (count uid : ℕ) (units : Dict WorkUnit) (out : List WorkUnit)
      (u : WorkUnit)
      → IsTaken settings now node_id node_model batches (lookup uid units) u
      → leb count (length out) ≡ false
      → Good count units out
      → Good count
          (modify uid (leased_unit settings now node_id node_model) units)
          (out ++ leased_unit settings now node_id node_model u ∷ [])
  unfolding lease_unit
  taken-Good batches count uid units out u t room g =
      let key : u.id ≡ uid = g.keyed uid u t.found in
      record {
        keyed = taken-Keyed batches uid units u t g.keyed;
        stored =
            All-append (Holds (new_units batches uid units u t)) out
              (leased_unit settings now node_id node_model u ∷ [])
              (All-map (Holds units) (Holds (new_units batches uid units u t)) out
                (taken-Holds batches uid units u t) g.stored)
              (
                (
                  ground (
                    arith,
                    t.found,
                    lookup-modify u.id uid (leased_unit settings now node_id node_model) units,
                  ),
                  refl,
                ),
                tt,
              );
        distinct = rw (ids_snoc out (leased_unit settings now node_id node_model u)) (
            Distinct-snoc (ids out) u.id g.distinct
              (rw key (taken-unlisted batches uid units u t out g.stored)));
        handed =
            All-append IsHanded out (leased_unit settings now node_id node_model u ∷ []) g.handed (
              record { state = refl; node = refl; since = refl; until = refl; served = t.served },
              tt,
            );
        bounded =
            ground (arith, length-append out (leased_unit settings now node_id node_model u ∷ []));
      }

  lease_loop-Good :
      (batches : Dict Batch) (count : ℕ) (queue : List ℕ) (out : List WorkUnit) (still : List ℕ)
      (units : Dict WorkUnit)
      → Good count units out
      → let r = run_queue settings now node_id node_model batches count queue out still units in
        Good count r.2 r.0
  unfolding lease_loop
  lease_loop-Good batches count [] out still units g = g
  lease_loop-Good batches count (uid ∷ queue) out still units g =
      lease_loop_cases settings now node_id node_model (λ r. Good count r.2 r.0) batches count uid
        queue out still units (λ _. g)
        (λ _ _. lease_loop-Good batches count queue out still units g)
        (λ _ _. lease_loop-Good batches count queue out (still ++ uid ∷ []) units g)
        (λ u room t.
          lease_loop-Good batches count queue
            (out ++ leased_unit settings now node_id node_model u ∷ []) still
            (modify uid (leased_unit settings now node_id node_model) units)
            (taken-Good batches count uid units out u t room g))

-- In a valid store `lease` hands out at most `count` units, no two of them the same. Each is leased
-- to the node from now until the lease ends, serves the node's model, and is in the store so.
pub lease-IsHanded :
    (settings : Settings) (now node_id : ℕ) (node_model : Option String) (count : ℕ)
    (s : BatchStore)
    → Valid s
    → let (out, s') = lease settings now node_id node_model count s in
      (length out ≤ count)
      × Distinct (ids out)
      × All (IsHanded settings now node_id node_model) out
      × All (λ u. lookup u.id s'.units ≡ some u) out
unfolding lease
lease-IsHanded settings now node_id node_model count s v =
    let start : Good settings now node_id node_model count s.units [] = record {
      keyed = λ k u h. (v.stored k u h).key;
      stored = tt;
      distinct = tt;
      handed = tt;
      bounded = omega arith;
    } in
    let g =
      lease_loop-Good settings now node_id node_model s.batches count s.pending [] [] s.units
        start in
    (g.bounded, g.distinct, g.handed, All-map _ _ _ (λ u h. h.0) g.stored)
