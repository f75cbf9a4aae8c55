-- ===== src/Batch/Machine.antt =====
-- The life of a work unit as a state machine: the transitions that the methods of `BatchStore`
-- make, and dictionaries of units related by them.
use mathlib.Core.Option
use fleet_lm.Base.{
  ℕ, ◌≤◌, String, Bool, true, false, Option, none, some, ◌≡◌, refl, inl, inr, subst, arith, ◌==◌,
  Bool-cases, Dict, lookup, modify, map_values, lookup-modify, lookup-map_values,
}
use fleet_lm.Config.{Settings}
use fleet_lm.Batch.Data.{
  WorkUnit, UnitState, pending, leased, complete, failed, is_open, is_pending, is_leased, requeued,
}
use fleet_lm.Batch.Lease.{lease_unit}
use fleet_lm.Batch.Report.{NodeResult, record_result, dead_letter, retry}
use fleet_lm.Batch.Cancel.{cancel_unit}

-- One transition, or none.
pub data Moves (u : WorkUnit) : WorkUnit → Type 0 where
  stays : Moves u u
  leases :
      (settings : Settings) (now node_id : ℕ) (node_model : Option String)
      → is_pending u.state ≡ true
      → Moves u (lease_unit settings now node_id node_model u)
  completes :
      (node_id : ℕ) (r : NodeResult) → is_open u.state ≡ true → Moves u (record_result node_id r u)
  dies : (message : String) → is_open u.state ≡ true → Moves u (dead_letter message u)
  retries : (message : String) → is_open u.state ≡ true → Moves u (retry message u)
  returns : is_leased u.state ≡ true → Moves u (requeued u)
  cancels : is_open u.state ≡ true → Moves u (cancel_unit u)

abbrev pub MovesAt : Option WorkUnit → Option WorkUnit → Type 0
MovesAt none none = Unit
MovesAt none (some v) = ⊥
MovesAt (some u) none = ⊥
MovesAt (some u) (some v) = Moves u v

-- Every unit moves, none is lost and none appears.
abbrev pub Evolves : Dict WorkUnit → Dict WorkUnit → Type 0
Evolves d d' = (k : ℕ) → MovesAt (lookup k d) (lookup k d')

-- A unit that is complete or failed does not move again.
pub Moves-closed : {u v : WorkUnit} → Moves u v → is_open u.state ≡ false → v ≡ u
Moves-closed stays h = refl
Moves-closed (leases settings now node_id node_model p) h = ground arith
Moves-closed (completes node_id r p) h = cc
Moves-closed (dies message p) h = cc
Moves-closed (retries message p) h = cc
Moves-closed (returns p) h = ground arith
Moves-closed (cancels p) h = cc

-- What no transition changes.
pub record SameTask (u v : WorkUnit) : Type 0 where
  pub id : v.id ≡ u.id
  pub batch_id : v.batch_id ≡ u.batch_id
  pub index : v.index ≡ u.index
  pub attempts : u.attempts ≤ v.attempts

pub Moves-SameTask : {u v : WorkUnit} → Moves u v → SameTask u v
unfolding lease_unit record_result dead_letter retry requeued cancel_unit
Moves-SameTask stays = ground arith
Moves-SameTask (leases settings now node_id node_model p) = ground arith
Moves-SameTask (completes node_id r p) = ground arith
Moves-SameTask (dies message p) = ground arith
Moves-SameTask (retries message p) = ground arith
Moves-SameTask (returns p) = ground arith
Moves-SameTask (cancels p) = ground arith

abbrev pub is_some {ℓ} : {A : Type ℓ} → Option A → Bool
is_some none = false
is_some (some a) = true

-- What the fields of a unit hold in each state.
abbrev pub FieldsFit : UnitState → WorkUnit → Type 0
FieldsFit pending u = (u.node_id ≡ none) × (u.lease_expires_at ≡ 0) × (u.result_text ≡ none)
FieldsFit leased u = (is_some u.node_id ≡ true) × (1 ≤ u.attempts) × (u.result_text ≡ none)
FieldsFit complete u = (is_some u.node_id ≡ true) × (is_some u.result_text ≡ true)
FieldsFit failed u = (is_some u.error ≡ true) × (u.result_text ≡ none)

abbrev pub IsFit : WorkUnit → Type 0
IsFit u = FieldsFit u.state u

no_result :
    (u : WorkUnit) (st : UnitState) → is_open st ≡ true → FieldsFit st u → u.result_text ≡ none
no_result u pending h f = f.2
no_result u leased h f = f.2
no_result u complete h f = cc
no_result u failed h f = cc

open_of_leased : (st : UnitState) → is_leased st ≡ true → is_open st ≡ true
open_of_leased st h = ground arith

pub Moves-IsFit : {u v : WorkUnit} → Moves u v → IsFit u → IsFit v
unfolding lease_unit record_result dead_letter retry requeued cancel_unit
Moves-IsFit stays f = f
Moves-IsFit {u} (leases settings now node_id node_model p) f =
    (refl, omega arith, no_result u u.state (ground arith) f)
Moves-IsFit (completes node_id r p) f = (refl, refl)
Moves-IsFit {u} (dies message p) f = (refl, no_result u u.state p f)
Moves-IsFit {u} (retries message p) f = (refl, refl, no_result u u.state p f)
Moves-IsFit {u} (returns p) f = (refl, refl, no_result u u.state (open_of_leased u.state p) f)
Moves-IsFit {u} (cancels p) f = rw p (refl, no_result u u.state p f)

pub MovesAt-refl : (o : Option WorkUnit) → MovesAt o o
MovesAt-refl none = tt
MovesAt-refl (some u) = stays

pub MovesAt-map :
    (f : WorkUnit → WorkUnit) (o : Option WorkUnit)
    → ((u : WorkUnit) → o ≡ some u → Moves u (f u))
    → MovesAt o (Option.map f o)
MovesAt-map f none h = tt
MovesAt-map f (some u) h = h u refl

pub Evolves-refl : (d : Dict WorkUnit) → Evolves d d
Evolves-refl d k = MovesAt-refl (lookup k d)

pub Evolves-modify :
    (j : ℕ) (f : WorkUnit → WorkUnit) (d : Dict WorkUnit)
    → ((u : WorkUnit) → lookup j d ≡ some u → Moves u (f u))
    → Evolves d (modify j f d)
Evolves-modify j f d h k = elim (Bool-cases (k == j)) [
  | inl e ↦
      let at : k ≡ j = ground arith in
      rw (lookup-modify k j f d, e) (MovesAt-map f (lookup k d) (λ u q. h u (rw (← at) q)))
  | inr e ↦ rw (lookup-modify k j f d, e) (MovesAt-refl (lookup k d))
]

pub Evolves-map_values :
    (f : WorkUnit → WorkUnit) (d : Dict WorkUnit)
    → ((u : WorkUnit) → Moves u (f u))
    → Evolves d (map_values f d)
Evolves-map_values f d h k = rw (lookup-map_values k f d) (MovesAt-map f (lookup k d) (λ u q. h u))

-- A unit that is there afterwards was there before.
pub Evolves-back :
    (d d' : Dict WorkUnit) (k : ℕ) (v : WorkUnit)
    → Evolves d d'
    → lookup k d' ≡ some v
    → (u : WorkUnit) × (lookup k d ≡ some u) × Moves u v
Evolves-back d d' k v e h = from (lookup k d) refl (subst (MovesAt (lookup k d)) h (e k))
  where
    from :
        (o : Option WorkUnit)
        → lookup k d ≡ o
        → MovesAt o (some v)
        → (u : WorkUnit) × (lookup k d ≡ some u) × Moves u v
    from none q m = elim m [ ]
    from (some u) q m = (u, q, m)

pub Evolves-on :
    (d d' : Dict WorkUnit) (k : ℕ) (u : WorkUnit)
    → Evolves d d'
    → lookup k d ≡ some u
    → (v : WorkUnit) × (lookup k d' ≡ some v) × Moves u v
Evolves-on d d' k u e h = from (lookup k d') refl (subst (λ o. MovesAt o (lookup k d')) h (e k))
  where
    from :
        (o : Option WorkUnit)
        → lookup k d' ≡ o
        → MovesAt (some u) o
        → (v : WorkUnit) × (lookup k d' ≡ some v) × Moves u v
    from none q m = elim m [ ]
    from (some v) q m = (v, q, m)
