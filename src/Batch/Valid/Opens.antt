-- ===== src/Batch/Valid/Opens.antt =====
-- When changes of units change whether a batch has outstanding units.
use fleet_lm.Base.{
  ℕ, true, false, some, ◌≡◌, refl, List, [], ◌∷◌, arith, ◌==◌, Bool-cases, Option-cases, contains,
  inl, inr, Dict, lookup, modify, lookup-modify,
}
use fleet_lm.Batch.Data.{WorkUnit, is_open}
use fleet_lm.Batch.Report.{open_unit, any_open}

-- Only the listed units matter, and of those only whether they are open.
pub any_open-congr :
    (uids : List ℕ) (d d' : Dict WorkUnit)
    → ((k : ℕ) → contains k uids ≡ true → open_unit (lookup k d') ≡ open_unit (lookup k d))
    → any_open uids d' ≡ any_open uids d
unfolding any_open contains
any_open-congr [] d d' h = refl
any_open-congr (uid ∷ uids) d d' h =
    ground (arith, h uid (ground arith), any_open-congr uids d d' (λ k c. h k (ground arith)))

-- Closing units can only clear the flag.
pub any_open_mono :
    (uids : List ℕ) (d d' : Dict WorkUnit)
    → ((k : ℕ) → open_unit (lookup k d) ≡ false → open_unit (lookup k d') ≡ false)
    → any_open uids d ≡ false
    → any_open uids d' ≡ false
unfolding any_open
any_open_mono [] d d' h e = refl
any_open_mono (uid ∷ uids) d d' h e = ground (arith, h uid, any_open_mono uids d d' h)

-- The flag is set if a listed unit is open.
pub any_open-mem :
    (uids : List ℕ) (d : Dict WorkUnit) (k : ℕ)
    → contains k uids ≡ true
    → open_unit (lookup k d) ≡ true
    → any_open uids d ≡ true
unfolding any_open contains
any_open-mem [] d k c o = cc
any_open-mem (uid ∷ uids) d k c o = ground (arith, any_open-mem uids d k)

pub any_open-all_closed :
    (uids : List ℕ) (d : Dict WorkUnit)
    → ((k : ℕ) → contains k uids ≡ true → open_unit (lookup k d) ≡ false)
    → any_open uids d ≡ false
unfolding any_open contains
any_open-all_closed [] d h = refl
any_open-all_closed (uid ∷ uids) d h =
    ground (arith, h uid (ground arith), any_open-all_closed uids d (λ k c. h k (ground arith)))

-- A change of one unit that keeps it open, or keeps it closed, is not seen.
pub open_unit-modify :
    (j k : ℕ) (f : WorkUnit → WorkUnit) (d : Dict WorkUnit)
    → ((u : WorkUnit) → lookup j d ≡ some u → is_open (f u).state ≡ is_open u.state)
    → open_unit (lookup k (modify j f d)) ≡ open_unit (lookup k d)
unfolding open_unit
open_unit-modify j k f d h = elim (Option-cases (lookup k d)) [
  | inl e ↦ ground (arith, lookup-modify k j f d)
  | inr (u, e) ↦ elim (Bool-cases (k == j)) [
    | inl at ↦
        let same : k ≡ j = ground arith in ground (arith, lookup-modify k j f d, h u (ground arith))
    | inr off ↦ ground (arith, lookup-modify k j f d)
  ]
]

pub open_unit-modify_close :
    (j k : ℕ) (f : WorkUnit → WorkUnit) (d : Dict WorkUnit)
    → ((u : WorkUnit) → is_open (f u).state ≡ false)
    → open_unit (lookup k d) ≡ false
    → open_unit (lookup k (modify j f d)) ≡ false
unfolding open_unit
open_unit-modify_close j k f d h o = elim (Option-cases (lookup k d)) [
  | inl e ↦ ground (arith, lookup-modify k j f d)
  | inr (u, e) ↦ ground (arith, lookup-modify k j f d, h u)
]
