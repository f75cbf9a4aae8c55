-- ===== src/Verification/Overhead.antt =====
-- How many canaries a batch costs.
use fleet_lm.Base.{
  ℕ, zero, suc, ◌*◌, ◌%◌, ◌≤◌, min, max, ◌≡◌, refl, List, [], ◌∷◌, arith, length, length-append,
  round_div,
}
use native.Mathlib.Nat.{mul-le-mul_left, mod-lt}
use fleet_lm.Config.{one}
use fleet_lm.Verification.{Canary, new_verifier, canary_count, elem_at, cycle_from, select}

round_div-bounded : (m n : ℕ) → m ≤ n * one → round_div m one ≤ n
unfolding round_div
round_div-bounded m n h = ground arith

length-elem_at : (i : ℕ) (cs : List Canary) → suc i ≤ length cs → length (elem_at i cs) ≡ 1
unfolding elem_at
length-elem_at i [] h = ground arith
length-elem_at zero (c ∷ cs) h = refl
length-elem_at (suc i) (c ∷ cs) h = length-elem_at i cs (omega arith)

length-cycle_from :
    (start count : ℕ) (c : Canary) (cs : List Canary)
    → length (cycle_from start count (c ∷ cs)) ≡ count
unfolding cycle_from
length-cycle_from start zero c cs = refl
length-cycle_from start (suc count) c cs =
    let here =
      length-elem_at (start % suc (length cs)) (c ∷ cs)
        (omega (arith, mod-lt start {m = suc (length cs)} (omega arith))) in
    omega (
      arith,
      here,
      length-cycle_from (suc start) count c cs,
      length-append (elem_at (start % suc (length cs)) (c ∷ cs))
          (cycle_from (suc start) count (c ∷ cs)),
    )

-- A verifier that has canaries and a rate plants in each batch at least one canary, and never more
-- canaries than the batch has requests, whatever rate it is given.
pub length-select :
    (c : Canary) (cs : List Canary) (rate threshold n : ℕ)
    → 1 ≤ rate
    → 1 ≤ n
    → let planted = length (select n (new_verifier (c ∷ cs) rate threshold)) in
      (1 ≤ planted) × (planted ≤ n)
unfolding select canary_count new_verifier
length-select c cs rate threshold n r m =
    let used = max 0 (min one rate) in
    let few : round_div (n * used) one ≤ n =
      round_div-bounded (n * used) n (mul-le-mul_left n (omega arith)) in
    ground (arith, few, length-cycle_from 0 (max 1 (round_div (n * used) one)) c cs)
