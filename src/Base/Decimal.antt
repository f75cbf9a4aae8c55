-- ===== src/Base/Decimal.antt =====
-- Decimal prints of numbers, and reading them back.
use Prim.Native.Nat.{ℕ, zero, suc, ◌+◌, ◌-◌, ◌*◌, ◌/◌, ◌%◌, ◌<◌}
use Prim.Native.Char.{Char, code}
use Prim.Native.String.{String}
use mathlib.Core.Path.{◌≡◌, refl, ap, ◌∙◌}
use mathlib.Core.Bool.{true, ◌&&◌}
use mathlib.Core.Logic.{inl, inr}
use native.Mathlib.Omega.{arith}
use fleet_lm.Base.Tests.{ltb, leb, Bool-cases, if◌then◌else◌}
use fleet_lm.Base.Texts.{concat}

-- The digit of a number below 10.
digit : ℕ → Char
digit zero = "0"
digit (suc zero) = "1"
digit (suc (suc zero)) = "2"
digit (suc (suc (suc zero))) = "3"
digit (suc (suc (suc (suc zero)))) = "4"
digit (suc (suc (suc (suc (suc zero))))) = "5"
digit (suc (suc (suc (suc (suc (suc zero)))))) = "6"
digit (suc (suc (suc (suc (suc (suc (suc zero))))))) = "7"
digit (suc (suc (suc (suc (suc (suc (suc (suc zero)))))))) = "8"
digit _ = "9"

code-digit : (d : ℕ) → d < 10 → code (digit d) ≡ 48 + d
unfolding digit
code-digit zero h = refl
code-digit (suc zero) h = refl
code-digit (suc (suc zero)) h = refl
code-digit (suc (suc (suc zero))) h = refl
code-digit (suc (suc (suc (suc zero)))) h = refl
code-digit (suc (suc (suc (suc (suc zero))))) h = refl
code-digit (suc (suc (suc (suc (suc (suc zero)))))) h = refl
code-digit (suc (suc (suc (suc (suc (suc (suc zero))))))) h = refl
code-digit (suc (suc (suc (suc (suc (suc (suc (suc zero)))))))) h = refl
code-digit (suc (suc (suc (suc (suc (suc (suc (suc (suc d))))))))) h = omega arith

-- The digits of `n` in front of a text, by fuel.
unfoldable pub show_digits : ℕ → ℕ → String → String
unfolding digit
show_digits zero n out = out
show_digits (suc fuel) n out =
    let out' = String.◌∷◌ (digit (n % 10)) out in
    let rest = show_digits fuel (n / 10) out' in if ltb n 10 then out' else rest

-- `str(n)`: a number has fewer digits than its successor, so that fuel is enough.
unfoldable pub show : ℕ → String
show n = show_digits (suc n) n ""

-- Reads digits on top of a number, up to the first character that is none.
unfoldable pub read_digits : String → ℕ → ℕ
read_digits String.[] v = v
read_digits (String.◌∷◌ c s) v =
    let rest = read_digits s (10 * v + (code c - 48)) in
    if leb 48 (code c) && leb (code c) 57 then rest else v

read_digits-digit :
    (d v : ℕ) (s : String)
    → d < 10
    → read_digits (String.◌∷◌ (digit d) s) v ≡ read_digits s (10 * v + d)
unfolding read_digits
read_digits-digit d v s h =
    let is_digit : (leb 48 (48 + d) && leb (48 + d) 57) ≡ true = ground arith in
    rw (code-digit d h, is_digit) (ap (λ k. read_digits s (10 * v + k)) (omega arith))

show_digits-read_digits :
    (fuel n : ℕ) (out : String)
    → n < fuel
    → read_digits (show_digits fuel n out) 0 ≡ read_digits out n
unfolding show_digits
show_digits-read_digits zero n out h = absurd (omega arith)
show_digits-read_digits (suc fuel) n out h =
    let out' = String.◌∷◌ (digit (n % 10)) out in
    elim (Bool-cases (ltb n 10)) [
      | inl e ↦
          rw (e, show_digits)
            (read_digits-digit (n % 10) 0 out (omega arith) ∙ ap (read_digits out) (ground arith))
      | inr e ↦
          rw (e, show_digits)
            (show_digits-read_digits fuel (n / 10) out' (ground arith)
              ∙ read_digits-digit (n % 10) (n / 10) out (omega arith)
              ∙ ap (read_digits out) (omega arith))
    ]

concat-show_digits :
    (fuel n : ℕ) (out t : String)
    → concat (show_digits fuel n out) t ≡ show_digits fuel n (concat out t)
unfolding show_digits concat
concat-show_digits zero n out t = refl
concat-show_digits (suc fuel) n out t = elim (Bool-cases (ltb n 10)) [
  | inl e ↦ rw (e, show_digits) refl
  | inr e ↦ rw (e, show_digits) (concat-show_digits fuel (n / 10) _ t)
]

-- A number is read back from its print, up to the text behind it.
pub read_digits-show : (n : ℕ) (t : String) → read_digits (concat (show n) t) 0 ≡ read_digits t n
unfolding show concat
read_digits-show n t =
    ap (λ s. read_digits s 0) (concat-show_digits (suc n) n "" t)
    ∙ show_digits-read_digits (suc n) n t (omega arith)
