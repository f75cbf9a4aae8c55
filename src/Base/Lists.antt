-- ===== src/Base/Lists.antt =====
-- Lists measured by native numbers, membership of numbers, and predicates on all members.
use Prim.Native.Nat.{ℕ, zero, suc, ◌+◌, ◌<◌}
use mathlib.Core.Path.{◌≡◌, refl, ap}
use mathlib.Core.Bool.{Bool, true, false, ◌||◌}
use mathlib.Core.Logic.{◌≢◌}
use mathlib.Core.Option.{Option, none, some}
use mathlib.Core.List.{List, [], ◌∷◌, ◌++◌, map}
use native.Mathlib.Omega.{arith}
use fleet_lm.Base.Tests.{◌==◌, if◌then◌else◌}

module _ {ℓ} {A : Type ℓ} where
  abbrev pub length : List A → ℕ
  length [] = 0
  length (x ∷ xs) = suc (length xs)

  pub length-append : (xs ys : List A) → length (xs ++ ys) ≡ length xs + length ys
  length-append [] ys = omega arith
  length-append (x ∷ xs) ys = omega (arith, length-append xs ys)

  abbrev pub drop : ℕ → List A → List A
  drop zero xs = xs
  drop (suc n) [] = []
  drop (suc n) (x ∷ xs) = drop n xs

  -- `l.insert(i, a)`: past the end it appends.
  unfoldable pub insert_at : ℕ → A → List A → List A
  insert_at zero a xs = a ∷ xs
  insert_at (suc i) a [] = a ∷ []
  insert_at (suc i) a (x ∷ xs) = x ∷ insert_at i a xs

  -- `l[i]`, for an index from 0 on.
  unfoldable pub nth : ℕ → List A → Option A
  nth i [] = none
  nth zero (x ∷ xs) = some x
  nth (suc i) (x ∷ xs) = nth i xs

  -- `l[i] = a`, for an index of the list.
  unfoldable pub set_nth : ℕ → A → List A → List A
  set_nth i a [] = []
  set_nth zero a (x ∷ xs) = a ∷ xs
  set_nth (suc i) a (x ∷ xs) = x ∷ set_nth i a xs

  pub nth-set_nth_same :
      (i : ℕ) (a b : A) (xs : List A) → nth i xs ≡ some b → nth i (set_nth i a xs) ≡ some a
  unfolding nth set_nth
  nth-set_nth_same i a b [] h = cc
  nth-set_nth_same zero a b (x ∷ xs) h = refl
  nth-set_nth_same (suc i) a b (x ∷ xs) h = nth-set_nth_same i a b xs h

  pub nth-set_nth_other :
      (j i : ℕ) (a : A) (xs : List A) → j ≢ i → nth j (set_nth i a xs) ≡ nth j xs
  unfolding nth set_nth
  nth-set_nth_other j i a [] h = refl
  nth-set_nth_other zero zero a (x ∷ xs) h = absurd (h refl)
  nth-set_nth_other zero (suc i) a (x ∷ xs) h = refl
  nth-set_nth_other (suc j) zero a (x ∷ xs) h = refl
  nth-set_nth_other (suc j) (suc i) a (x ∷ xs) h = nth-set_nth_other j i a xs (λ e. h (ap suc e))

  pub length-set_nth : (i : ℕ) (a : A) (xs : List A) → length (set_nth i a xs) ≡ length xs
  unfolding set_nth
  length-set_nth i a [] = refl
  length-set_nth zero a (x ∷ xs) = refl
  length-set_nth (suc i) a (x ∷ xs) = ap suc (length-set_nth i a xs)

  pub nth-some : (i : ℕ) (xs : List A) → i < length xs → (x : A) × (nth i xs ≡ some x)
  unfolding nth
  nth-some i [] h = absurd (omega arith)
  nth-some zero (x ∷ xs) h = (x, refl)
  nth-some (suc i) (x ∷ xs) h = nth-some i xs (omega arith)

  pub nth-inside : (i : ℕ) (x : A) (xs : List A) → nth i xs ≡ some x → i < length xs
  unfolding nth
  nth-inside i x [] h = cc
  nth-inside zero x (y ∷ ys) h = omega arith
  nth-inside (suc i) x (y ∷ ys) h = omega (arith, nth-inside i x ys h)

  unfoldable pub filter : (A → Bool) → List A → List A
  filter p [] = []
  filter p (x ∷ xs) = let rest = filter p xs in if p x then x ∷ rest else rest

  unfoldable pub count_if : (A → Bool) → List A → ℕ
  count_if p [] = 0
  count_if p (x ∷ xs) = let rest = count_if p xs in if p x then suc rest else rest

  abbrev pub All {κ} : (A → Type κ) → List A → Type κ
  All P [] = Unit
  All P (x ∷ xs) = P x × All P xs

  pub All-append {κ} : (P : A → Type κ) (xs ys : List A) → All P xs → All P ys → All P (xs ++ ys)
  All-append P [] ys hx hy = hy
  All-append P (x ∷ xs) ys hx hy = (hx.0, All-append P xs ys hx.1 hy)

-- Membership, with the place kept.
pub data In {ℓ} {A : Type ℓ} (a : A) : List A → Type ℓ where
  here : {xs : List A} → In a (a ∷ xs)
  there : {b : A} {xs : List A} → In a xs → In a (b ∷ xs)

pub All-In {ℓ κ} : {A : Type ℓ} (P : A → Type κ) (a : A) (xs : List A) → All P xs → In a xs → P a
All-In P a [] h i = elim i [ ]
All-In P a (x ∷ xs) h here = h.0
All-In P a (x ∷ xs) h (there i) = All-In P a xs h.1 i

pub length-map {ℓ κ} :
    {A : Type ℓ} {B : Type κ} (f : A → B) (xs : List A) → length (map f xs) ≡ length xs
length-map f [] = refl
length-map f (x ∷ xs) = ap suc (length-map f xs)

pub All-map {ℓ κ μ} :
    {A : Type ℓ} (P : A → Type κ) (Q : A → Type μ) (xs : List A)
    → ((a : A) → P a → Q a)
    → All P xs
    → All Q xs
All-map P Q [] f h = tt
All-map P Q (x ∷ xs) f h = (f x h.0, All-map P Q xs f h.1)

-- `k in l`, on identifiers.
unfoldable pub contains : ℕ → List ℕ → Bool
contains k [] = false
contains k (x ∷ xs) = k == x || contains k xs

pub contains-append :
    (k : ℕ) (xs ys : List ℕ) → contains k (xs ++ ys) ≡ contains k xs || contains k ys
unfolding contains
contains-append k [] ys = refl
contains-append k (x ∷ xs) ys = ground (arith, contains-append k xs ys)

pub contains_last : (k : ℕ) (xs : List ℕ) → contains k (xs ++ k ∷ []) ≡ true
unfolding contains
contains_last k xs = ground (arith, contains-append k xs (k ∷ []))

-- No identifier stands twice in the list.
abbrev pub Distinct : List ℕ → Type 0
Distinct [] = Unit {0}
Distinct (x ∷ xs) = (contains x xs ≡ false) × Distinct xs
