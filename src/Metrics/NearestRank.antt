-- ===== src/Metrics/NearestRank.antt =====
-- What `percentile` gives: the nearest rank.
use fleet_lm.Base.{
  ℕ, zero, suc, ◌-◌, ◌*◌, ◌≤◌, ◌<◌, true, ◌||◌, some, ◌≡◌, ◌≢◌, refl, ap, sym, ◌∙◌, inl, inr, List,
  [], ◌∷◌, leb, ◌==◌, arith, Bool-cases, length, contains, count_if, All, sort_by, insert_sorted,
  length-sort_by,
}
use fleet_lm.Metrics.Percentile.{percentile, rank, get_elem?}

-- How many samples are at most `w`.
abbrev pub at_most : ℕ → List ℕ → ℕ
at_most w xs = count_if (λ x. leb x w) xs

abbrev IsSorted : List ℕ → Type 0
IsSorted [] = Unit
IsSorted (x ∷ xs) = All (λ y. x ≤ y) xs × IsSorted xs

insert-All :
    (P : ℕ → Type 0) (a : ℕ) (xs : List ℕ) → P a → All P xs → All P (insert_sorted (λ x. x) a xs)
unfolding insert_sorted
insert-All P a [] p h = (p, tt)
insert-All P a (x ∷ xs) p (q, h) = elim (Bool-cases (leb a x)) [
  | inl e ↦ rw e (p, (q, h))
  | inr e ↦ rw e (q, insert-All P a xs p h)
]

All-above : (a x : ℕ) (xs : List ℕ) → a ≤ x → All (λ y. x ≤ y) xs → All (λ y. a ≤ y) xs
All-above a x [] le h = tt
All-above a x (y ∷ ys) le (q, h) = (omega arith, All-above a x ys le h)

All-beyond : (a x : ℕ) (xs : List ℕ) → a < x → All (λ y. x ≤ y) xs → All (λ y. a < y) xs
All-beyond a x [] lt h = tt
All-beyond a x (y ∷ ys) lt (q, h) = (omega arith, All-beyond a x ys lt h)

insert-IsSorted : (a : ℕ) (xs : List ℕ) → IsSorted xs → IsSorted (insert_sorted (λ x. x) a xs)
unfolding insert_sorted
insert-IsSorted a [] s = (tt, tt)
insert-IsSorted a (x ∷ xs) (h, s) = elim (Bool-cases (leb a x)) [
  | inl e ↦ rw e ((ground arith, All-above a x xs (ground arith) h), (h, s))
  | inr e ↦ rw e (insert-All (λ y. x ≤ y) a xs (ground arith) h, insert-IsSorted a xs s)
]

sort-IsSorted : (xs : List ℕ) → IsSorted (sort_by (λ x. x) xs)
unfolding sort_by
sort-IsSorted [] = tt
sort-IsSorted (x ∷ xs) = insert-IsSorted x (sort_by (λ y. y) xs) (sort-IsSorted xs)

at_most-insert :
    (w a : ℕ) (xs : List ℕ) → at_most w (insert_sorted (λ x. x) a xs) ≡ at_most w (a ∷ xs)
unfolding insert_sorted count_if
at_most-insert w a [] = refl
at_most-insert w a (x ∷ xs) = ground (arith, at_most-insert w a xs)

at_most-sort : (w : ℕ) (xs : List ℕ) → at_most w (sort_by (λ x. x) xs) ≡ at_most w xs
unfolding sort_by count_if
at_most-sort w [] = refl
at_most-sort w (x ∷ xs) =
    ground (arith, at_most-insert w x (sort_by (λ y. y) xs), at_most-sort w xs)

contains-insert :
    (k a : ℕ) (xs : List ℕ) → contains k (insert_sorted (λ x. x) a xs) ≡ (k == a || contains k xs)
unfolding insert_sorted contains
contains-insert k a [] = refl
contains-insert k a (x ∷ xs) = ground (arith, contains-insert k a xs)

contains-sort : (k : ℕ) (xs : List ℕ) → contains k (sort_by (λ x. x) xs) ≡ contains k xs
unfolding sort_by contains
contains-sort k [] = refl
contains-sort k (x ∷ xs) =
    ground (arith, contains-insert k x (sort_by (λ y. y) xs), contains-sort k xs)

get_elem-some :
    (xs : List ℕ) (i : ℕ)
    → i < length xs
    → (v : ℕ) × (get_elem? xs i ≡ some v) × (contains v xs ≡ true)
unfolding contains
get_elem-some [] i h = absurd (omega arith)
get_elem-some (x ∷ xs) zero h = (x, refl, ground arith)
get_elem-some (x ∷ xs) (suc i) h =
    let (v, e, c) = get_elem-some xs i (omega arith) in (v, e, ground arith)

get_elem-All : (P : ℕ → Type 0) (xs : List ℕ) (i v : ℕ) → All P xs → get_elem? xs i ≡ some v → P v
get_elem-All P [] i v h e = cc
get_elem-All P (x ∷ xs) zero v h e = let same : x ≡ v = ground arith in rw (← same) h.0
get_elem-All P (x ∷ xs) (suc i) v h e = get_elem-All P xs i v h.1 e

none_below : (w : ℕ) (xs : List ℕ) → All (λ y. w < y) xs → at_most w xs ≡ 0
unfolding count_if
none_below w [] h = refl
none_below w (x ∷ xs) (q, h) = ground (arith, none_below w xs h)

-- The element at an index has as many samples at or below it, and fewer below it.
get_elem-at_most :
    (xs : List ℕ) (i v : ℕ) → IsSorted xs → get_elem? xs i ≡ some v → suc i ≤ at_most v xs
unfolding count_if
get_elem-at_most [] i v s e = cc
get_elem-at_most (x ∷ xs) zero v s e = ground arith
get_elem-at_most (x ∷ xs) (suc i) v (h, s) e =
    ground (arith, get_elem-All (λ y. x ≤ y) xs i v h e, get_elem-at_most xs i v s e)

get_elem-below :
    (xs : List ℕ) (i v w : ℕ) → IsSorted xs → get_elem? xs i ≡ some v → w < v → at_most w xs ≤ i
unfolding count_if
get_elem-below [] i v w s e b = cc
get_elem-below (x ∷ xs) zero v w (h, s) e b =
    let none_here : at_most w xs ≡ 0 = none_below w xs (All-beyond w x xs (ground arith) h) in
    ground arith
get_elem-below (x ∷ xs) (suc i) v w (h, s) e b = ground (arith, get_elem-below xs i v w s e b)

-- The rank is the least one that covers `pct` percent of `n`.
rank-least :
    (n pct : ℕ)
    → 1 ≤ n
    → 1 ≤ pct
    → pct ≤ 100
    → (1 ≤ rank n pct)
      × (rank n pct ≤ n)
      × (n * pct ≤ 100 * rank n pct)
      × (100 * (rank n pct - 1) < n * pct)
unfolding rank
rank-least n pct some_n some_pct small =
    let covered : n * pct ≤ 100 * n = grind arith in
    let some_m : 1 ≤ n * pct = grind arith in (omega arith, omega arith, omega arith, omega arith)

at_rank :
    (pct : ℕ) (xs : List ℕ)
    → xs ≢ []
    → percentile xs pct ≡ get_elem? (sort_by (λ x. x) xs) (rank (length xs) pct - 1)
unfolding percentile
at_rank pct [] h = absurd (h refl)
at_rank pct (x ∷ xs) h =
    ap (λ n. get_elem? (sort_by (λ y. y) (x ∷ xs)) (rank n pct - 1))
      (length-sort_by (λ y. y) (x ∷ xs))

length-pos : (xs : List ℕ) → xs ≢ [] → 1 ≤ length xs
length-pos [] h = absurd (h refl)
length-pos (x ∷ xs) h = omega arith

-- The value is one of the samples, and the least that covers the percentage of them.
abbrev pub IsNearest : ℕ → List ℕ → ℕ → Type 0
IsNearest pct xs v =
    (contains v xs ≡ true)
    × (length xs * pct ≤ 100 * at_most v xs)
    × ((w : ℕ) → w < v → 100 * at_most w xs < length xs * pct)

get_elem-IsNearest :
    (pct r : ℕ) (xs : List ℕ) (v : ℕ)
    → 1 ≤ r
    → length xs * pct ≤ 100 * r
    → 100 * (r - 1) < length xs * pct
    → get_elem? (sort_by (λ x. x) xs) (r - 1) ≡ some v
    → contains v (sort_by (λ x. x) xs) ≡ true
    → IsNearest pct xs v
get_elem-IsNearest pct r xs v first covers least e c =
    let sorted = sort_by (λ x. x) xs in
    let above = get_elem-at_most sorted (r - 1) v (sort-IsSorted xs) e in
    (
      sym (contains-sort v xs) ∙ c,
      omega (arith, above, at_most-sort v xs),
      λ w below.
          omega (
            arith,
            get_elem-below sorted (r - 1) v w (sort-IsSorted xs) e below,
            at_most-sort w xs,
          ),
    )

-- For a percentage from 1 to 100 and one sample at least, the percentile is one of the samples, and
-- the least value such that at least that percentage of the samples are at most it.
pub percentile-IsNearest :
    (pct : ℕ) (xs : List ℕ)
    → 1 ≤ pct
    → pct ≤ 100
    → xs ≢ []
    → (v : ℕ) × (percentile xs pct ≡ some v) × IsNearest pct xs v
percentile-IsNearest pct xs low high h =
    let r = rank (length xs) pct in
    let (first, last, covers, least) = rank-least (length xs) pct (length-pos xs h) low high in
    let (v, e, c) =
      get_elem-some (sort_by (λ x. x) xs) (r - 1) (omega (arith, length-sort_by (λ x. x) xs)) in
    (v, at_rank pct xs h ∙ e, get_elem-IsNearest pct r xs v first covers least e c)
