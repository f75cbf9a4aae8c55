-- ===== src/Batch/Planting.antt =====
-- Where `create_batch` puts the canaries in the queue.
use mathlib.Core.List.{Sublistᴰ}
use native.Mathlib.Nat.{div-mul-le_self, le-div_iff_mul-le}
use fleet_lm.Base.{
  ℕ, zero, suc, ◌+◌, ◌*◌, ◌/◌, ◌≤◌, ◌<◌, max, Option, ◌≡◌, refl, ◌∙◌, ap, List, [], ◌∷◌, ◌++◌,
  arith, length, length-append, insert_at, String, contains, ◌||◌,
}
use fleet_lm.Batch.Data.{BatchStore, Request}
use fleet_lm.Batch.Submit.{ids, place, spread, plant, request_units, canary_units, create_batch}
use fleet_lm.Batch.Valid.Inserting.{contains-spread}

all_of : (xs : List ℕ) → Sublistᴰ xs xs
all_of [] = Sublistᴰ.slnil
all_of (x ∷ xs) = Sublistᴰ.cons-cons refl (all_of xs)

sublist_trans : {xs ys zs : List ℕ} → Sublistᴰ xs ys → Sublistᴰ ys zs → Sublistᴰ xs zs
sublist_trans p Sublistᴰ.slnil = p
sublist_trans p (Sublistᴰ.cons q) = Sublistᴰ.cons (sublist_trans p q)
sublist_trans (Sublistᴰ.cons p) (Sublistᴰ.cons-cons e q) = Sublistᴰ.cons (sublist_trans p q)
sublist_trans (Sublistᴰ.cons-cons d p) (Sublistᴰ.cons-cons e q) =
    Sublistᴰ.cons-cons (d ∙ e) (sublist_trans p q)

insert_at-sublist : (i a : ℕ) (xs : List ℕ) → Sublistᴰ xs (insert_at i a xs)
unfolding insert_at
insert_at-sublist zero a xs = Sublistᴰ.cons (all_of xs)
insert_at-sublist (suc i) a [] = Sublistᴰ.cons Sublistᴰ.slnil
insert_at-sublist (suc i) a (x ∷ xs) = Sublistᴰ.cons-cons refl (insert_at-sublist i a xs)

length-insert_at : (i a : ℕ) (xs : List ℕ) → length (insert_at i a xs) ≡ suc (length xs)
unfolding insert_at
length-insert_at zero a xs = refl
length-insert_at (suc i) a [] = refl
length-insert_at (suc i) a (x ∷ xs) = ap suc (length-insert_at i a xs)

stride_inside :
    (offset n q : ℕ)
    → 1 ≤ q
    → q * (suc offset + 1) ≤ n
    → (1 ≤ q * (offset + 1)) × (q * (offset + 1) < n)
stride_inside offset n q h k = omega arith

-- While the queue has two units more than canaries so far, a canary goes between its ends.
place_inside : (offset n : ℕ) → offset + 2 ≤ n → (1 ≤ place offset n) × (place offset n < n)
unfolding place
place_inside offset n h =
    let q : ℕ = n / (suc offset + 1) in
    let some_stride : 1 ≤ q =
      (le-div_iff_mul-le {k = suc offset + 1} (omega arith)).1 (omega arith) in
    let same : max 1 q ≡ q = omega arith in
    let inside = stride_inside offset n q some_stride (div-mul-le_self n (suc offset + 1)) in
    rw same (omega (arith, inside.0, inside.1))

insert_at-inner :
    (i a y : ℕ) (mid : List ℕ)
    → i ≤ length mid
    → (mid' : List ℕ) × (insert_at i a (mid ++ y ∷ []) ≡ mid' ++ y ∷ [])
      × (length mid' ≡ suc (length mid))
unfolding insert_at
insert_at-inner zero a y mid h = (a ∷ mid, refl, refl)
insert_at-inner (suc i) a y [] h = absurd (omega arith)
insert_at-inner (suc i) a y (x ∷ mid) h =
    let (mid', e, n) = insert_at-inner i a y mid (omega arith) in (x ∷ mid', ap (◌∷◌ x) e, ap suc n)

insert_at-ends :
    (i a x y : ℕ) (mid : List ℕ)
    → 1 ≤ i
    → i < suc (suc (length mid))
    → (mid' : List ℕ) × (insert_at i a (x ∷ mid ++ y ∷ []) ≡ x ∷ mid' ++ y ∷ [])
      × (length mid' ≡ suc (length mid))
unfolding insert_at
insert_at-ends zero a x y mid h k = absurd (omega arith)
insert_at-ends (suc i) a x y mid h k =
    let (mid', e, n) = insert_at-inner i a y mid (omega arith) in (mid', ap (◌∷◌ x) e, n)

spread-ends :
    (offset x y : ℕ) (uids mid : List ℕ)
    → offset ≤ length mid
    → (mid' : List ℕ) × (spread offset uids (x ∷ mid ++ y ∷ []) ≡ x ∷ mid' ++ y ∷ [])
unfolding spread
spread-ends offset x y [] mid h = (mid, refl)
spread-ends offset x y (uid ∷ uids) mid h =
    let n : ℕ = length (x ∷ mid ++ y ∷ []) in
    let inside : (1 ≤ place offset n) × (place offset n < n) =
      place_inside offset n (omega (arith, length-append mid (y ∷ []))) in
    let (mid', e, m) =
      insert_at-ends (place offset n) uid x y mid inside.0
        (omega (arith, length-append mid (y ∷ []))) in
    let (end, e') = spread-ends (suc offset) x y uids mid' (omega arith) in (end, rw e e')

spread-sublist : (offset : ℕ) (uids queue : List ℕ) → Sublistᴰ queue (spread offset uids queue)
unfolding spread
spread-sublist offset [] queue = all_of queue
spread-sublist offset (uid ∷ uids) queue =
    sublist_trans (insert_at-sublist (place offset (length queue)) uid queue)
      (spread-sublist (suc offset) uids (insert_at (place offset (length queue)) uid queue))

length-spread :
    (offset : ℕ) (uids queue : List ℕ)
    → length (spread offset uids queue) ≡ length uids + length queue
unfolding spread
length-spread offset [] queue = omega arith
length-spread offset (uid ∷ uids) queue = omega (
  arith,
  length-spread (suc offset) uids (insert_at (place offset (length queue)) uid queue),
  length-insert_at (place offset (length queue)) uid queue,
)

-- The identifiers of the submitted units end with that of the last request.
request_ids-last :
    (now batch_id : ℕ) (unit_id : ℕ → ℕ) (model : Option String) (i : ℕ) (r : Request)
    (reqs : List Request)
    → (mid : List ℕ) × (ids (request_units now batch_id unit_id model i (r ∷ reqs))
        ≡ mid ++ unit_id (i + length reqs) ∷ [])
unfolding request_units
request_ids-last now batch_id unit_id model i r [] = ([], ap (λ j. unit_id j ∷ []) (omega arith))
request_ids-last now batch_id unit_id model i r (r' ∷ reqs) =
    let (mid, e) = request_ids-last now batch_id unit_id model (suc i) r' reqs in
    (unit_id i ∷ mid, ap (◌∷◌ (unit_id i)) (e ∙ ap (λ j. mid ++ unit_id j ∷ []) (omega arith)))

-- What a batch of two requests or more adds to the queue begins with the unit of the first request
-- and ends with that of the last: no canary stands at either end.
pub create_batch-ends :
    (now batch_id : ℕ) (unit_id : ℕ → ℕ) (model : Option String) (first second : Request)
    (requests : List Request) (s : BatchStore)
    → let s' = (create_batch now batch_id unit_id model (first ∷ second ∷ requests) s).1 in
      (mid : List ℕ) × (s'.pending
        ≡ s.pending ++ unit_id 0 ∷ (mid ++ unit_id (1 + length requests) ∷ []))
unfolding create_batch request_units
create_batch-ends now batch_id unit_id model first second requests s =
    let (mid, e) = request_ids-last now batch_id unit_id model 1 second requests in
    let checks =
      canary_units now batch_id unit_id model (suc (suc (length requests)))
        (plant (suc (suc (length requests))) s.verifier) in
    let (mid', e') =
      spread-ends 0 (unit_id 0) (unit_id (1 + length requests)) (ids checks) mid (omega arith) in
    (
      mid',
      ap (λ added. s.pending ++ added)
          (ap (λ reals. spread 0 (ids checks) (unit_id 0 ∷ reals)) e ∙ e'),
    )

-- A batch adds to the queue the units of its requests in the order of submission, and each of its
-- canaries once, in between.
pub create_batch-order :
    (now batch_id : ℕ) (unit_id : ℕ → ℕ) (model : Option String) (requests : List Request)
    (s : BatchStore)
    → let (batch, s') = create_batch now batch_id unit_id model requests s in
      (added : List ℕ) × (s'.pending ≡ s.pending ++ added)
      × Sublistᴰ batch.unit_ids added
      × ((k : ℕ)
          → contains k added ≡ (contains k batch.canary_unit_ids || contains k batch.unit_ids))
      × (length added ≡ length batch.canary_unit_ids + length batch.unit_ids)
unfolding create_batch
create_batch-order now batch_id unit_id model requests s =
    let real = request_units now batch_id unit_id model 0 requests in
    let checks =
      canary_units now batch_id unit_id model (length requests)
        (plant (length requests) s.verifier) in
    (
      spread 0 (ids checks) (ids real),
      refl,
      spread-sublist 0 (ids checks) (ids real),
      (λ k. contains-spread k 0 (ids checks) (ids real)),
      length-spread 0 (ids checks) (ids real),
    )
