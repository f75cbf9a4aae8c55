-- ===== src/Batch/Results.antt =====
-- What `results` and `usage` give a client: the order of the lines, and the sums over them.
use fleet_lm.Base.{
  ℕ, suc, ◌+◌, some, ◌≡◌, refl, ◌∙◌, ap, List, [], ◌∷◌, map, Dict, lookup, inl, inr, leb,
  Bool-cases, sort_by, insert_sorted, arith,
}
use fleet_lm.Batch.Data.{
  outcome_of, WorkUnit, Batch, BatchStore, UnitState, Outcome, response, error, ResultRecord,
  result_record, leased, complete, failed, pending,
}
use fleet_lm.Batch.Status.{known_units, results, Usage, add_usage, sum_usage, usage}

pub known_units-on :
    (uid : ℕ) (uids : List ℕ) (units : Dict WorkUnit) (u : WorkUnit)
    → lookup uid units ≡ some u
    → known_units (uid ∷ uids) units ≡ u ∷ known_units uids units
unfolding known_units
known_units-on uid uids units u e = rw (e, known_units)

-- Sorting a list whose keys already count up leaves it alone.
abbrev pub CountsUp {ℓ} : {A : Type ℓ} → (A → ℕ) → ℕ → List A → Type 0
CountsUp key i [] = Unit {0}
CountsUp key i (x ∷ xs) = (key x ≡ i) × CountsUp key (suc i) xs

insert_sorted-least {ℓ} :
    {A : Type ℓ} (key : A → ℕ) (i : ℕ) (x : A) (xs : List A)
    → key x ≡ i
    → CountsUp key (suc i) xs
    → insert_sorted key x xs ≡ x ∷ xs
unfolding insert_sorted
insert_sorted-least key i x [] e h = refl
insert_sorted-least key i x (y ∷ ys) e h = ground arith

pub sort_by-CountsUp {ℓ} :
    {A : Type ℓ} (key : A → ℕ) (i : ℕ) (xs : List A) → CountsUp key i xs → sort_by key xs ≡ xs
unfolding sort_by
sort_by-CountsUp key i [] h = refl
sort_by-CountsUp key i (x ∷ xs) h =
    rw (sort_by-CountsUp key (suc i) xs h.1) (insert_sorted-least key i x xs h.0 h.1)

-- What a result line adds to the tokens used.
abbrev tokens_of : Outcome → ℕ × ℕ
tokens_of (response content p c total model) = (p, c)
tokens_of (error message) = (0, 0)

-- The sums over the result lines of a batch.
abbrev pub sums : List ResultRecord → ℕ × ℕ
sums [] = (0, 0)
sums (r ∷ rs) = let (p, c) = tokens_of r.outcome in let (ps, cs) = sums rs in (p + ps, c + cs)

abbrev plus : ℕ × ℕ → ℕ × ℕ → ℕ × ℕ
plus a b = (a.0 + b.0, a.1 + b.1)

abbrev unit_sums : List WorkUnit → ℕ × ℕ
unit_sums us = sums (map result_record us)

add_usage-tokens_of :
    (st : UnitState) (u : WorkUnit) (acc : ℕ × ℕ)
    → add_usage st u acc ≡ plus acc (tokens_of (outcome_of st u))
unfolding add_usage outcome_of
add_usage-tokens_of pending u acc = ground arith
add_usage-tokens_of leased u acc = ground arith
add_usage-tokens_of complete u acc = refl
add_usage-tokens_of failed u acc = ground arith

sum_usage-sums : (us : List WorkUnit) (acc : ℕ × ℕ) → sum_usage us acc ≡ plus acc (unit_sums us)
unfolding sum_usage result_record
sum_usage-sums [] acc = ground arith
sum_usage-sums (u ∷ us) acc =
    sum_usage-sums us (add_usage u.state u acc)
    ∙ rw (add_usage-tokens_of u.state u acc) (ground arith)

-- The sums do not depend on the order of the lines.
insert_sorted-sums :
    (key : WorkUnit → ℕ) (u : WorkUnit) (us : List WorkUnit)
    → unit_sums (insert_sorted key u us) ≡ unit_sums (u ∷ us)
unfolding insert_sorted
insert_sorted-sums key u [] = refl
insert_sorted-sums key u (w ∷ us) = elim (Bool-cases (leb (key u) (key w))) [
  | inl e ↦ rw (e, insert_sorted) refl
  | inr e ↦ rw (e, insert_sorted, insert_sorted-sums key u us) (ground arith)
]

sort_by-sums : (key : WorkUnit → ℕ) (us : List WorkUnit) → unit_sums (sort_by key us) ≡ unit_sums us
unfolding sort_by
sort_by-sums key [] = refl
sort_by-sums key (u ∷ us) =
    insert_sorted-sums key u (sort_by key us)
    ∙ ap (plus (tokens_of (result_record u).outcome)) (sort_by-sums key us)

-- The usage of a batch that a sum over its result lines gives.
unfoldable pub usage_of : List ResultRecord → Usage
usage_of rs = record {
  prompt_tokens = (sums rs).0;
  completion_tokens = (sums rs).1;
  total_tokens = (sums rs).0 + (sums rs).1;
}

-- The usage reported for a batch in the store, which is summed over its units, is the sum over the
-- result lines that the client gets: a failed unit adds nothing.
pub usage-results :
    (b : ℕ) (batch : Batch) (s : BatchStore)
    → lookup b s.batches ≡ some batch
    → usage b s ≡ some (usage_of (results b s))
unfolding usage usage_of results
usage-results b batch s q =
    let us = known_units batch.unit_ids s.units in
    let listed : results b s ≡ map result_record (sort_by (λ u. u.index) us) =
      rw (q, results) refl in
    rw (listed, sort_by-sums (λ u. u.index) us)
      (rw (q, usage, sum_usage-sums us (0, 0)) (ground arith))
