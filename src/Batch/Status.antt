-- ===== src/Batch/Status.antt =====
-- orchestrator/batch.py: `counts`, `results`, `usage`, `pending_count` and `summary`.
use fleet_lm.Base.{
  ℕ, ◌+◌, Option, none, some, List, [], ◌∷◌, map, length, Dict, lookup, values, count_if, sort_by,
}
use fleet_lm.Batch.Data.{
  WorkUnit, BatchStore, UnitState, ResultRecord, result_record, is_pending, is_in_progress,
}

-- The units of the identifiers that are in the store, in order.
unfoldable pub known_units : List ℕ → Dict WorkUnit → List WorkUnit
known_units [] units = []
known_units (uid ∷ uids) units =
    let rest = known_units uids units in elim (lookup uid units) [ none ↦ rest | some u ↦ u ∷ rest ]

pub record Tally : Type 0 where
  pub completed : ℕ
  pub failed : ℕ
  pub in_flight : ℕ
  pub pending : ℕ

abbrev pub no_units : Tally
no_units = record { completed = 0; failed = 0; in_flight = 0; pending = 0 }

unfoldable pub bump : UnitState → Tally → Tally
bump UnitState.pending t = record t { pending = t.pending + 1 }
bump UnitState.leased t = record t { in_flight = t.in_flight + 1 }
bump UnitState.complete t = record t { completed = t.completed + 1 }
bump UnitState.failed t = record t { failed = t.failed + 1 }

unfoldable pub tally : List WorkUnit → Tally → Tally
unfolding bump
tally [] t = t
tally (u ∷ us) t = tally us (bump u.state t)

pub record Counts : Type 0 where
  pub total : ℕ
  pub tally : Tally

-- `none` is the empty dict of an unknown batch.
unfoldable pub counts : ℕ → BatchStore → Option Counts
counts batch_id s = elim (lookup batch_id s.batches) [
  | none ↦ none
  | some b ↦ some (record {
    total = length b.unit_ids;
    tally = tally (known_units b.unit_ids s.units) no_units;
  })
]

unfoldable pub results : ℕ → BatchStore → List ResultRecord
results batch_id s = elim (lookup batch_id s.batches) [
  | none ↦ []
  | some b ↦ map result_record (sort_by (λ u. u.index) (known_units b.unit_ids s.units))
]

pub record Usage : Type 0 where
  pub prompt_tokens : ℕ
  pub completion_tokens : ℕ
  pub total_tokens : ℕ

unfoldable pub add_usage : UnitState → WorkUnit → ℕ × ℕ → ℕ × ℕ
add_usage UnitState.complete u (p, c) = (p + u.prompt_tokens, c + u.completion_tokens)
add_usage _ u acc = acc

unfoldable pub sum_usage : List WorkUnit → ℕ × ℕ → ℕ × ℕ
unfolding add_usage
sum_usage [] acc = acc
sum_usage (u ∷ us) acc = sum_usage us (add_usage u.state u acc)

unfoldable pub usage : ℕ → BatchStore → Option Usage
usage batch_id s = elim (lookup batch_id s.batches) [
  | none ↦ none
  | some b ↦
      let (p, c) = sum_usage (known_units b.unit_ids s.units) (0, 0) in
      some (record { prompt_tokens = p; completion_tokens = c; total_tokens = p + c })
]

unfoldable pub pending_count : BatchStore → ℕ
pending_count s = count_if (λ u. is_pending u.state) (values s.units)

pub record StoreSummary : Type 0 where
  pub batches : ℕ
  pub in_progress : ℕ
  pub pending_units : ℕ

unfoldable pub summary : BatchStore → StoreSummary
unfolding pending_count
summary s = record {
  batches = length s.batches;
  in_progress = count_if (λ b. is_in_progress b.state) (values s.batches);
  pending_units = pending_count s;
}
