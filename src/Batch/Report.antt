-- ===== src/Batch/Report.antt =====
-- orchestrator/batch.py: `complete`, `fail` and `_maybe_finish_batch`.
use mathlib.Core.Option
use fleet_lm.Base.{
  ℕ, ◌-◌, String, Bool, false, not, ◌||◌, Option, none, some, List, [], ◌∷◌, ◌++◌, map, leb, ◌==◌,
  if◌then◌else◌, join, Dict, lookup, modify,
}
use fleet_lm.Config.{Settings}
use fleet_lm.Metrics.{FleetMetrics, batch_completed, unit_completed, unit_failed}
use fleet_lm.Verification.{Primitives, Verifier, check, note_replay}
use fleet_lm.Batch.Data.{
  WorkUnit, Batch, BatchStore, UnitState, BatchState, is_open, is_in_progress, requeued,
}

unfoldable pub open_unit : Option WorkUnit → Bool
open_unit none = false
open_unit (some u) = is_open u.state

-- Whether a unit of the list is pending or leased.
unfoldable pub any_open : List ℕ → Dict WorkUnit → Bool
unfolding open_unit
any_open [] units = false
any_open (uid ∷ uids) units = open_unit (lookup uid units) || any_open uids units

unfoldable pub finish : ℕ → Batch → Batch
finish now b = record b { state = BatchState.completed; completed_at = some now }

unfoldable pub maybe_finish_batch : ℕ → ℕ → BatchStore → BatchStore
maybe_finish_batch now batch_id s = elim (lookup batch_id s.batches) [
  | none ↦ s
  | some b ↦
      if not (is_in_progress b.state)
      then s
      else if any_open b.unit_ids s.units
      then s
      else record s {
        batches = modify batch_id (finish now) s.batches;
        metrics = Option.map batch_completed s.metrics;
      }
]

-- What a node sends with a result.
pub record NodeResult : Type 0 where
  pub unit_id : ℕ
  pub text : String
  pub prompt_tokens : ℕ
  pub completion_tokens : ℕ
  pub generation_sec : ℕ
  pub served_by : Option String

unfoldable pub record_result : ℕ → NodeResult → WorkUnit → WorkUnit
record_result node_id r u = record u {
  state = UnitState.complete;
  result_text = some r.text;
  prompt_tokens = r.prompt_tokens;
  completion_tokens = r.completion_tokens;
  node_id = some node_id;
  served_by = r.served_by;
  lease_expires_at = 0;
}

prompt_of : WorkUnit → String
prompt_of u = join (map (λ m. m.content) u.messages)

-- `max(0.0, a - b) if leased_at else 0.0`
elapsed : ℕ → ℕ → ℕ → ℕ
elapsed leased_at a b = if leased_at == 0 then 0 else a - b

count_result : ℕ → ℕ → NodeResult → WorkUnit → FleetMetrics → FleetMetrics
unfolding elapsed
count_result now node_id r u =
    unit_completed node_id r.prompt_tokens r.completion_tokens r.generation_sec
      (elapsed u.leased_at u.leased_at u.created_at) (elapsed u.leased_at now u.leased_at)
      (u.attempts - 1)

judge_result : Primitives → ℕ → NodeResult → WorkUnit → Verifier → Verifier
judge_result lib node_id r u v =
    (note_replay lib r.unit_id node_id r.text (prompt_of u)
      (check lib r.unit_id node_id r.text v).1).1

unfoldable pub complete : Primitives → ℕ → ℕ → NodeResult → BatchStore → BatchStore
unfolding count_result judge_result prompt_of
complete lib now node_id r s = elim (lookup r.unit_id s.units) [
  | none ↦ s
  | some u ↦
      let s' =
        maybe_finish_batch now u.batch_id
          (record s { units = modify r.unit_id (record_result node_id r) s.units }) in
      if not (is_open u.state) then s else record s' {
        verifier = Option.map (judge_result lib node_id r u) s'.verifier;
        metrics = Option.map (count_result now node_id r u) s'.metrics;
      }
]

unfoldable pub dead_letter : String → WorkUnit → WorkUnit
dead_letter message u = record u { error = some message; state = UnitState.failed }

unfoldable pub retry : String → WorkUnit → WorkUnit
unfolding requeued
retry message u = requeued (record u { error = some message })

unfoldable pub fail : Settings → ℕ → ℕ → ℕ → String → BatchStore → BatchStore
fail settings now node_id unit_id message s = elim (lookup unit_id s.units) [
  | none ↦ s
  | some u ↦
      let s' =
        maybe_finish_batch now u.batch_id
          (record s { units = modify unit_id (dead_letter message) s.units }) in
      if not (is_open u.state)
      then s
      else if leb settings.max_unit_attempts u.attempts
      then record s' { metrics = Option.map (unit_failed node_id) s'.metrics }
      else record s {
        units = modify unit_id (retry message) s.units;
        pending = s.pending ++ u.id ∷ [];
      }
]
