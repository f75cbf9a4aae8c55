-- ===== src/Batch/Submit.antt =====
-- orchestrator/batch.py: `create_batch` and `_plant`. The identifiers that `uuid4` draws are
-- arguments: one for the batch, and `unit_id i` for the i-th unit.
use mathlib.Core.Option
use fleet_lm.Base.{
  ℕ, suc, ◌+◌, ◌*◌, ◌/◌, min, max, String, Option, none, some, List, [], ◌∷◌, ◌++◌, map, length,
  insert_at, or_else, Dict, insert,
}
use fleet_lm.Metrics.{batch_created}
use fleet_lm.Verification.{Verifier, Canary, select, register}
use fleet_lm.Batch.Data.{Request, Message, WorkUnit, Batch, BatchStore, UnitState, BatchState}

abbrev pub ids : List WorkUnit → List ℕ
ids = map (λ u. u.id)

-- `self.units[unit.id] = unit`, for each unit.
unfoldable pub insert_units : List WorkUnit → Dict WorkUnit → Dict WorkUnit
insert_units [] d = d
insert_units (u ∷ us) d = insert_units us (insert u.id u d)

-- `self.verifier.register(unit.id, canary)`, for each canary.
unfoldable pub register_all : List WorkUnit → List Canary → Verifier → Verifier
register_all (u ∷ us) (c ∷ cs) v = register_all us cs (register u.id c v)
register_all _ _ v = v

-- Where the canary with this offset goes in a queue of `n` units.
unfoldable pub place : ℕ → ℕ → ℕ
place offset n = min n (max 1 (n / (suc offset + 1)) * (offset + 1))

unfoldable pub spread : ℕ → List ℕ → List ℕ → List ℕ
spread offset [] queued = queued
spread offset (uid ∷ uids) queued =
    spread (suc offset) uids (insert_at (place offset (length queued)) uid queued)

unfoldable pub plant : ℕ → Option Verifier → List Canary
plant batch_size none = []
plant batch_size (some v) = select batch_size v

module _ (now : ℕ) (batch_id : ℕ) (unit_id : ℕ → ℕ) (model : Option String) where
  new_unit : ℕ → Request → WorkUnit
  new_unit i req = record {
    id = unit_id i;
    batch_id = batch_id;
    index = i;
    messages = req.messages;
    model = or_else req.model model;
    max_tokens = req.max_tokens;
    temperature = req.temperature;
    state = UnitState.pending;
    attempts = 0;
    node_id = none;
    lease_expires_at = 0;
    created_at = now;
    leased_at = 0;
    result_text = none;
    error = none;
    prompt_tokens = 0;
    completion_tokens = 0;
    served_by = none;
  }

  -- The units of a list of requests, the first with index `i`.
  unfoldable pub request_units : ℕ → List Request → List WorkUnit
  unfolding new_unit
  request_units i [] = []
  request_units i (req ∷ reqs) = new_unit i req ∷ request_units (suc i) reqs

  -- `as_request` with the constants that `create_batch` puts beside it.
  as_request : Canary → Request
  as_request c = record {
    messages = (let m : Message = record { role = "user"; content = c.prompt } in m ∷ []);
    model = c.model;
    max_tokens = 256;
    temperature = 0;
  }

  unfoldable pub canary_units : ℕ → List Canary → List WorkUnit
  unfolding new_unit as_request
  canary_units i [] = []
  canary_units i (c ∷ cs) = new_unit i (as_request c) ∷ canary_units (suc i) cs

  unfoldable pub create_batch : List Request → BatchStore → Batch × BatchStore
  create_batch requests s =
      let canaries = plant (length requests) s.verifier in
      let real = request_units 0 requests in
      let checks = canary_units (length requests) canaries in
      let batch : Batch = record {
        id = batch_id;
        model = model;
        created_at = now;
        state = BatchState.in_progress;
        unit_ids = ids real;
        completed_at = none;
        canary_unit_ids = ids checks;
      } in
      (
        batch,
        record s {
          units = insert_units checks (insert_units real s.units);
          pending = s.pending ++ spread 0 (ids checks) (ids real);
          batches = insert batch_id batch s.batches;
          metrics = Option.map batch_created s.metrics;
          verifier = Option.map (register_all checks canaries) s.verifier;
        },
      )
