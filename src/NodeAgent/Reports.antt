-- ===== src/NodeAgent/Reports.antt =====
-- What a node reports of a batch.
use fleet_lm.Base.{
  ℕ, String, ◌≡◌, refl, ap, List, [], ◌∷◌, map, ◌==◌, Bool-cases, inl, inr, arith, length, truthy,
}
use fleet_lm.Batch.Data.{Payload}
use fleet_lm.Engine.{BatchOutput}
use fleet_lm.NodeAgent.{
  Sent, model_loaded, work_request, work_result, work_failed, Decoded, beat, streams, load_error,
  raised, outputs, report_unit, report_units, fail_units, messages_for,
}

-- The units that messages report on.
unfoldable pub reported : List Sent → List ℕ
reported [] = []
reported (work_result unit_id text prompt completion model ∷ ms) = unit_id ∷ reported ms
reported (work_failed unit_id message ∷ ms) = unit_id ∷ reported ms
reported (work_request capacity ∷ ms) = reported ms
reported (model_loaded ∷ ms) = reported ms
reported (beat active ∷ ms) = reported ms
reported (load_error message ∷ ms) = reported ms
reported (streams m ∷ ms) = reported ms

abbrev pub unit_ids : List Payload → List ℕ
unit_ids us = map (λ u. u.unit_id) us

reported-cons :
    (model : String) (u : Payload) (o : BatchOutput) (ms : List Sent)
    → reported (report_unit model u o ∷ ms) ≡ u.unit_id ∷ reported ms
unfolding report_unit reported
reported-cons model u o ms = elim (Bool-cases (truthy o.error)) [
  | inl e ↦ rw (e, report_unit) refl
  | inr e ↦ rw (e, report_unit) refl
]

reported-report_units :
    (model : String) (us : List Payload) (outs : List BatchOutput)
    → length outs ≡ length us
    → reported (report_units model us outs) ≡ unit_ids us
unfolding reported report_units
reported-report_units model [] outs h = refl
reported-report_units model (u ∷ us) [] h = ground arith
reported-report_units model (u ∷ us) (o ∷ outs) h = ground (
  arith,
  reported-cons model u o (report_units model us outs),
  reported-report_units model us outs (omega arith),
)

reported-fail_units :
    (message : String) (us : List Payload) → reported (fail_units message us) ≡ unit_ids us
unfolding reported fail_units
reported-fail_units message [] = refl
reported-fail_units message (u ∷ us) = ap (λ ids. u.unit_id ∷ ids) (reported-fail_units message us)

-- A node answers for every unit of a batch once and in order, whether its engine raises, returns an
-- output for each, some of them errors, or returns a wrong number of outputs.
pub reported-messages_for :
    (model : String) (us : List Payload) (d : Decoded)
    → reported (messages_for model us d) ≡ unit_ids us
unfolding messages_for
reported-messages_for model us (raised message) = reported-fail_units message us
reported-messages_for model us (outputs engine_model outs) =
    elim (Bool-cases (length outs == length us)) [
      | inl e ↦ rw (e, messages_for) (reported-report_units _ us outs (ground arith))
      | inr e ↦ rw (e, messages_for) (reported-fail_units _ us)
    ]
