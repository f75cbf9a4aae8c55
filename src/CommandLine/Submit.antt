-- ===== src/CommandLine/Submit.antt =====
-- node_agent/cli.py: `cmd_batch` and `_progress`. What the orchestrator answers, poll by poll, is an
-- argument; so is the moment at which the user interrupts.
use fleet_lm.Base.{
  ℕ, ◌+◌, ◌-◌, ◌*◌, ◌/◌, String, Option, none, some, List, [], ◌∷◌, ltb, leb, ◌==◌, if◌then◌else◌,
}
use fleet_lm.Batch.Data.{is_in_progress}
use fleet_lm.Batch.Status.{Counts}
use fleet_lm.Engine.{Attempt, raises, gives}
use fleet_lm.Server.Batches.{BatchStatus}
use fleet_lm.CommandLine.Requests.{Item}

-- What a poll brings: a status, an `httpx.HTTPError`, a body that is no batch status (an error page,
-- say: the code does not look at the status code), or the user's interrupt.
pub data Poll : Type 0 where
  answered : BatchStatus → Poll
  dropped : Poll
  garbled : Poll
  interrupted : Poll

-- How the polling loop ends: `crashed` is an exception that `cmd_batch` does not catch; `waiting` is a loop that has not ended with these polls.
pub data Polled : Type 0 where
  finished : BatchStatus → Polled
  gave_up : Polled
  stopped : Polled
  crashed : Polled
  waiting : BatchStatus → ℕ → Polled

-- The head of the loop for a status, with what it does next.
unfoldable pub while_in_progress : BatchStatus → Polled → Polled
while_in_progress status next = if is_in_progress status.status then next else finished status

-- The loop from its body on, after so many failures in a row.
unfoldable pub poll_loop : ℕ → BatchStatus → List Poll → Polled
poll_loop failures status [] = waiting status failures
poll_loop failures status (answered status' ∷ polls) =
    while_in_progress status' (poll_loop 0 status' polls)
poll_loop failures status (dropped ∷ polls) =
    let rest = poll_loop (failures + 1) status polls in
    if leb 5 (failures + 1) then gave_up else rest
poll_loop failures status (garbled ∷ polls) = crashed
poll_loop failures status (interrupted ∷ polls) = stopped

unfoldable pub poll_batch : BatchStatus → List Poll → Polled
poll_batch status polls = while_in_progress status (poll_loop 0 status polls)

-- What the submission is answered with: a status code, and the batch where the code is 201.
pub data Submitted : Type 0 where
  created : BatchStatus → Submitted
  rejected : (code : ℕ) → Submitted

-- How the command ends.
pub data Outcome : Type 0 where
  nothing_to_submit : Outcome
  submit_failed : (code : ℕ) → Outcome
  unreachable : Outcome
  cancelled : Outcome
  still_waiting : Outcome
  raised : Outcome
  written : (status : BatchStatus) (body : String) → Outcome

-- `client.get(results).text`
write_results : BatchStatus → Attempt String → Outcome
write_results status (raises message) = unreachable
write_results status (gives body) = written status body

unfoldable pub after_polls : Polled → Attempt String → Outcome
unfolding write_results
after_polls (finished status) results = write_results status results
after_polls gave_up results = unreachable
after_polls stopped results = cancelled
after_polls crashed results = raised
after_polls (waiting status failures) results = still_waiting

unfoldable pub after_submit : Attempt Submitted → List Poll → Attempt String → Outcome
after_submit (raises message) polls results = unreachable
after_submit (gives (rejected code)) polls results = submit_failed code
after_submit (gives (created status)) polls results = after_polls (poll_batch status polls) results

unfoldable pub cmd_batch : List Item → Attempt Submitted → List Poll → Attempt String → Outcome
cmd_batch [] submitted polls results = nothing_to_submit
cmd_batch (r ∷ rs) submitted polls results = after_submit submitted polls results

failed_units : Option Counts → ℕ
failed_units none = 0
failed_units (some c) = c.tally.failed

-- The exit code; a command that still waits has none, and neither has one that raises.
unfoldable pub exit_code : Outcome → Option ℕ
unfolding failed_units
exit_code nothing_to_submit = some 1
exit_code (submit_failed code) = some 1
exit_code unreachable = some 1
exit_code cancelled = some 130
exit_code still_waiting = none
exit_code raised = none
exit_code (written status body) =
    if ltb 0 (failed_units status.request_counts) then some 1 else some 0

-- `_progress`: how many of the 24 places of the bar are filled, and the seconds that are left, where
-- a rate is known; `elapsed` is in microseconds.
unfoldable pub filled_of : ℕ → ℕ → ℕ
filled_of done total = if total == 0 then 0 else 24 * done / total

unfoldable pub eta_of : ℕ → ℕ → ℕ → Option ℕ
eta_of done total elapsed =
    if elapsed == 0
    then none
    else if done == 0
    then none
    else some ((total - done) * elapsed / (done * 1_000_000))
