-- ===== src/Batch/Tests/Answers.antt =====
-- What the methods of the store answer, at a store that a concrete history reaches.
use fleet_lm.Base.{
  ℕ, List, Distinct, length, ◌≤◌, ◌<◌, All, ◌+◌, truthy, none, some, ◌≡◌, refl, [], ◌∷◌, map,
  lookup, filter, arith,
}
use fleet_lm.Config.{default_settings}
use fleet_lm.Verification.{Canary, new_verifier, select}
use fleet_lm.Batch.Data.{WorkUnit, BatchStore, result_record, new_store}
use fleet_lm.Batch.Submit.{ids, create_batch}
use fleet_lm.Batch.Lease.{lease, serves, lease_unit}
use mathlib.Core.List.{Sublistᴰ}
use fleet_lm.Batch.Leasing.Handed.{IsHanded, lease-IsHanded}
use fleet_lm.Batch.Leasing.Exhaust.{lease_exhausts}
use fleet_lm.Batch.Leasing.Fifo.{awaits, firsts, take_first, lease_fifo}
use fleet_lm.Batch.Status.{Counts, counts, results}
use fleet_lm.Batch.Totals.{IsTrue, counts-IsTrue}
use fleet_lm.Batch.Answered.{AnsweredFrom, results_answer_requests}
use fleet_lm.Batch.History.{Call, leases, completes, releases, run}
use fleet_lm.Batch.Tests.{
  lib, ask, answer, returned_unit, reached, open_batch, first_allowed, reached_returned,
  reached_batch, reached-IsValid, program,
}

lease-IsHanded_example :
    let (out, s') = lease default_settings 10 8 (some "llama3.2") 3 reached in
    (length out ≤ 3)
    × Distinct (ids out)
    × All (IsHanded default_settings 10 8 (some "llama3.2")) out
    × All (λ u. lookup u.id s'.units ≡ some u) out
lease-IsHanded_example =
    lease-IsHanded default_settings 10 8 (some "llama3.2") 3 reached reached-IsValid

lease_short : length (lease default_settings 10 8 (some "llama3.2") 3 reached).0 < 3
unfolding program
lease_short = omega arith

lease_exhausts_example :
    lookup 11 (lease default_settings 10 8 (some "llama3.2") 3 reached).1.units
    ≡ some (lease_unit default_settings 10 8 (some "llama3.2") returned_unit)
unfolding serves truthy
lease_exhausts_example =
    lease_exhausts default_settings 10 8 (some "llama3.2") 3 reached 11 returned_unit
      reached-IsValid reached_returned refl refl lease_short

lease_fifo_example :
    let (out, s') = lease default_settings 10 8 none 1 reached in
    let waiting =
      filter (λ k. awaits none reached.batches (lookup k reached.units)) (firsts reached.pending) in
    (ids out ≡ take_first 1 waiting) × Sublistᴰ s'.pending reached.pending
lease_fifo_example = lease_fifo default_settings 10 8 none 1 reached reached-IsValid

abbrev checking : BatchStore
checking = new_store none (
    some (
      new_verifier
        (let c : Canary = record { prompt = "sky"; expected = "blue"; model = none } in c ∷ [])
        20_000 850_000))

-- One canary among three units.
checking_queue :
    (create_batch 5 1 (λ i. i + 10) none (ask "a" ∷ ask "b" ∷ ask "c" ∷ []) checking).1.pending
    ≡ 10 ∷ 13 ∷ 11 ∷ 12 ∷ []
unfolding program new_verifier select
checking_queue = refl

counts-IsTrue_example : (c : Counts) × (counts 1 reached ≡ some c) × IsTrue open_batch c
counts-IsTrue_example = counts-IsTrue 1 open_batch reached reached-IsValid reached_batch

abbrev later_calls : List (ℕ × Call)
later_calls =
    (6, leases 7 none 1)
    ∷ (7, completes 7 (answer 10))
    ∷ (8, leases 7 none 1)
    ∷ (9, releases 7)
    ∷ []

results_answer_requests_example :
    (us : List WorkUnit) × (results 1 reached ≡ map result_record us)
    × AnsweredFrom 1 (λ i. i + 10) reached.units 0 (ask "a color" ∷ ask "a fruit" ∷ []) us
unfolding run
results_answer_requests_example =
    results_answer_requests lib default_settings none none [] later_calls 5 1 (λ i. i + 10) none
      (ask "a color" ∷ ask "a fruit" ∷ []) tt first_allowed.0 first_allowed.1
