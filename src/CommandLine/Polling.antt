-- ===== src/CommandLine/Polling.antt =====
-- When `cmd_batch` gives up on a batch.
use fleet_lm.Base.{
  ℕ, zero, suc, ◌+◌, ◌≤◌, Bool, true, false, ◌||◌, Option, none, some, ◌≡◌, ◌≢◌, refl, List, [],
  ◌∷◌, arith, leb, Bool-cases, inl, inr, if◌then◌else◌,
}
use fleet_lm.Batch.Data.{is_in_progress}
use fleet_lm.Server.Batches.{BatchStatus}
use fleet_lm.CommandLine.Submit.{
  Poll, answered, dropped, garbled, interrupted, Polled, finished, gave_up, while_in_progress,
  poll_loop, poll_batch,
}

-- Whether there are so many failures in a row at the head.
unfoldable pub drops_first : ℕ → List Poll → Bool
drops_first zero polls = true
drops_first (suc n) [] = false
drops_first (suc n) (dropped ∷ polls) = drops_first n polls
drops_first (suc n) (answered status ∷ polls) = false
drops_first (suc n) (interrupted ∷ polls) = false
drops_first (suc n) (garbled ∷ polls) = false

-- Whether five failures in a row stand anywhere.
unfoldable pub five_in_row : List Poll → Bool
five_in_row [] = false
five_in_row (p ∷ polls) = drops_first 5 (p ∷ polls) || five_in_row polls

unfoldable pub is_interrupted : List Poll → Bool
is_interrupted [] = false
is_interrupted (interrupted ∷ polls) = true
is_interrupted (dropped ∷ polls) = is_interrupted polls
is_interrupted (answered status ∷ polls) = is_interrupted polls
is_interrupted (garbled ∷ polls) = is_interrupted polls

-- The first status answered that is not in progress, where no answer before it is no batch status.
unfoldable pub first_end : List Poll → Option BatchStatus
first_end [] = none
first_end (answered status ∷ polls) =
    let rest = first_end polls in if is_in_progress status.status then rest else some status
first_end (garbled ∷ polls) = none
first_end (_ ∷ polls) = first_end polls

no_five_first : (polls : List Poll) → five_in_row polls ≡ false → drops_first 5 polls ≡ false
unfolding five_in_row drops_first
no_five_first [] h = refl
no_five_first (p ∷ polls) h = ground arith

no_five_later :
    (p : Poll) (polls : List Poll) → five_in_row (p ∷ polls) ≡ false → five_in_row polls ≡ false
unfolding five_in_row
no_five_later p polls h = ground arith

-- One failure more is not the fifth.
drops_left :
    (failures k : ℕ) (polls : List Poll)
    → failures + suc k ≡ 5
    → drops_first (suc k) (dropped ∷ polls) ≡ false
    → (leb 5 (failures + 1) ≡ false) × (1 ≤ k) × (drops_first k polls ≡ false)
unfolding drops_first
drops_left failures zero polls e h = cc
drops_left failures (suc k) polls e h = (ground arith, omega arith, h)

while_in_progress-gave_up :
    (status : BatchStatus) (next : Polled)
    → next ≢ gave_up
    → while_in_progress status next ≢ gave_up
unfolding while_in_progress
while_in_progress-gave_up status next h = elim (Bool-cases (is_in_progress status.status)) [
  | inl e ↦ rw e h
  | inr e ↦ rw e (λ q. cc)
]

poll_loop-goes_on :
    (failures k : ℕ) (status : BatchStatus) (polls : List Poll)
    → failures + suc k ≡ 5
    → drops_first (suc k) polls ≡ false
    → five_in_row polls ≡ false
    → poll_loop failures status polls ≢ gave_up
unfolding poll_loop
poll_loop-goes_on failures k status [] e d h = λ q. cc
poll_loop-goes_on failures k status (interrupted ∷ polls) e d h = λ q. cc
poll_loop-goes_on failures k status (garbled ∷ polls) e d h = λ q. cc
poll_loop-goes_on failures k status (answered status' ∷ polls) e d h =
    let later = no_five_later (answered status') polls h in
    while_in_progress-gave_up status' _
      (poll_loop-goes_on 0 4 status' polls refl (no_five_first polls later) later)
poll_loop-goes_on failures zero status (dropped ∷ polls) e d h = unfold drops_first in cc
poll_loop-goes_on failures (suc k) status (dropped ∷ polls) e d h =
    let (more, some_left, rest) = drops_left failures (suc k) polls e d in
    rw more (
      poll_loop-goes_on (failures + 1) k status polls (omega arith) rest
        (no_five_later dropped polls h))

poll_loop-first_end :
    (failures k : ℕ) (status st : BatchStatus) (polls : List Poll)
    → failures + suc k ≡ 5
    → drops_first (suc k) polls ≡ false
    → five_in_row polls ≡ false
    → is_interrupted polls ≡ false
    → first_end polls ≡ some st
    → poll_loop failures status polls ≡ finished st
unfolding poll_loop first_end is_interrupted while_in_progress
poll_loop-first_end failures k status st [] e d h i f = cc
poll_loop-first_end failures k status st (interrupted ∷ polls) e d h i f = cc
poll_loop-first_end failures k status st (garbled ∷ polls) e d h i f = cc
poll_loop-first_end failures k status st (answered status' ∷ polls) e d h i f =
    let later = no_five_later (answered status') polls h in
    let rest = poll_loop-first_end 0 4 status' st polls refl (no_five_first polls later) later i in
    ground (arith, rest)
poll_loop-first_end failures zero status st (dropped ∷ polls) e d h i f = unfold drops_first in cc
poll_loop-first_end failures (suc k) status st (dropped ∷ polls) e d h i f =
    let (more, some_left, rest) = drops_left failures (suc k) polls e d in
    rw more (
      poll_loop-first_end (failures + 1) k status st polls (omega arith) rest
        (no_five_later dropped polls h) i f)

-- A long batch survives HTTP errors: as long as no five polls in a row fail with one, the command
-- does not give up on a batch in progress; and when the user does not interrupt it and some poll is
-- answered with a batch that is no longer in progress, with no answer before it that is no batch
-- status, it ends with the first such answer.
pub poll_batch-survives :
    (status : BatchStatus) (polls : List Poll)
    → is_in_progress status.status ≡ true
    → five_in_row polls ≡ false
    → (poll_batch status polls ≢ gave_up)
      × ((st : BatchStatus)
          → is_interrupted polls ≡ false
          → first_end polls ≡ some st
          → poll_batch status polls ≡ finished st)
unfolding poll_batch
poll_batch-survives status polls p h =
    let d = no_five_first polls h in
    (
      while_in_progress-gave_up status _ (poll_loop-goes_on 0 4 status polls refl d h),
      λ st i f.
          unfold while_in_progress in rw p (poll_loop-first_end 0 4 status st polls refl d h i f),
    )
