-- ===== src/NodeAgent/Backlog.antt =====
-- How many leased units a node holds at most.
use fleet_lm.Base.{
  ℕ, zero, suc, ◌+◌, ◌-◌, ◌≤◌, max, Bool, true, false, not, ◌||◌, ◌≡◌, refl, ap, List, [], ◌∷◌,
  ◌++◌, ◌==◌, if◌then◌else◌, Bool-cases, inl, inr, arith, length, length-append, drop,
}
use fleet_lm.Batch.Data.{Payload}
use fleet_lm.Server.Messages.{NodeMessage}
use fleet_lm.NodeAgent.{
  NodeAgent, Sent, model_loaded, work_request, put, heartbeat, begin_generation, emit,
  end_generation, beat, streams, request_work, load_model, load_model_when, take_assignment,
  first_units, start_batch_from, start_batch, Decoded, messages_for, end_batch, finish_batch,
  drain_work_queue, lose_connection, is_idle,
}
use fleet_lm.NodeAgent.Asking.{asks, last_asked, last_asked-append, last_asked-messages_for}

-- What is on its way to the node.
abbrev pub expected : NodeAgent → ℕ
expected a = if a.work_request_inflight then last_asked a.outbox 0 else 0

-- The backlog and what is on its way fit in one batch, and so does the batch under way; a batch is
-- one unit at least. The number of units in progress is that of the batch.
pub record IsBounded (a : NodeAgent) : Type 0 where
  pub backlog : length a.work_queue + expected a ≤ a.batch_size
  pub batch : length a.running ≤ max 1 a.batch_size
  pub counted : a.work_in_progress ≡ length a.running

-- A message that is no request changes nothing.
put-IsBounded :
    (m : Sent) (a : NodeAgent)
    → ((before : ℕ) → asks m before ≡ before)
    → IsBounded a
    → IsBounded (put m a)
unfolding put last_asked
put-IsBounded m a quiet b = record {
  backlog =
      ground
        (arith, last_asked-append a.outbox (m ∷ []) 0, quiet (last_asked a.outbox 0), b.backlog);
  batch = b.batch;
  counted = b.counted;
}

put_model_loaded-IsBounded : (a : NodeAgent) → IsBounded a → IsBounded (put model_loaded a)
unfolding asks
put_model_loaded-IsBounded a b = put-IsBounded model_loaded a (λ before. refl) b

request_work-IsBounded : (a : NodeAgent) → IsBounded a → IsBounded (request_work a)
unfolding request_work put asks last_asked
request_work-IsBounded a b =
    let room = a.batch_size - length a.work_queue in
    elim (Bool-cases (not a.is_loaded || a.work_request_inflight)) [
      | inl e ↦ rw e b
      | inr e ↦ elim (Bool-cases (room == 0)) [
        | inl z ↦ rw (e, z) b
        | inr z ↦
            let new : last_asked (a.outbox ++ work_request room ∷ []) 0 ≡ room =
              last_asked-append a.outbox (work_request room ∷ []) 0 in
            rw (e, z)
              (record {
                backlog = omega (arith, new, b.backlog);
                batch = b.batch;
                counted = b.counted;
              })
      ]
    ]

length-first_units : (n : ℕ) (us : List Payload) → length (first_units n us) ≤ n
unfolding first_units
length-first_units zero us = omega arith
length-first_units (suc n) [] = omega arith
length-first_units (suc n) (u ∷ us) = omega (arith, length-first_units n us)

length-drop : (n : ℕ) (us : List Payload) → length (drop n us) ≤ length us
length-drop zero us = omega arith
length-drop (suc n) [] = omega arith
length-drop (suc n) (u ∷ us) = omega (arith, length-drop n us)

idle-length : (us : List Payload) → is_idle us ≡ true → length us ≡ 0
idle-length [] h = refl
idle-length (u ∷ us) h = cc

start_batch_from-IsBounded :
    (us : List Payload) (a : NodeAgent)
    → IsBounded a
    → a.work_queue ≡ us
    → is_idle a.running ≡ true
    → IsBounded (start_batch_from us a)
unfolding start_batch_from
start_batch_from-IsBounded [] a b e i = b
start_batch_from-IsBounded (u ∷ us) a b e i = request_work-IsBounded _ (record {
  backlog = omega (arith, b.backlog, ap length e, length-drop (a.batch_size - 1) us);
  batch = omega (arith, length-first_units (a.batch_size - 1) us);
  counted = omega (arith, b.counted, idle-length a.running i);
})

start_batch-IsBounded : (a : NodeAgent) → IsBounded a → IsBounded (start_batch a)
unfolding start_batch
start_batch-IsBounded a b = elim (Bool-cases (is_idle a.running)) [
  | inl e ↦ rw e (start_batch_from-IsBounded a.work_queue a b refl e)
  | inr e ↦ rw e b
]

take_assignment-IsBounded :
    (units : List Payload) (a : NodeAgent)
    → IsBounded a
    → length units ≤ expected a
    → IsBounded (take_assignment units a)
unfolding take_assignment
take_assignment-IsBounded units a b small = record {
  backlog = omega (arith, b.backlog, length-append a.work_queue units);
  batch = b.batch;
  counted = b.counted;
}

end_batch-IsBounded :
    (a : NodeAgent)
    → length a.work_queue + expected a ≤ a.batch_size
    → a.work_in_progress ≡ length a.running
    → IsBounded (end_batch a)
unfolding end_batch
end_batch-IsBounded a b c =
    request_work-IsBounded _
      (record { backlog = b; batch = omega arith; counted = omega (arith, c) })

finish_batch-IsBounded : (d : Decoded) (a : NodeAgent) → IsBounded a → IsBounded (finish_batch d a)
unfolding finish_batch
finish_batch-IsBounded d a b = elim (Bool-cases (is_idle a.running)) [
  | inl e ↦ rw e b
  | inr e ↦ rw e (
      end_batch-IsBounded _
        (ground (
          arith,
          b.backlog,
          last_asked-append a.outbox (messages_for a.model_id a.running d) 0,
          last_asked-messages_for a.model_id a.running d (last_asked a.outbox 0),
        ))
        b.counted)
]

lose_connection-IsBounded : (a : NodeAgent) → IsBounded a → IsBounded (lose_connection a)
unfolding lose_connection drain_work_queue
lose_connection-IsBounded a b = elim (Bool-cases (is_idle a.running)) [
  | inl e ↦ rw e (record { backlog = omega arith; batch = b.batch; counted = b.counted })
  | inr e ↦ rw e (end_batch-IsBounded _ (omega arith) b.counted)
]

load_model-IsBounded :
    (loaded : Bool) (a : NodeAgent) → IsBounded a → IsBounded (load_model_when loaded a)
unfolding load_model_when
load_model-IsBounded true a b = put_model_loaded-IsBounded a b
load_model-IsBounded false a b =
    let now_loaded = record a { is_loaded = true } in
    request_work-IsBounded _ (
      put_model_loaded-IsBounded now_loaded
        (record { backlog = b.backlog; batch = b.batch; counted = b.counted }))

-- What happens to a node.
pub data Step : Type 0 where
  loads : Step
  is_assigned : (units : List Payload) → Step
  is_nudged : Step
  starts : Step
  finishes : (d : Decoded) → Step
  loses_connection : Step
  beats : Step
  begins_generation : Step
  emits : (m : NodeMessage) → Step
  ends_generation : Step

unfoldable pub step : Step → NodeAgent → NodeAgent
step loads a = load_model a
step (is_assigned units) a = take_assignment units a
step is_nudged a = request_work a
step starts a = start_batch a
step (finishes d) a = finish_batch d a
step loses_connection a = lose_connection a
step beats a = heartbeat a
step begins_generation a = begin_generation a
step (emits m) a = emit m a
step ends_generation a = end_generation a

unfoldable pub run : List Step → NodeAgent → NodeAgent
run [] a = a
run (s ∷ ss) a = run ss (step s a)

-- An assignment answers the request that is outstanding, with no more units than that has room for.
abbrev pub Allowed : Step → NodeAgent → Type 0
Allowed (is_assigned units) a = length units ≤ expected a
Allowed _ a = Unit {0}

abbrev pub AllAllowed : List Step → NodeAgent → Type 0
AllAllowed [] a = Unit {0}
AllAllowed (s ∷ ss) a = Allowed s a × AllAllowed ss (step s a)

step-IsBounded : (s : Step) (a : NodeAgent) → Allowed s a → IsBounded a → IsBounded (step s a)
unfolding step load_model heartbeat begin_generation emit end_generation asks
step-IsBounded loads a h b = load_model-IsBounded a.is_loaded a b
step-IsBounded (is_assigned units) a h b = take_assignment-IsBounded units a b h
step-IsBounded is_nudged a h b = request_work-IsBounded a b
step-IsBounded starts a h b = start_batch-IsBounded a b
step-IsBounded (finishes d) a h b = finish_batch-IsBounded d a b
step-IsBounded loses_connection a h b = lose_connection-IsBounded a b
step-IsBounded beats a h b =
    put-IsBounded (beat (a.active_sessions + a.work_in_progress)) a (λ before. refl) b
step-IsBounded begins_generation a h b = record {
  backlog = b.backlog;
  batch = b.batch;
  counted = b.counted;
}
step-IsBounded (emits m) a h b = put-IsBounded (streams m) a (λ before. refl) b
step-IsBounded ends_generation a h b = record {
  backlog = b.backlog;
  batch = b.batch;
  counted = b.counted;
}

-- As long as assignments answer the outstanding request with no more units than it has room for, a
-- node's backlog together with what is on its way never exceeds its batch size, however it is
-- nudged and whatever its engine does; the batch under way is as small, or of one unit.
pub run-IsBounded :
    (ss : List Step) (a : NodeAgent) → AllAllowed ss a → IsBounded a → IsBounded (run ss a)
unfolding run
run-IsBounded [] a h b = b
run-IsBounded (s ∷ ss) a h b = run-IsBounded ss (step s a) h.1 (step-IsBounded s a h.0 b)
