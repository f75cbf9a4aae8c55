-- ===== src/Session/Waiting.antt =====
-- orchestrator/session.py: `InferenceSession.stream` with its clock, for a client that takes each text
-- at once. The calls of the node's connection come with the times at which they arrive, in order; a
-- wait lasts until the queue holds an event, or for `min(remaining, settings.chunk_timeout_sec)`.
pub mod Rounds
use fleet_lm.Base.{
  ℕ, zero, suc, ◌+◌, ◌-◌, ◌≤◌, ◌<◌, min, max, String, Bool, true, false, Option, none, some, ◌≡◌,
  refl, inl, inr, List, [], ◌∷◌, arith, leb, length, length-append, if◌then◌else◌, Bool-cases,
}
use fleet_lm.Session.Data.{InferenceSession, Event, chunk, done, error, is_closed}
use fleet_lm.Session.Inference.{put, push_chunk, complete, fail}
use fleet_lm.Session.Stream.{
  NodeCall, pushes, completes, fails, apply, Pass, yields, ends, End, too_long, take_from,
  take_event,
}

abbrev pub Arrivals : Type 0
Arrivals = List (ℕ × NodeCall)

abbrev pub is_empty : List Event → Bool
is_empty [] = true
is_empty (e ∷ es) = false

-- What has arrived by now.
unfoldable pub due : ℕ → Arrivals → InferenceSession → InferenceSession × Arrivals
due now [] s = (s, [])
due now ((t, c) ∷ arrivals) s =
    let rest = due now arrivals (apply c s) in if leb t now then rest else (s, (t, c) ∷ arrivals)

-- When a wait ends, with the session then and the arrivals still to come.
pub record Woken : Type 0 where
  pub at : ℕ
  pub session : InferenceSession
  pub later : Arrivals

unfoldable pub wait_for : ℕ → ℕ → Arrivals → InferenceSession → Woken
wait_for until now [] s = record {
  at = if is_empty s.events then until else now;
  session = s;
  later = [];
}
wait_for until now ((t, c) ∷ arrivals) s =
    let rest = wait_for until (max now t) arrivals (apply c s) in
    if is_empty s.events
    then (if leb until t
        then record { at = until; session = s; later = (t, c) ∷ arrivals }
        else rest)
    else record { at = now; session = s; later = (t, c) ∷ arrivals }

pub record Clocked : Type 0 where
  pub texts : List String
  pub end : Option End
  pub at : ℕ
  pub session : InferenceSession

unfoldable pub resume_at : Pass → InferenceSession → ℕ → Clocked → Clocked
resume_at (yields text) s now rest = record rest { texts = text ∷ rest.texts }
resume_at (ends e) s now rest = record { texts = []; end = some e; at = now; session = s }

module _ (deadline patience : ℕ) where
  abbrev woken : ℕ → Arrivals → InferenceSession → Woken
  woken now arrivals s =
      let (s', later) = due now arrivals s in
      wait_for (now + min (deadline - now) patience) now later s'

  -- At most `fuel` passes of the loop.
  unfoldable pub clocked : ℕ → ℕ → Arrivals → InferenceSession → Clocked
  clocked zero now arrivals s = record { texts = []; end = none; at = now; session = s }
  clocked (suc fuel) now arrivals s =
      let w = woken now arrivals s in
      let (p, s') = take_event w.session in
      let rest = clocked fuel w.at w.later s' in
      if leb deadline now
      then record {
        texts = [];
        end = some too_long;
        at = now;
        session = fail "generation timed out" (due now arrivals s).0;
      }
      else resume_at p s' w.at rest

-- A call puts one event into the queue at most.
length-apply :
    (c : NodeCall) (s : InferenceSession) → length (apply c s).events ≤ length s.events + 1
unfolding apply push_chunk complete fail put
length-apply (pushes t) s = omega (arith, length-append s.events (chunk t ∷ []))
length-apply (completes f p c) s = omega (arith, length-append s.events (done ∷ []))
length-apply (fails m) s = elim (Bool-cases (is_closed s.state)) [
  | inl e ↦ rw e (omega arith)
  | inr e ↦ rw e (omega (arith, length-append s.events (error m ∷ [])))
]

-- The events in the queue and the calls to come.
abbrev size : InferenceSession → Arrivals → ℕ
size s arrivals = length s.events + length arrivals

size-due :
    (now : ℕ) (arrivals : Arrivals) (s : InferenceSession)
    → let (s', later) = due now arrivals s in size s' later ≤ size s arrivals
unfolding due
size-due now [] s = omega arith
size-due now ((t, c) ∷ arrivals) s = elim (Bool-cases (leb t now)) [
  | inl e ↦ rw (e, due) (omega (arith, size-due now arrivals (apply c s), length-apply c s))
  | inr e ↦ rw (e, due) (omega arith)
]

size-wait_for :
    (until now : ℕ) (arrivals : Arrivals) (s : InferenceSession)
    → let w = wait_for until now arrivals s in size w.session w.later ≤ size s arrivals
unfolding wait_for
size-wait_for until now [] s = omega arith
size-wait_for until now ((t, c) ∷ arrivals) s = elim (Bool-cases (is_empty s.events)) [
  | inr e ↦ rw (e, wait_for) (omega arith)
  | inl e ↦ elim (Bool-cases (leb until t)) [
    | inl l ↦ rw (e, l, wait_for) (omega arith)
    | inr l ↦
        rw (e, l, wait_for)
          (omega (arith, size-wait_for until (max now t) arrivals (apply c s), length-apply c s))
  ]
]

at-wait_for :
    (until now : ℕ) (arrivals : Arrivals) (s : InferenceSession)
    → now ≤ until
    → (wait_for until now arrivals s).at ≤ until
unfolding wait_for
at-wait_for until now [] s h = elim (Bool-cases (is_empty s.events)) [
  | inl e ↦ rw (e, wait_for) (omega arith)
  | inr e ↦ rw (e, wait_for) h
]
at-wait_for until now ((t, c) ∷ arrivals) s h = elim (Bool-cases (is_empty s.events)) [
  | inr e ↦ rw (e, wait_for) h
  | inl e ↦ elim (Bool-cases (leb until t)) [
    | inl l ↦ rw (e, l, wait_for) (omega arith)
    | inr l ↦
        rw (e, l, wait_for) (at-wait_for until (max now t) arrivals (apply c s) (ground arith))
  ]
]

module _ (deadline patience : ℕ) where
  -- It has ended, no later than this.
  abbrev pub EndsBy : ℕ → Clocked → Type 0
  EndsBy limit out = (e : End) × (out.end ≡ some e) × (out.at ≤ limit)

  resumed-EndsBy :
      (limit now : ℕ) (es : List Event) (s : InferenceSession) (rest : InferenceSession → Clocked)
      → now ≤ limit
      → ((s' : InferenceSession) → length s'.events < length es → EndsBy limit (rest s'))
      → let (p, s') = take_from es s in EndsBy limit (resume_at p s' now (rest s'))
  unfolding take_from resume_at
  resumed-EndsBy limit now [] s rest h more = (_, refl, h)
  resumed-EndsBy limit now (chunk t ∷ es) s rest h more =
      more (record s { events = es }) (omega arith)
  resumed-EndsBy limit now (done ∷ es) s rest h more = (_, refl, h)
  resumed-EndsBy limit now (error m ∷ es) s rest h more = (_, refl, h)

  -- A request does not wait for ever. Whatever calls of its node arrive, and when, its stream ends:
  -- with as many passes of its loop as there are events in the queue and calls to come, and one
  -- more, it has ended, and the clock has not passed the deadline then, if it had not at the start.
  pub clocked_ends :
      (fuel now : ℕ) (arrivals : Arrivals) (s : InferenceSession)
      → length s.events + length arrivals < fuel
      → EndsBy (max now deadline) (clocked deadline patience fuel now arrivals s)
  unfolding clocked take_event
  clocked_ends zero now arrivals s h = absurd (omega (arith, h))
  clocked_ends (suc fuel) now arrivals s h = elim (Bool-cases (leb deadline now)) [
    | inl late ↦ rw late (_, refl, omega arith)
    | inr early ↦
        let until = now + min (deadline - now) patience in
        let (s', later) = due now arrivals s in
        let w = wait_for until now later s' in
        let low = size-due now arrivals s in
        let lower = size-wait_for until now later s' in
        let woken_at : w.at ≤ deadline =
          ground (arith, at-wait_for until now later s' (omega arith)) in
        rw early (
          resumed-EndsBy (max now deadline) w.at w.session.events w.session
            (λ s''. clocked deadline patience fuel w.at w.later s'') (omega (arith, woken_at))
            λ s'' fewer.
              let (e, q, at) =
                clocked_ends fuel w.at w.later s'' (omega (arith, fewer, low, lower, h)) in
              (e, q, omega (arith, at, woken_at)))
  ]
