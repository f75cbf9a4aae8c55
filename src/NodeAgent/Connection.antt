-- ===== src/NodeAgent/Connection.antt =====
-- node_agent/__main__.py: `run`, the loop over the connections to the orchestrator. How each of them
-- ends is an argument, and so is what generations still do after it: `run` cancels only its own four
-- tasks, and the threads of `_generate` go on and put what they make into the new outbox.
use fleet_lm.Base.{
  ℕ, suc, concat, ◌+◌, String, Bool, true, false, Option, none, some, ◌≡◌, refl, sym, ◌⊎◌, inl, inr,
  ap, List, [], ◌∷◌, ◌++◌, ◌==◌, ◌||◌, not, arith, if◌then◌else◌, Bool-cases, length, All, ◌-◌, ◌∙◌,
}
use mathlib.Core.List.{append-nil, append_assoc}
use fleet_lm.Batch.Data.{Payload}
use fleet_lm.Server.Messages.{NodeMessage}
use fleet_lm.NodeAgent.{
  NodeAgent, Sent, work_request, load_error, streams, put, emit, begin_generation, end_generation,
  request_work, is_idle, end_batch, drain_work_queue,
}
use fleet_lm.NodeAgent.Backlog.{Step, run, AllAllowed, IsBounded, run-IsBounded}

-- How the message loop ends: the socket was closed in order, the engine raised while it loaded the
-- model, or the connection was lost, with the code of the close frame that was received, if any.
pub data Ended : Type 0 where
  in_order : Ended
  load_failed : (message : String) → Ended
  lost : (code : Option ℕ) → Ended

-- Whether `run` returns: on an invalid join token, and when the model does not load.
unfoldable pub is_final : Ended → Bool
is_final in_order = false
is_final (load_failed message) = true
is_final (lost none) = false
is_final (lost (some code)) = code == 4401

-- The seconds until the next connection.
unfoldable pub pause : Ended → ℕ
pause (lost code) = 5
pause _ = 0

-- What a generation does that outlives the connection over which it was asked for.
pub data Late : Type 0 where
  emits_late : (m : NodeMessage) → Late
  begins_late : Late
  ends_late : Late

unfoldable pub late_step : Late → NodeAgent → NodeAgent
late_step (emits_late m) a = emit m a
late_step begins_late a = begin_generation a
late_step ends_late a = end_generation a

unfoldable pub run_late : List Late → NodeAgent → NodeAgent
run_late [] a = a
run_late (l ∷ ls) a = run_late ls (late_step l a)

-- The work loop, cancelled: a batch under way ends without a report.
unfoldable pub stop_work : NodeAgent → NodeAgent
stop_work a = if is_idle a.running then a else end_batch a

-- A connection is lost before the node has registered, or serves for some steps. What generations do
-- until the next one follows: before the cancelled work loop has ended, and after.
pub data Connection : Type 0 where
  unregistered : (code : Option ℕ) (late : List Late) → Connection
  serves : (steps : List Step) (ended : Ended) (early late : List Late) → Connection

unfoldable pub end_of : Connection → Ended
end_of (unregistered code late) = lost code
end_of (serves steps ended early late) = ended

-- What a failure to load leaves in the outbox.
unfoldable pub put_load_error : Ended → NodeAgent → NodeAgent
put_load_error (load_failed message) a = put (load_error (concat "model load failed: " message)) a
put_load_error _ a = a

unfoldable pub connect : Connection → NodeAgent → NodeAgent
connect (unregistered code late) a = run_late late a
connect (serves steps ended early late) a =
    run_late late
      (stop_work (run_late early (drain_work_queue (put_load_error ended (run steps a)))))

-- The agent, the number of connections made, the seconds waited, and whether `run` has returned.
pub record NodeRun : Type 0 where
  pub agent : NodeAgent
  pub connections : ℕ
  pub waited : ℕ
  pub returned : Bool

unfoldable pub run_node : List Connection → NodeAgent → NodeRun
run_node [] a = record { agent = a; connections = 0; waited = 0; returned = false }
run_node (c ∷ cs) a =
    let a' = connect c a in
    let rest = run_node cs a' in
    if is_final (end_of c)
    then record { agent = a'; connections = 1; waited = 0; returned = true }
    else record rest { connections = suc rest.connections; waited = pause (end_of c) + rest.waited }

-- The seconds waited after connections none of which is final.
unfoldable pub pauses : List Connection → ℕ
pauses [] = 0
pauses (c ∷ cs) = pause (end_of c) + pauses cs

-- What late generations put into the outbox.
unfoldable pub late_messages : List Late → List Sent
late_messages [] = []
late_messages (emits_late m ∷ ls) = streams m ∷ late_messages ls
late_messages (_ ∷ ls) = late_messages ls

-- Nothing is left of a connection but a request for a batch of work, at most, and what generations
-- have put into the outbox before it and after it.
pub record IsFresh (early late : List Late) (a : NodeAgent) : Type 0 where
  pub backlog : a.work_queue ≡ []
  pub batch : a.running ≡ []
  pub idle : a.work_in_progress ≡ 0
  pub outbox :
      (a.outbox ≡ late_messages early ++ late_messages late)
      ⊎ (a.outbox ≡ late_messages early ++ work_request a.batch_size ∷ late_messages late)

requested-IsFresh :
    (early : List Late) (a : NodeAgent)
    → a.work_queue ≡ []
    → a.running ≡ []
    → a.work_in_progress ≡ 0
    → a.outbox ≡ late_messages early
    → IsFresh early [] (request_work a)
unfolding request_work put late_messages
requested-IsFresh early a q r w o =
    let unasked = o ∙ sym (append-nil (late_messages early)) in
    elim (Bool-cases (not a.is_loaded || a.work_request_inflight)) [
      | inl e ↦ rw e (record { backlog = q; batch = r; idle = w; outbox = inl unasked })
      | inr e ↦ elim (Bool-cases (a.batch_size - length a.work_queue == 0)) [
        | inl z ↦ rw (e, z) (record { backlog = q; batch = r; idle = w; outbox = inl unasked })
        | inr z ↦
            let full : a.batch_size - length a.work_queue ≡ a.batch_size =
              omega (arith, ap length q) in
            rw (e, z)
              (record {
                backlog = q;
                batch = r;
                idle = w;
                outbox = inr (
                    ap (λ ms. ms ++ work_request (a.batch_size - length a.work_queue) ∷ []) o
                    ∙ ap (λ k. late_messages early ++ work_request k ∷ []) full);
              })
      ]
    ]

is_idle-nil : (us : List Payload) → is_idle us ≡ true → us ≡ []
is_idle-nil [] h = refl
is_idle-nil (u ∷ us) h = cc

stop_work-IsFresh :
    (early : List Late) (a : NodeAgent)
    → a.work_queue ≡ []
    → a.work_in_progress ≡ length a.running
    → a.outbox ≡ late_messages early
    → IsFresh early [] (stop_work a)
unfolding stop_work end_batch late_messages
stop_work-IsFresh early a q counted o = elim (Bool-cases (is_idle a.running)) [
  | inl e ↦
      let none_left = is_idle-nil a.running e in
      rw e (record {
        backlog = q;
        batch = none_left;
        idle = counted ∙ ap length none_left;
        outbox = inl (o ∙ sym (append-nil (late_messages early)));
      })
  | inr e ↦ rw e (requested-IsFresh early _ q refl (omega (arith, counted)) o)
]

put_load_error-counted :
    (ended : Ended) (a : NodeAgent)
    → a.work_in_progress ≡ length a.running
    → let a' = put_load_error ended a in a'.work_in_progress ≡ length a'.running
unfolding put_load_error put
put_load_error-counted in_order a h = h
put_load_error-counted (load_failed message) a h = h
put_load_error-counted (lost code) a h = h

-- The outbox with so many messages more, and the rest of the agent as it is.
abbrev Adds : List Sent → NodeAgent → NodeAgent → Type 0
Adds ms a b =
    (b.work_queue ≡ a.work_queue)
    × (b.running ≡ a.running)
    × (b.work_in_progress ≡ a.work_in_progress)
    × (b.batch_size ≡ a.batch_size)
    × (b.outbox ≡ a.outbox ++ ms)

run_late-Adds : (late : List Late) (a : NodeAgent) → Adds (late_messages late) a (run_late late a)
unfolding run_late late_step late_messages emit put begin_generation end_generation
run_late-Adds [] a = (refl, refl, refl, refl, sym (append-nil a.outbox))
run_late-Adds (emits_late m ∷ ls) a =
    let (q, r, w, n, o) = run_late-Adds ls (late_step (emits_late m) a) in
    (q, r, w, n, o ∙ append_assoc a.outbox (streams m ∷ []) (late_messages ls))
run_late-Adds (begins_late ∷ ls) a = run_late-Adds ls (begin_generation a)
run_late-Adds (ends_late ∷ ls) a = run_late-Adds ls (end_generation a)

run_late-IsFresh :
    (early late : List Late) (a : NodeAgent)
    → IsFresh early [] a
    → IsFresh early late (run_late late a)
unfolding late_messages
run_late-IsFresh early late a f =
    let (q, r, w, n, o) = run_late-Adds late a in
    let ms = late_messages early in
    let later = late_messages late in
    record {
      backlog = q ∙ f.backlog;
      batch = r ∙ f.batch;
      idle = w ∙ f.idle;
      outbox = elim f.outbox [
        | inl e ↦ inl (o ∙ ap (λ xs. xs ++ later) e ∙ append_assoc ms [] later)
        | inr e ↦ inr (
            o
            ∙ ap (λ xs. xs ++ later) e
            ∙ append_assoc ms (work_request a.batch_size ∷ []) later
            ∙ ap (λ k. ms ++ work_request k ∷ later) (sym n))
      ];
    }

-- However a connection ends, it leaves to the next one no backlog, no batch under way, and as
-- messages only a request for a full batch, if any, and what generations that go on have put there
-- since: before the work loop has ended, then after, each in order. The connection starts at a node
-- within its bounds, and its assignments are no larger than what was asked for.
pub connect-IsFresh :
    (steps : List Step) (ended : Ended) (early late : List Late) (a : NodeAgent)
    → AllAllowed steps a
    → IsBounded a
    → IsFresh early late (connect (serves steps ended early late) a)
unfolding connect drain_work_queue
connect-IsFresh steps ended early late a allowed b =
    let over = put_load_error ended (run steps a) in
    let counted =
      put_load_error-counted ended (run steps a) (run-IsBounded steps a allowed b).counted in
    let (q, r, w, n, o) = run_late-Adds early (drain_work_queue over) in
    run_late-IsFresh early late _ (stop_work-IsFresh early _ q (w ∙ counted ∙ ap length (sym r)) o)

-- `run` goes through the connections up to the first one that is final and returns there, having
-- waited after each one before it.
pub run_node-returns :
    (cs : List Connection) (last : Connection) (later : List Connection) (a : NodeAgent)
    → All (λ c. is_final (end_of c) ≡ false) cs
    → is_final (end_of last) ≡ true
    → let r = run_node (cs ++ last ∷ later) a in
      (r.returned ≡ true) × (r.connections ≡ suc (length cs)) × (r.waited ≡ pauses cs)
unfolding run_node pauses
run_node-returns [] last later a goes stops = rw stops (refl, refl, refl)
run_node-returns (c ∷ cs) last later a (e, goes) stops =
    let (r, n, w) = run_node-returns cs last later (connect c a) goes stops in
    rw e (r, ap suc n, ap (λ k. pause (end_of c) + k) w)
