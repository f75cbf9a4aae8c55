-- ===== src/System/Nodes.antt =====
-- What a node holds and sends: units of the store, and texts that its engine made of them.
use fleet_lm.Base.{
  ℕ, zero, suc, ◌+◌, ◌-◌, String, Bool, true, false, not, ◌||◌, ◌≡◌, refl, List, [], ◌∷◌, ◌==◌,
  Bool-cases, inl, inr, length, drop, truthy, All, All-append, All-map, or_text,
}
use fleet_lm.Batch.Data.{Payload}
use fleet_lm.Engine.{BatchOutput}
use fleet_lm.NodeAgent.{
  NodeAgent, Sent, work_result, work_failed, work_request, model_loaded, beat, load_error, streams,
  put, heartbeat, begin_generation, emit, end_generation, request_work, load_model, load_model_when,
  take_assignment, first_units, start_batch_from, start_batch, Decoded, raised, outputs,
  report_unit, report_units, fail_units, messages_for, end_batch, finish_batch, drain_work_queue,
  lose_connection, is_idle, wrong_count,
}
use fleet_lm.NodeAgent.Backlog.{
  Step, loads, is_assigned, is_nudged, starts, finishes, loses_connection, beats, begins_generation,
  emits, ends_generation, step,
}
use fleet_lm.System.{Fits, IsHonest, IsOwn}

module _ (Makes : Payload → String → Type 0) where
  module _ (Known : Payload → Type 0) where
    -- A result is about a known unit, and its text is what an engine may make of it.
    abbrev pub IsBacked : Sent → Type 0
    IsBacked (work_result unit_id text prompt_tokens completion_tokens model) =
        (p : Payload) × Known p × (p.unit_id ≡ unit_id) × Makes p text
    IsBacked _ = Unit

    pub record IsSupplied (a : NodeAgent) : Type 0 where
      pub queue : All Known a.work_queue
      pub running : All Known a.running
      pub outbox : All IsBacked a.outbox

  module _ (Known Known' : Payload → Type 0) (more : (p : Payload) → Known p → Known' p) where
    pub IsBacked-mono : (m : Sent) → IsBacked Known m → IsBacked Known' m
    IsBacked-mono (work_result unit_id text prompt completion model) (p, k, e, h) =
        (p, more p k, e, h)
    IsBacked-mono (work_failed unit_id message) h = tt
    IsBacked-mono (work_request capacity) h = tt
    IsBacked-mono model_loaded h = tt
    IsBacked-mono (beat sessions) h = tt
    IsBacked-mono (load_error message) h = tt
    IsBacked-mono (streams m) h = tt

  module _ (Known : Payload → Type 0) (a : NodeAgent) (s : IsSupplied Known a) where
    -- Where more becomes known, the node stays supplied.
    pub IsSupplied-mono :
        (Known' : Payload → Type 0) → ((p : Payload) → Known p → Known' p) → IsSupplied Known' a
    IsSupplied-mono Known' more = record {
      queue = All-map Known Known' a.work_queue more s.queue;
      running = All-map Known Known' a.running more s.running;
      outbox =
          All-map (IsBacked Known) (IsBacked Known') a.outbox (IsBacked-mono Known Known' more)
            s.outbox;
    }

    put-IsSupplied : (m : Sent) → IsBacked Known m → IsSupplied Known (put m a)
    unfolding put
    put-IsSupplied m b = record {
      queue = s.queue;
      running = s.running;
      outbox = All-append (IsBacked Known) a.outbox (m ∷ []) s.outbox (b, tt);
    }

    pub assigned-IsSupplied :
        (units : List Payload) → All Known units → IsSupplied Known (take_assignment units a)
    unfolding take_assignment
    assigned-IsSupplied units k = record {
      queue = All-append Known a.work_queue units s.queue k;
      running = s.running;
      outbox = s.outbox;
    }

  module _ (Known : Payload → Type 0) where
    request_work-IsSupplied :
        (a : NodeAgent) → IsSupplied Known a → IsSupplied Known (request_work a)
    unfolding request_work
    request_work-IsSupplied a s = elim (Bool-cases (not a.is_loaded || a.work_request_inflight)) [
      | inl e ↦ rw e s
      | inr e ↦ elim (Bool-cases (a.batch_size - length a.work_queue == 0)) [
        | inl z ↦ rw (e, z) s
        | inr z ↦
            rw (e, z)
              (put-IsSupplied Known (record a { work_request_inflight = true })
                (record { queue = s.queue; running = s.running; outbox = s.outbox })
                (work_request (a.batch_size - length a.work_queue)) tt)
      ]
    ]

    load_model-IsSupplied :
        (loaded : Bool) (a : NodeAgent)
        → IsSupplied Known a
        → IsSupplied Known (load_model_when loaded a)
    unfolding load_model_when
    load_model-IsSupplied true a s = put-IsSupplied Known a s model_loaded tt
    load_model-IsSupplied false a s = request_work-IsSupplied _ (
        put-IsSupplied Known (record a { is_loaded = true })
          (record { queue = s.queue; running = s.running; outbox = s.outbox }) model_loaded tt)

    first_units-All : (n : ℕ) (us : List Payload) → All Known us → All Known (first_units n us)
    unfolding first_units
    first_units-All zero us h = tt
    first_units-All (suc n) [] h = tt
    first_units-All (suc n) (u ∷ us) h = (h.0, first_units-All n us h.1)

    drop-All : (n : ℕ) (us : List Payload) → All Known us → All Known (drop n us)
    drop-All zero us h = h
    drop-All (suc n) [] h = tt
    drop-All (suc n) (u ∷ us) h = drop-All n us h.1

    start_batch-IsSupplied :
        (us : List Payload) (a : NodeAgent)
        → All Known us
        → IsSupplied Known a
        → IsSupplied Known (start_batch_from us a)
    unfolding start_batch_from
    start_batch-IsSupplied [] a h s = s
    start_batch-IsSupplied (u ∷ us) a h s = request_work-IsSupplied _ (record {
      queue = drop-All (a.batch_size - 1) us h.1;
      running = (h.0, first_units-All (a.batch_size - 1) us h.1);
      outbox = s.outbox;
    })

    report_units-IsBacked :
        (model : String) (us : List Payload) (outs : List BatchOutput)
        → All Known us
        → Fits Makes us outs
        → All (IsBacked Known) (report_units model us outs)
    unfolding report_units report_unit
    report_units-IsBacked model [] outs k f = tt
    report_units-IsBacked model (u ∷ us) [] k f = tt
    report_units-IsBacked model (u ∷ us) (o ∷ outs) k f = (
      elim (Bool-cases (truthy o.error)) [ inl e ↦ rw e tt | inr e ↦ rw e (u, k.0, refl, f.0 e) ],
      report_units-IsBacked model us outs k.1 f.1,
    )

    fail_units-IsBacked :
        (message : String) (us : List Payload) → All (IsBacked Known) (fail_units message us)
    unfolding fail_units
    fail_units-IsBacked message [] = tt
    fail_units-IsBacked message (u ∷ us) = (tt, fail_units-IsBacked message us)

    messages_for-IsBacked :
        (model : String) (us : List Payload) (d : Decoded)
        → All Known us
        → IsHonest Makes us d
        → All (IsBacked Known) (messages_for model us d)
    unfolding messages_for
    messages_for-IsBacked model us (raised message) k f = fail_units-IsBacked message us
    messages_for-IsBacked model us (outputs engine_model outs) k f =
        elim (Bool-cases (length outs == length us)) [
          | inl e ↦ rw e (report_units-IsBacked (or_text engine_model model) us outs k f)
          | inr e ↦ rw e (fail_units-IsBacked (wrong_count (length outs) (length us)) us)
        ]

    end_batch-IsSupplied :
        (a : NodeAgent)
        → All Known a.work_queue
        → All (IsBacked Known) a.outbox
        → IsSupplied Known (end_batch a)
    unfolding end_batch
    end_batch-IsSupplied a q o =
        request_work-IsSupplied _ (record { queue = q; running = tt; outbox = o })

    -- A step that a node makes by itself, with an honest engine.
    pub own-IsSupplied :
        (x : Step) (a : NodeAgent)
        → IsOwn Makes x a
        → IsSupplied Known a
        → IsSupplied Known (step x a)
    unfolding step load_model heartbeat begin_generation emit end_generation start_batch
        finish_batch lose_connection drain_work_queue
    own-IsSupplied loads a h s = load_model-IsSupplied a.is_loaded a s
    own-IsSupplied (is_assigned units) a h s = elim h [ ]
    own-IsSupplied is_nudged a h s = request_work-IsSupplied a s
    own-IsSupplied starts a h s = elim (Bool-cases (is_idle a.running)) [
      | inl e ↦ rw e (start_batch-IsSupplied a.work_queue a s.queue s)
      | inr e ↦ rw e s
    ]
    own-IsSupplied (finishes d) a h s = elim (Bool-cases (is_idle a.running)) [
      | inl e ↦ rw e s
      | inr e ↦ rw e (
          end_batch-IsSupplied _ s.queue (
            All-append (IsBacked Known) a.outbox (messages_for a.model_id a.running d) s.outbox
              (messages_for-IsBacked a.model_id a.running d s.running h)))
    ]
    own-IsSupplied loses_connection a h s = elim (Bool-cases (is_idle a.running)) [
      | inl e ↦ rw e (record { queue = tt; running = s.running; outbox = tt })
      | inr e ↦ rw e (end_batch-IsSupplied _ tt tt)
    ]
    own-IsSupplied beats a h s =
        put-IsSupplied Known a s (beat (a.active_sessions + a.work_in_progress)) tt
    own-IsSupplied begins_generation a h s = record {
      queue = s.queue;
      running = s.running;
      outbox = s.outbox;
    }
    own-IsSupplied (emits m) a h s = put-IsSupplied Known a s (streams m) tt
    own-IsSupplied ends_generation a h s = record {
      queue = s.queue;
      running = s.running;
      outbox = s.outbox;
    }
