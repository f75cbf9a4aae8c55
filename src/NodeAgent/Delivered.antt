-- ===== src/NodeAgent/Delivered.antt =====
-- A batch from the engine's outputs on a node to the units in the server's store.
use mathlib.Core.Option
use fleet_lm.Base.{
  ℕ, zero, suc, String, true, false, some, ◌≡◌, refl, ◌∙◌, ap, List, [], ◌∷◌, map, arith, ◌==◌, leb,
  if◌then◌else◌, Bool-cases, inl, inr, Distinct, contains, nth, lookup, modify, lookup-modify,
  lookup-modify_same, truthy, or_text, Dict,
}
use fleet_lm.Config.{Settings}
use fleet_lm.Verification.{Primitives}
use fleet_lm.Batch.Data.{WorkUnit, Batch, BatchStore, Payload, is_open}
use fleet_lm.Batch.Report.{NodeResult, record_result, dead_letter, retry, complete, fail}
use fleet_lm.Batch.Cases.{maybe_finish_cases, complete_cases, fail_cases}
use fleet_lm.Engine.{BatchOutput}
use fleet_lm.Server.App.{App, on_store}
use fleet_lm.Server.Messages.{NodeMessage}
use fleet_lm.Server.Messages
use fleet_lm.Server.Handle.{handle, handled, result_of}
use fleet_lm.NodeAgent.{Sent, report_unit, report_units}
use fleet_lm.NodeAgent.Reports.{unit_ids}
use fleet_lm.NodeAgent
use fleet_lm.NodeAgent.Generation.{handle_all}

-- The frame that the sender makes of a message; `cpu` is the load that a heartbeat reports, and
-- `seconds` the time credited to each unit of a batch.
unfoldable pub frame_of : ℕ → ℕ → String → Sent → NodeMessage
frame_of cpu seconds model_id NodeAgent.model_loaded = Messages.model_loaded (some model_id)
frame_of cpu seconds model_id (NodeAgent.work_request capacity) =
    Messages.work_request (some capacity)
frame_of cpu seconds model_id (NodeAgent.work_result unit_id text prompt completion model) =
    Messages.work_result (record {
      unit_id = some unit_id;
      text = some text;
      prompt_tokens = some prompt;
      completion_tokens = some completion;
      generation_sec = some seconds;
      model = some model;
    })
frame_of cpu seconds model_id (NodeAgent.work_failed unit_id message) =
    Messages.work_failed (some unit_id) (some message)
frame_of cpu seconds model_id (NodeAgent.beat active_sessions) =
    Messages.heartbeat (some cpu) (some 0) (some active_sessions)
frame_of cpu seconds model_id (NodeAgent.streams m) = m
frame_of cpu seconds model_id (NodeAgent.load_error message) = Messages.error (some message)

-- What the server keeps of a result.
abbrev kept_result : ℕ → String → Payload → BatchOutput → NodeResult
kept_result seconds model u out = record {
  unit_id = u.unit_id;
  text = out.text;
  prompt_tokens = out.prompt_tokens;
  completion_tokens = out.completion_tokens;
  generation_sec = seconds;
  served_by = some model;
}

-- An open unit after its report: complete with the output, or, when the output is an error, failed
-- or back in the queue, as the attempts decide.
unfoldable pub after_report :
    Settings → ℕ → ℕ → String → Payload → BatchOutput → WorkUnit → WorkUnit
after_report settings node_id seconds model u out w =
    if truthy out.error
    then if leb settings.max_unit_attempts w.attempts
      then dead_letter (or_text out.error "") w
      else retry (or_text out.error "") w
    else record_result node_id (kept_result seconds model u out) w

module _ (lib : Primitives) (settings : Settings) (now node_id : ℕ) where
  complete-units :
      (r : NodeResult) (s : BatchStore) (w : WorkUnit)
      → lookup r.unit_id s.units ≡ some w
      → is_open w.state ≡ true
      → (complete lib now node_id r s).units ≡ modify r.unit_id (record_result node_id r) s.units
  unfolding complete
  complete-units r s w e o =
      let done = modify r.unit_id (record_result node_id r) s.units in
      rw (e, complete, o, complete)
        (maybe_finish_cases (λ batches units queue. units ≡ done) now w.batch_id
          (record s { units = done }) (λ _. refl) (λ _ _ _. refl) (λ _ _ _ _. refl)
          (λ _ _ _ _. refl))

  abbrev failed_as : String → WorkUnit → WorkUnit
  failed_as message w =
      if leb settings.max_unit_attempts w.attempts then dead_letter message w else retry message w

  fail-lookup :
      (k : ℕ) (message : String) (s : BatchStore) (w : WorkUnit)
      → lookup k s.units ≡ some w
      → is_open w.state ≡ true
      → lookup k (fail settings now node_id k message s).units ≡ some (failed_as message w)
  unfolding fail
  fail-lookup k message s w e o =
      let dead = modify k (dead_letter message) s.units in
      let gone : lookup k dead ≡ some (dead_letter message w) =
        lookup-modify_same k (dead_letter message) s.units
        ∙ ap (Option.map (dead_letter message)) e in
      let back : lookup k (modify k (retry message) s.units) ≡ some (retry message w) =
        lookup-modify_same k (retry message) s.units ∙ ap (Option.map (retry message)) e in
      elim (Bool-cases (leb settings.max_unit_attempts w.attempts)) [
        | inl a ↦
            rw (e, fail, o, fail, a)
              (maybe_finish_cases
                (λ batches units queue. lookup k units ≡ some (dead_letter message w)) now
                w.batch_id (record s { units = dead }) (λ _. gone) (λ _ _ _. gone) (λ _ _ _ _. gone)
                (λ _ _ _ _. gone))
        | inr a ↦ rw (e, fail, o, fail, a) back
      ]

  -- What other units are after a change of one.
  abbrev SameAt : ℕ → BatchStore → Dict Batch → Dict WorkUnit → List ℕ → Type 0
  SameAt k s batches units queue = lookup k units ≡ lookup k s.units

  modified-SameAt :
      (k j : ℕ) (f : WorkUnit → WorkUnit) (s : BatchStore)
      → (k == j) ≡ false
      → lookup k (modify j f s.units) ≡ lookup k s.units
  modified-SameAt k j f s off = rw (lookup-modify k j f s.units, off)

  complete-other :
      (k : ℕ) (r : NodeResult) (s : BatchStore)
      → (k == r.unit_id) ≡ false
      → lookup k (complete lib now node_id r s).units ≡ lookup k s.units
  complete-other k r s off =
      let kept = modified-SameAt k r.unit_id (record_result node_id r) s off in
      complete_cases (SameAt k s) lib now node_id r s refl λ u e o.
        maybe_finish_cases (SameAt k s) now u.batch_id
          (record s { units = modify r.unit_id (record_result node_id r) s.units }) (λ _. kept)
          (λ _ _ _. kept) (λ _ _ _ _. kept) (λ _ _ _ _. kept)

  fail-other :
      (k j : ℕ) (message : String) (s : BatchStore)
      → (k == j) ≡ false
      → lookup k (fail settings now node_id j message s).units ≡ lookup k s.units
  fail-other k j message s off =
      let kept = modified-SameAt k j (dead_letter message) s off in
      fail_cases (SameAt k s) settings now node_id j message s refl
        (λ u e o a.
          maybe_finish_cases (SameAt k s) now u.batch_id
            (record s { units = modify j (dead_letter message) s.units }) (λ _. kept)
            (λ _ _ _. kept) (λ _ _ _ _. kept) (λ _ _ _ _. kept))
        (λ u e o a. modified-SameAt k j (retry message) s off)

  module _ (cpu seconds : ℕ) (model_id model : String) where
    abbrev frame : Payload → BatchOutput → NodeMessage
    frame u o = frame_of cpu seconds model_id (report_unit model u o)

    abbrev units_after : NodeMessage → App → Dict WorkUnit
    units_after m app = (handle lib settings now node_id m app).app.batch_store.units

    handle-own :
        (u : Payload) (o : BatchOutput) (app : App) (w : WorkUnit)
        → lookup u.unit_id app.batch_store.units ≡ some w
        → is_open w.state ≡ true
        → lookup u.unit_id (units_after (frame u o) app)
          ≡ some (after_report settings node_id seconds model u o w)
    unfolding report_unit frame_of handle handled on_store result_of after_report
    handle-own u o app w e open_unit = elim (Bool-cases (truthy o.error)) [
      | inl t ↦
          rw (t, report_unit, frame_of, handle)
            (fail-lookup u.unit_id (or_text o.error "") app.batch_store w e open_unit)
      | inr t ↦
          let r = kept_result seconds model u o in
          rw (t, report_unit, frame_of, handle)
            (ap (lookup u.unit_id) (complete-units r app.batch_store w e open_unit)
              ∙ lookup-modify_same u.unit_id (record_result node_id r) app.batch_store.units
              ∙ ap (Option.map (record_result node_id r)) e)
    ]

    handle-other :
        (k : ℕ) (u : Payload) (o : BatchOutput) (app : App)
        → (k == u.unit_id) ≡ false
        → lookup k (units_after (frame u o) app) ≡ lookup k app.batch_store.units
    unfolding report_unit frame_of handle handled on_store result_of
    handle-other k u o app off = elim (Bool-cases (truthy o.error)) [
      | inl t ↦
          rw (t, report_unit, frame_of, handle)
            (fail-other k u.unit_id (or_text o.error "") app.batch_store off)
      | inr t ↦
          rw (t, report_unit, frame_of, handle)
            (complete-other k (kept_result seconds model u o) app.batch_store off)
    ]

    abbrev frames : List Payload → List BatchOutput → List NodeMessage
    frames us os = map (frame_of cpu seconds model_id) (report_units model us os)

    abbrev units_after_all : List NodeMessage → App → Dict WorkUnit
    units_after_all ms app = (handle_all lib settings now node_id ms app).batch_store.units

    frames-other :
        (k : ℕ) (us : List Payload) (os : List BatchOutput) (app : App)
        → contains k (unit_ids us) ≡ false
        → lookup k (units_after_all (frames us os) app) ≡ lookup k app.batch_store.units
    unfolding report_units handle_all contains
    frames-other k [] os app c = refl
    frames-other k (u ∷ us) [] app c = refl
    frames-other k (u ∷ us) (o ∷ os) app c =
        frames-other k us os (handle lib settings now node_id (frame u o) app).app (ground arith)
        ∙ handle-other k u o app (ground arith)

    listed :
        (j : ℕ) (us : List Payload) (u : Payload)
        → nth j us ≡ some u
        → contains u.unit_id (unit_ids us) ≡ true
    unfolding nth contains
    listed j [] u h = cc
    listed zero (x ∷ us) u h = let same : x ≡ u = cc in rw same (ground arith)
    listed (suc j) (x ∷ us) u h = ground (arith, listed j us u h)

    -- The whole way of a batch: when the server has handled the reports that a node sends of a batch
    -- of distinct units, each unit that was open has what its own output says. It is complete with
    -- the output's text and counts, or, where the output is an error, failed with that message when
    -- its attempts are used up, and back in the queue otherwise.
    pub reports-delivered :
        (us : List Payload) (os : List BatchOutput) (app : App) (j : ℕ) (u : Payload)
        (o : BatchOutput) (w : WorkUnit)
        → Distinct (unit_ids us)
        → nth j us ≡ some u
        → nth j os ≡ some o
        → lookup u.unit_id app.batch_store.units ≡ some w
        → is_open w.state ≡ true
        → lookup u.unit_id (units_after_all (frames us os) app)
          ≡ some (after_report settings node_id seconds model u o w)
    unfolding report_units handle_all nth
    reports-delivered [] os app j u o w d hu ho e open_unit = cc
    reports-delivered (x ∷ us) [] app j u o w d hu ho e open_unit = cc
    reports-delivered (x ∷ us) (y ∷ os) app zero u o w d hu ho e open_unit =
        let same_unit : x ≡ u = cc in
        let same_output : y ≡ o = cc in
        let alone : contains u.unit_id (unit_ids us) ≡ false = rw (← same_unit) d.0 in
        rw (same_unit, same_output)
          (frames-other u.unit_id us os _ alone ∙ handle-own u o app w e open_unit)
    reports-delivered (x ∷ us) (y ∷ os) app (suc j) u o w d hu ho e open_unit =
        let c = listed j us u hu in
        let off : (u.unit_id == x.unit_id) ≡ false = elim (Bool-cases (u.unit_id == x.unit_id)) [
          | inr f ↦ f
          | inl t ↦
              let at : u.unit_id ≡ x.unit_id = ground arith in
              let clash : contains x.unit_id (unit_ids us) ≡ true = rw (← at) c in
              absurd (ground arith)
        ] in
        let app' = (handle lib settings now node_id (frame x y) app).app in
        reports-delivered us os app' j u o w d.1 hu ho (handle-other u.unit_id x y app off ∙ e)
          open_unit
