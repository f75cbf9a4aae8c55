-- ===== src/Server/Tests.antt =====
-- The theorems about the server at a concrete fleet, and runs of it.
mod Requests
use fleet_lm.Base.{
  ℕ, ◌+◌, String, Bool, true, none, some, ◌≡◌, refl, List, [], ◌∷◌, contains, lookup, insert,
  modify, erase, map_values, keys, arith, same_text, same_text-eq, truthy, non_empty, or_text,
  or_else, insert_at, filter,
}
use fleet_lm.Config.{Settings, default_settings}
use fleet_lm.Verification.{Primitives}
use fleet_lm.Batch.Data.{WorkUnit, Request, Message, leased, requeued, new_store}
use fleet_lm.Batch.Submit.{
  create_batch, insert_units, register_all, place, spread, plant, request_units, canary_units,
}
use fleet_lm.Batch.Lease.{lease, lease_loop, visit, serves, batch_gone, lease_unit}
use fleet_lm.Batch.Requeue.{
  reclaimed, reclaim, requeue_where, lease_over, release_node, expire_leases,
}
use fleet_lm.Batch.Valid.Submitting.{IsFresh}
use fleet_lm.Fleet.Registry.{
  new_registry, add, get_node, set_model_loaded, on_node, on_object, get_stale_nodes, timeout_or,
  stale_ids, is_stale,
}
use fleet_lm.Fleet.Heartbeat.{monitor_round, evict}
use fleet_lm.Session.Manager.{get}
use fleet_lm.Batch.Requeue.{held_by}
use fleet_lm.Server.App.{
  App, start_app, build_verifier, on_metrics, on_store, on_registry, on_sessions,
}
use fleet_lm.Server.Messages.{text, RegisterMessage, register, model_loaded, work_request}
use fleet_lm.Server.Handle.{handled, raises, assign, capacity_of, model_of, handle}
use fleet_lm.Server.Connection.{
  set_connection, leave, new_node, bad_token, join, turn_away, enter, first_message, first_frame,
  end_connection, after_message, next_frame, on_connection, receive,
}
use fleet_lm.Server.Batches.{post_batch, accept, refuse}
use fleet_lm.Server.Serve.{Event, opens, receives, posts, reaper_round, serve, serve_all}
use fleet_lm.Server.Safety.{Sound, AllAllowed, serve_all-Sound}
use fleet_lm.Server.Leaving.{IsGone, leave-IsGone, leave-requeues}
use fleet_lm.Server.Joining.{joined_has_token}
use fleet_lm.Server.Assigning.{IsAssigned, work_request-IsAssigned}
use fleet_lm.Server.Answering.{IsServed, chat_completions-IsServed}
use fleet_lm.Server.Completions.{ChatCompletionRequest, chat_completions}

abbrev pub lib : Primitives
lib = record { digest = λ t. t; ratio = λ a b. 0 }

abbrev pub settings : Settings
settings = record default_settings { join_token = "secret" }

abbrev ask : Request
ask = record {
  messages = (let m : Message = record { role = "user"; content = "Which colour?" } in m ∷ []);
  model = none;
  max_tokens = 256;
  temperature = 700_000;
}

abbrev pub joining : RegisterMessage
joining = record {
  node_id = some 7;
  gpu_name = none;
  gpu_vram_mb = none;
  runtime = none;
  model_id = some "llama";
  join_token = some "secret";
}

-- A node joins, loads its model and is given a unit of a batch.
abbrev joined_day : List (ℕ × Event)
joined_day =
    (1, opens 1)
    ∷ (2, receives 1 (text (register joining)))
    ∷ (3, receives 1 (text (model_loaded (some "llama"))))
    ∷ []

abbrev day : List (ℕ × Event)
day =
    (1, opens 1)
    ∷ (2, receives 1 (text (register joining)))
    ∷ (3, receives 1 (text (model_loaded (some "llama"))))
    ∷ (4, posts 1 (λ i. i + 10) none (ask ∷ ask ∷ []))
    ∷ (5, receives 1 (text (work_request (some 1))))
    ∷ []

abbrev start : App
start = start_app settings 0 none

abbrev pub digest_test : String → String → Bool
digest_test a b = same_text (some a) (some b)

-- The definitions that the runs compute.
unfoldable program : Unit {0}
unfolding serve_all serve receive on_connection first_frame first_message enter turn_away join
    bad_token set_connection new_node next_frame after_message handle handled raises assign
    capacity_of model_of leave end_connection on_metrics on_store on_registry on_sessions start_app
    build_verifier new_store new_registry add get_node set_model_loaded on_node on_object
    monitor_round evict get_stale_nodes timeout_or stale_ids is_stale reaper_round post_batch accept
    refuse create_batch lease lease_loop visit serves batch_gone lease_unit insert_units
    register_all place spread plant request_units canary_units expire_leases release_node
    requeue_where reclaimed reclaim held_by lease_over requeued lookup insert modify erase
    map_values contains same_text truthy non_empty or_text or_else insert_at keys filter
program = tt

fresh_ids :
    IsFresh 1 (λ i. i + 10) (serve_all digest_test lib settings joined_day start).batch_store
unfolding program
fresh_ids = record { batch = refl; unit = λ i. refl; distinct = λ i j e. omega arith }

day_allowed : AllAllowed digest_test lib settings day start
unfolding program
day_allowed = (tt, (tt, (tt, (fresh_ids, (tt, tt)))))

serve_all-Sound_example : Sound (serve_all digest_test lib settings day start)
serve_all-Sound_example = serve_all-Sound digest_test lib settings day 0 none day_allowed

held-Sound : Sound (serve_all digest_test lib settings day start)
held-Sound = serve_all-Sound digest_test lib settings day 0 none day_allowed

abbrev held_unit : WorkUnit
held_unit = record {
  id = 10;
  batch_id = 1;
  index = 0;
  messages = ask.messages;
  model = none;
  max_tokens = 256;
  temperature = 700_000;
  state = leased;
  attempts = 1;
  node_id = some 7;
  lease_expires_at = 600_000_005;
  created_at = 4;
  leased_at = 5;
  result_text = none;
  error = none;
  prompt_tokens = 0;
  completion_tokens = 0;
  served_by = none;
}

leave-IsGone_example : IsGone 7 (leave 8 7 (serve_all digest_test lib settings day start))
unfolding program
leave-IsGone_example =
    leave-IsGone 8 7 (serve_all digest_test lib settings day start) (record { unique = (refl, tt) })

leave-requeues_example :
    let s = (leave 8 7 (serve_all digest_test lib settings day start)).batch_store in
    (lookup 10 s.units ≡ some (requeued held_unit)) × (contains 10 s.pending ≡ true)
unfolding program
leave-requeues_example =
    leave-requeues 8 7 10 held_unit (serve_all digest_test lib settings day start) held-Sound refl
      refl

work_request-IsAssigned_example :
    IsAssigned settings 9 7 (model_of 7 (serve_all digest_test lib settings day start).registry) 2 (
      handle lib settings 9 7
        (work_request (some 2))
        (serve_all digest_test lib settings day start))
work_request-IsAssigned_example =
    work_request-IsAssigned lib settings 9 7 (some 2) (serve_all digest_test lib settings day start)
      held-Sound

joined_has_token_example :
    (msg : RegisterMessage) × (text (register joining) ≡ text (register msg))
    × (msg.join_token ≡ some "secret")
unfolding program
joined_has_token_example =
    joined_has_token digest_test settings 2 1 same_text-eq refl (text (register joining)) 7 start
      refl

abbrev pub chat : ChatCompletionRequest
chat = record {
  model = some "llama";
  messages = ask.messages;
  temperature = 700_000;
  max_tokens = 256;
}

chat_completions-IsServed_example :
    IsServed 5 chat
      (serve_all digest_test lib settings joined_day start)
      (chat_completions 5 chat true (serve_all digest_test lib settings joined_day start))
unfolding program get
chat_completions-IsServed_example =
    chat_completions-IsServed 5 chat (serve_all digest_test lib settings joined_day start) tt refl
      true
