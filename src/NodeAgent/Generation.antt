-- ===== src/NodeAgent/Generation.antt =====
-- node_agent/__main__.py: `_generate` with its thread `produce`, and `_heartbeat_loop`. What the
-- engine's stream yields is a parameter.
use mathlib.Core.Option
use fleet_lm.Base.{
  ℕ, String, Option, none, some, ◌≡◌, refl, ◌∙◌, ap, List, [], ◌∷◌, ◌++◌, map, if◌then◌else◌,
  filter, non_empty, lookup-modify_same,
}
use fleet_lm.Config.{Settings}
use fleet_lm.Verification.{Primitives}
use fleet_lm.Engine.{LastTokens, Stream}
use fleet_lm.Session.Stream.{NodeCall, pushes, completes, fails, apply, apply_all}
use fleet_lm.Session.Data.{InferenceSession}
use fleet_lm.Session.Manager.{get, on_session}
use fleet_lm.Server.App.{App, on_sessions}
use fleet_lm.Server.Messages.{NodeMessage, generate_chunk, generate_complete, generate_error}
use fleet_lm.Server.Handle.{handle, handled}

-- The pieces that are sent: an empty one is not.
unfoldable pub sent_pieces : List String → List String
sent_pieces [] = []
sent_pieces (p ∷ ps) = let rest = sent_pieces ps in if non_empty p then p ∷ rest else rest

unfoldable pub ending : ℕ → Option String → LastTokens → NodeMessage
ending session_id none last =
    generate_complete (some session_id) (some "stop") (some last.prompt) (some last.completion)
ending session_id (some message) last = generate_error (some session_id) (some message)

unfoldable pub chunks : ℕ → List String → List NodeMessage
chunks session_id ps = map (λ p. generate_chunk (some session_id) (some p)) ps

-- What `produce` puts into the outbox.
unfoldable pub produce : ℕ → Stream → List NodeMessage
unfolding ending chunks
produce session_id st =
    chunks session_id (sent_pieces st.pieces) ++ ending session_id st.failure st.last ∷ []

-- What a generation is for its session: a call for each piece that is not empty, and one for its end.
unfoldable pub ending_call : Option String → LastTokens → NodeCall
ending_call none last = completes "stop" last.prompt last.completion
ending_call (some message) last = fails message

unfoldable pub calls_of : Stream → List NodeCall
calls_of st = map pushes (filter non_empty st.pieces) ++ ending_call st.failure st.last ∷ []

sent_pieces-filter : (ps : List String) → sent_pieces ps ≡ filter non_empty ps
unfolding sent_pieces filter
sent_pieces-filter [] = refl
sent_pieces-filter (p ∷ ps) = rw (sent_pieces-filter ps) refl

module _ (lib : Primitives) (settings : Settings) (now node_id : ℕ) where
  -- The server handles messages one after another.
  unfoldable pub handle_all : List NodeMessage → App → App
  handle_all [] app = app
  handle_all (m ∷ ms) app = handle_all ms (handle lib settings now node_id m app).app

  abbrev session_of : ℕ → App → Option InferenceSession
  session_of session_id app = get session_id app.session_manager

  -- A message reaches its session as a call.
  abbrev Reaches : ℕ → NodeMessage → NodeCall → Type 0
  Reaches session_id m c =
      (app : App)
      → session_of session_id (handle lib settings now node_id m app).app
        ≡ Option.map (apply c) (session_of session_id app)

  chunk-Reaches :
      (session_id : ℕ) (p : String)
      → Reaches session_id (generate_chunk (some session_id) (some p)) (pushes p)
  unfolding handle handled on_sessions on_session get apply
  chunk-Reaches session_id p app = lookup-modify_same session_id _ app.session_manager.sessions

  ending-Reaches :
      (session_id : ℕ) (failure : Option String) (last : LastTokens)
      → Reaches session_id (ending session_id failure last) (ending_call failure last)
  unfolding handle handled on_sessions on_session get ending ending_call apply
  ending-Reaches session_id none last app =
      lookup-modify_same session_id _ app.session_manager.sessions
  ending-Reaches session_id (some message) last app =
      lookup-modify_same session_id _ app.session_manager.sessions

  map-apply_all :
      (c : NodeCall) (cs : List NodeCall) (o : Option InferenceSession)
      → Option.map (apply_all cs) (Option.map (apply c) o) ≡ Option.map (apply_all (c ∷ cs)) o
  unfolding apply_all
  map-apply_all c cs none = refl
  map-apply_all c cs (some s) = refl

  handle_all-pieces :
      (session_id : ℕ) (ps : List String) (failure : Option String) (last : LastTokens) (app : App)
      → session_of session_id
          (handle_all (chunks session_id ps ++ ending session_id failure last ∷ []) app)
        ≡ Option.map
            (apply_all (map pushes ps ++ ending_call failure last ∷ []))
            (session_of session_id app)
  unfolding handle_all chunks apply_all
  handle_all-pieces session_id [] failure last app = ending-Reaches session_id failure last app
  handle_all-pieces session_id (p ∷ ps) failure last app =
      let m = generate_chunk (some session_id) (some p) in
      handle_all-pieces session_id ps failure last (handle lib settings now node_id m app).app
      ∙ ap (Option.map (apply_all (map pushes ps ++ ending_call failure last ∷ [])))
          (chunk-Reaches session_id p app)
      ∙ map-apply_all (pushes p) (map pushes ps ++ ending_call failure last ∷ [])
          (session_of session_id app)

  -- What a node sends of a generation reaches the session it was asked for: once the server has
  -- handled all of its messages, the session is the one it was with each non-empty piece pushed, in
  -- order, and then completed with the engine's counts, or failed with the engine's exception. A
  -- session that the server no longer has does not come back.
  pub handle_all-produce :
      (session_id : ℕ) (st : Stream) (app : App)
      → session_of session_id (handle_all (produce session_id st) app)
        ≡ Option.map (apply_all (calls_of st)) (session_of session_id app)
  unfolding produce calls_of
  handle_all-produce session_id st app =
      rw (sent_pieces-filter st.pieces)
        (handle_all-pieces session_id (filter non_empty st.pieces) st.failure st.last app)
