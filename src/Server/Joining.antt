-- ===== src/Server/Joining.antt =====
-- Who gets past the first message of a connection.
use fleet_lm.Base.{
  ℕ, String, Bool, true, false, Option, none, some, ◌≡◌, ◌⊎◌, refl, Bool-cases, inl, inr, arith,
  non_empty, lookup, lookup-insert, ap, subst,
}
use fleet_lm.Config.{Settings}
use fleet_lm.Server.App.{App, joined, closed}
use fleet_lm.Server.Messages.{
  RegisterMessage, register, heartbeat, model_loaded, generate_chunk, generate_complete,
  generate_error, work_request, work_result, work_failed, error, unknown, Frame, text, malformed,
  bytes, disconnect,
}
use fleet_lm.Server.Handle.{field_or}
use fleet_lm.Server.Connection.{
  set_connection, bad_token, turn_away, enter, first_message, first_frame,
}

module _ (compare_digest : String → String → Bool) (settings : Settings) where
  -- A registration with a good token and an identifier.
  pub data IsAccepted : Frame → Type 0 where
    accepts :
        {msg : RegisterMessage} {node_id : ℕ}
        → bad_token compare_digest settings msg ≡ false
        → msg.node_id ≡ some node_id
        → IsAccepted (text (register msg))

  module _ (now ws : ℕ) where
    -- What the first frame does: it is accepted, or the connection is closed and nothing else
    -- changes.
    abbrev pub Outcome : Frame → App → App → Type 0
    Outcome frame app app' = IsAccepted frame ⊎ (app' ≡ set_connection ws closed app)

    enter-Outcome :
        (msg : RegisterMessage) (node_id : Option ℕ) (app : App)
        → bad_token compare_digest settings msg ≡ false
        → msg.node_id ≡ node_id
        → Outcome (text (register msg)) app (enter compare_digest settings now ws msg node_id app).0
    unfolding enter turn_away
    enter-Outcome msg none app e q = inr refl
    enter-Outcome msg (some node_id) app e q = inl (accepts e q)

    -- Unless the first frame of a connection is a registration with a good token and an
    -- identifier, the connection is closed, and nothing else of the server changes.
    pub first_frame-Outcome :
        (frame : Frame) (app : App)
        → Outcome frame app (first_frame compare_digest settings now ws frame app).0
    unfolding first_frame first_message turn_away
    first_frame-Outcome (text (register msg)) app =
        elim (Bool-cases (bad_token compare_digest settings msg)) [
          | inl e ↦ inr (rw e refl)
          | inr e ↦ rw e (enter-Outcome msg msg.node_id app e refl)
        ]
    first_frame-Outcome (text (heartbeat cpu gpu sessions)) app = inr refl
    first_frame-Outcome (text (model_loaded model)) app = inr refl
    first_frame-Outcome (text (generate_chunk session_id t)) app = inr refl
    first_frame-Outcome (text (generate_complete session_id reason prompt completion)) app =
        inr refl
    first_frame-Outcome (text (generate_error session_id message)) app = inr refl
    first_frame-Outcome (text (work_request capacity)) app = inr refl
    first_frame-Outcome (text (work_result msg)) app = inr refl
    first_frame-Outcome (text (work_failed unit_id message)) app = inr refl
    first_frame-Outcome (text (error message)) app = inr refl
    first_frame-Outcome (text unknown) app = inr refl
    first_frame-Outcome malformed app = inr refl
    first_frame-Outcome bytes app = inr refl
    first_frame-Outcome disconnect app = inr refl

    module _ (honest : (a b : String) → compare_digest a b ≡ true → a ≡ b)
        (wanted : non_empty settings.join_token ≡ true) where
      token_of :
          (given : Option String)
          → compare_digest (field_or "" given) settings.join_token ≡ true
          → given ≡ some settings.join_token
      unfolding non_empty
      token_of none h =
          let empty : "" ≡ settings.join_token = honest "" settings.join_token h in
          let no_token : non_empty settings.join_token ≡ false =
            subst (λ t. non_empty t ≡ false) empty refl in
          cc
      token_of (some given) h = ap some (honest given settings.join_token h)

      accepted-token :
          {frame : Frame}
          → IsAccepted frame
          → (msg : RegisterMessage) × (frame ≡ text (register msg))
            × (msg.join_token ≡ some settings.join_token)
      unfolding bad_token
      accepted-token (accepts {msg} good q) = (msg, refl, token_of msg.join_token (ground arith))

      -- Where a join token is set and the digest test accepts equal texts only, a connection can
      -- only join by a registration that names this token.
      pub joined_has_token :
          (frame : Frame) (node_id : ℕ) (app : App)
          → lookup ws (first_frame compare_digest settings now ws frame app).0.connections
            ≡ some (joined node_id)
          → (msg : RegisterMessage) × (frame ≡ text (register msg))
            × (msg.join_token ≡ some settings.join_token)
      unfolding set_connection
      joined_has_token frame node_id app h = elim (first_frame-Outcome frame app) [
        | inl a ↦ accepted-token a
        | inr e ↦
            let left_closed = ap (λ a. lookup ws a.connections) e in
            ground (arith, left_closed, lookup-insert ws ws closed app.connections)
      ]
