-- ===== src/Server/Requests/Called.antt =====
-- What reaches the server acts on the sessions that are stored by calls of nodes alone.
use mathlib.Core.Option
use fleet_lm.Base.{
  ℕ, String, Bool, Option, none, some, ◌≡◌, refl, ◌∙◌, ap, inl, inr, List, [], ◌∷◌, ◌++◌, ◌==◌,
  arith, Bool-cases, Dict, lookup, modify, map_values, keys, lookup-modify, lookup-map_values,
  keys-modify, keys-map_values,
}
use fleet_lm.Config.{Settings}
use fleet_lm.Verification.{Primitives}
use fleet_lm.Session.Data.{InferenceSession}
use fleet_lm.Session.Inference.{put, push_chunk, complete, fail}
use fleet_lm.Session.Manager.{
  SessionManager, on_session, fail_if_served, served_by_node, fail_sessions_for_node,
}
use fleet_lm.Session.Stream.{NodeCall, pushes, completes, fails, apply, apply_all}
use fleet_lm.Server.App.{App, on_metrics, on_registry, on_sessions}
use fleet_lm.Server.Connection.{set_connection}
use fleet_lm.Server.Serve.{Event, serve}
use fleet_lm.Server.Kept.{Keeps, Allowed, serve-Keeps}

pub apply_all-append :
    (cs cs' : List NodeCall) (s : InferenceSession)
    → apply_all (cs ++ cs') s ≡ apply_all cs' (apply_all cs s)
unfolding apply_all
apply_all-append [] cs' s = refl
apply_all-append (c ∷ cs) cs' s = apply_all-append cs cs' (apply c s)

id-fail : (message : String) (s : InferenceSession) → (fail message s).id ≡ s.id
unfolding fail put
id-fail message s = ground arith

pub id-apply_all : (cs : List NodeCall) (s : InferenceSession) → (apply_all cs s).id ≡ s.id
unfolding apply_all apply push_chunk complete put
id-apply_all [] s = refl
id-apply_all (pushes text ∷ cs) s = id-apply_all cs (apply (pushes text) s)
id-apply_all (completes reason prompt completion ∷ cs) s =
    id-apply_all cs (apply (completes reason prompt completion) s)
id-apply_all (fails message ∷ cs) s = id-apply_all cs (apply (fails message) s) ∙ id-fail message s

-- A session is there afterwards, and has been called on; none is new.
abbrev pub CalledAt : Option InferenceSession → Option InferenceSession → Type 0
CalledAt none o = o ≡ none
CalledAt (some s) o = (cs : List NodeCall) × (o ≡ some (apply_all cs s))

abbrev pub Sessions : Type 0
Sessions = Dict InferenceSession

pub record Called (d d' : Sessions) : Type 0 where
  pub at : (k : ℕ) → CalledAt (lookup k d) (lookup k d')
  pub keys : keys d' ≡ keys d

CalledAt-refl : (o : Option InferenceSession) → CalledAt o o
unfolding apply_all
CalledAt-refl none = refl
CalledAt-refl (some s) = ([], refl)

-- One more call, or none, at a session.
CalledAt-more :
    (o p : Option InferenceSession) (f : InferenceSession → InferenceSession)
    → ((s : InferenceSession) → (cs : List NodeCall) × (f s ≡ apply_all cs s))
    → CalledAt o p
    → CalledAt o (Option.map f p)
CalledAt-more none p f h e = rw e refl
CalledAt-more (some s) p f h (cs, e) =
    let (more, q) = h (apply_all cs s) in
    (cs ++ more, rw (e, apply_all-append cs more s) (ap some q))

module _ (d d' : Sessions) (c : Called d d') where
  Called-modify :
      (k : ℕ) (f : InferenceSession → InferenceSession)
      → ((s : InferenceSession) → (cs : List NodeCall) × (f s ≡ apply_all cs s))
      → Called d (modify k f d')
  Called-modify k f h = record {
    at = λ j. elim (Bool-cases (j == k)) [
      | inl e ↦
          rw (lookup-modify j k f d', e) (CalledAt-more (lookup j d) (lookup j d') f h (c.at j))
      | inr e ↦ rw (lookup-modify j k f d', e) (c.at j)
    ];
    keys = keys-modify k f d' ∙ c.keys;
  }

  Called-map_values :
      (f : InferenceSession → InferenceSession)
      → ((s : InferenceSession) → (cs : List NodeCall) × (f s ≡ apply_all cs s))
      → Called d (map_values f d')
  Called-map_values f h = record {
    at = λ j. rw (lookup-map_values j f d') (CalledAt-more (lookup j d) (lookup j d') f h (c.at j));
    keys = keys-map_values f d' ∙ c.keys;
  }

fail_if_served-calls :
    (node_id : ℕ) (s : InferenceSession)
    → (cs : List NodeCall) × (fail_if_served node_id s ≡ apply_all cs s)
unfolding fail_if_served apply_all apply
fail_if_served-calls node_id s = elim (Bool-cases (served_by_node node_id s)) [
  | inl e ↦ (fails "serving node disconnected" ∷ [], rw e refl)
  | inr e ↦ ([], rw e refl)
]

Called-on_session :
    (d : Sessions) (o : Option ℕ) (call : NodeCall) (m : SessionManager)
    → Called d m.sessions
    → Called d (on_session o (apply call) m).sessions
unfolding on_session apply_all
Called-on_session d none call m c = c
Called-on_session d (some k) call m c =
    Called-modify d m.sessions c k (apply call) (λ s. (call ∷ [], refl))

-- The sessions of the server have been called on since they were `d`.
abbrev CalledSince : Sessions → App → Type 0
CalledSince d app = Called d app.session_manager.sessions

keeps_CalledSince : (d : Sessions) → Keeps (CalledSince d)
unfolding on_metrics on_registry on_sessions set_connection on_session fail_sessions_for_node
    apply_all
keeps_CalledSince d = record {
  on_metrics = λ f app c. c;
  on_registry = λ f app c. c;
  store = λ new app h c. c;
  on_call = λ o call app c. Called-on_session d o call app.session_manager c;
  on_loss = λ node_id app c.
      Called-map_values d app.session_manager.sessions c (fail_if_served node_id)
        (fail_if_served-calls node_id);
  set_connection = λ ws x app c. c;
}

pub serve-Called :
    (compare_digest : String → String → Bool) (lib : Primitives) (settings : Settings)
    (e : ℕ × Event) (app : App)
    → Allowed e.1 app
    → Called app.session_manager.sessions
        (serve compare_digest lib settings e app).session_manager.sessions
serve-Called compare_digest lib settings e app a =
    let d = app.session_manager.sessions in
    serve-Keeps (CalledSince d) (keeps_CalledSince d) compare_digest lib settings e app a
      (record { at = λ k. CalledAt-refl (lookup k d); keys = refl })
