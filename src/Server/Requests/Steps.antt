-- ===== src/Server/Requests/Steps.antt =====
-- Each arrival keeps the bookings, and so does every history of arrivals.
use fleet_lm.Base.{
  ℕ, String, Bool, true, false, Option, none, some, ◌≡◌, refl, inl, inr, List, [], ◌∷◌, ◌==◌, ◌+◌,
  ◌*◌, arith, Bool-cases, All, Distinct, lookup, insert, keys, lookup-insert, lookup-erase,
  insert-Distinct, erase-Distinct,
}
use fleet_lm.Config.{Settings, second}
use fleet_lm.Verification.{Primitives, Canary}
use fleet_lm.Session.Data.{InferenceSession}
use fleet_lm.Session.Manager.{get, create}
use fleet_lm.Batch.Machine.{is_some}
use fleet_lm.Fleet.Registry.{ConnectedNode, on_object}
use fleet_lm.Fleet.Router.{pick_node}
use fleet_lm.Server.App.{App, start_app, on_registry, on_sessions}
use fleet_lm.Server.Completions.{
  ChatCompletionRequest, forget, one_more, new_session, dispatch, dispatch_to, chat_completions,
}
use fleet_lm.Server.Requests.{
  Flight, Service, take_off, Arrival, reaches, asks, passes, hangs_up, arrive, arrive_all,
}
use fleet_lm.Server.Kept
use fleet_lm.Server.Requests.Called.{serve-Called}
use fleet_lm.Server.Requests.Follows.{begins-Follows}
use fleet_lm.Server.Requests.Booked.{BookedAt, IsStreamed, IsBooked, Called-IsBooked}
use fleet_lm.Server.Requests.Passes.{
  sessions_of, sessions-forget, take_next-IsBooked, drop_flight-IsBooked,
}

module _ (v : Service) (b : IsBooked v) where
  same-IsBooked :
      (app : App)
      → Distinct (keys (sessions_of app))
      → ((j : ℕ) → lookup j (sessions_of app) ≡ lookup j (sessions_of v.app))
      → IsBooked (record v { app = app })
  unfolding get
  same-IsBooked app unique same = record {
    sessions = unique;
    flights = b.flights;
    at = λ j. rw (same j) (b.at j);
    answers = b.answers;
  }

  module _ (k deadline : ℕ) (req : ChatCompletionRequest) (streams : Bool)
      (fresh : get k v.app.session_manager ≡ none) where
    dispatch-IsBooked :
        (sent : Bool) (n : ConnectedNode)
        → IsBooked (take_off k deadline streams (dispatch k req sent n v.app) v)
    unfolding dispatch take_off on_registry on_sessions create get new_session
    dispatch-IsBooked true n = record {
      sessions = insert-Distinct k _ v.app.session_manager.sessions b.sessions;
      flights = insert-Distinct k _ v.flights b.flights;
      at = λ j.
          rw (lookup-insert j k _ v.flights, lookup-insert j k _ v.app.session_manager.sessions)
            (elim (Bool-cases (j == k)) [
              | inr off ↦ rw off (b.at j)
              | inl at ↦
                  let here : j ≡ k = ground arith in
                  rw (at, here)
                    (record {
                      first = new_session k req n;
                      session = new_session k req n;
                      newborn = record { id = refl; events = refl; state = refl };
                      stored = refl;
                      id = refl;
                      follows = begins-Follows deadline _;
                    })
            ]);
      answers = b.answers;
    }
    dispatch-IsBooked false n =
        let d = v.app.session_manager.sessions in
        let s = new_session k req n in
        let unique = insert-Distinct k s d b.sessions in
        same-IsBooked
          (forget k n.ws (on_registry (on_object n.ws one_more) (on_sessions (create s) v.app)))
          (rw (sessions-forget k n.ws _) (erase-Distinct k (insert k s d) unique))
          λ j. ground (
            arith,
            sessions-forget k n.ws
                (on_registry (on_object n.ws one_more) (on_sessions (create s) v.app)),
            lookup-erase j k (insert k s d) unique,
            lookup-insert j k s d,
          )

    dispatch_to-IsBooked :
        (sent : Bool) (o : Option ConnectedNode)
        → IsBooked (take_off k deadline streams (dispatch_to k req sent o v.app) v)
    unfolding dispatch_to take_off
    dispatch_to-IsBooked sent none = b
    dispatch_to-IsBooked sent (some n) = dispatch-IsBooked sent n

    asks-IsBooked :
        (sent : Bool) → IsBooked (take_off k deadline streams (chat_completions k req sent v.app) v)
    unfolding chat_completions
    asks-IsBooked sent = dispatch_to-IsBooked sent (pick_node req.model v.app.registry)

abbrev pub open_service : Settings → ℕ → Option (List Canary) → Service
open_service settings now loaded = record {
  app = start_app settings now loaded;
  flights = [];
  answered = [];
}

module _ (compare_digest : String → String → Bool) (lib : Primitives) (settings : Settings) where
  abbrev arrives : ℕ × Arrival → Service → Service
  arrives = arrive compare_digest lib settings

  -- What an arrival wants of `uuid4`: new identifiers for a batch and for a session.
  abbrev pub Allowed : Arrival → Service → Type 0
  Allowed (reaches e) v = Kept.Allowed e v.app
  Allowed (asks session_id req streams sent) v = get session_id v.app.session_manager ≡ none
  Allowed _ v = Unit {0}

  abbrev pub AllAllowed : List (ℕ × Arrival) → Service → Type 0
  AllAllowed [] v = Unit {0}
  AllAllowed (a ∷ rest) v = Allowed a.1 v × AllAllowed rest (arrives a v)

  arrive-IsBooked :
      (a : ℕ × Arrival) (v : Service) → Allowed a.1 v → IsBooked v → IsBooked (arrives a v)
  unfolding arrive
  arrive-IsBooked (now, reaches e) v a b =
      Called-IsBooked v b _ (serve-Called compare_digest lib settings (now, e) v.app a)
  arrive-IsBooked (now, asks session_id req streams sent) v a b =
      asks-IsBooked v b session_id (now + settings.generation_timeout_sec * second) req streams a
        sent
  arrive-IsBooked (now, passes session_id) v a b = take_next-IsBooked v b now session_id
  arrive-IsBooked (now, hangs_up session_id) v a b = drop_flight-IsBooked v b session_id

  arrive_all-IsBooked :
      (arrivals : List (ℕ × Arrival)) (v : Service)
      → AllAllowed arrivals v
      → IsBooked v
      → IsBooked (arrive_all compare_digest lib settings arrivals v)
  unfolding arrive_all
  arrive_all-IsBooked [] v a b = b
  arrive_all-IsBooked (x ∷ rest) v a b =
      arrive_all-IsBooked rest (arrives x v) a.1 (arrive-IsBooked x v a.0 b)

  open_service-IsBooked :
      (now : ℕ) (loaded : Option (List Canary)) → IsBooked (open_service settings now loaded)
  unfolding start_app get lookup keys
  open_service-IsBooked now loaded = record {
    sessions = tt;
    flights = tt;
    at = λ k. refl;
    answers = tt;
  }

  module _ (now : ℕ) (loaded : Option (List Canary)) (arrivals : List (ℕ × Arrival))
      (allowed : AllAllowed arrivals (open_service settings now loaded)) where
    abbrev served : Service
    served = arrive_all compare_digest lib settings arrivals (open_service settings now loaded)

    served-IsBooked : IsBooked served
    served-IsBooked =
        arrive_all-IsBooked arrivals (open_service settings now loaded) allowed
          (open_service-IsBooked now loaded)

    in_flight :
        (k : ℕ) (f : Option Flight) (o : Option InferenceSession)
        → BookedAt k f o
        → is_some o ≡ is_some f
    in_flight k none o e = rw e refl
    in_flight k (some f) o w = rw w.stored refl

    -- From its start, whatever reaches the server and however its requests go, while `uuid4` draws
    -- new identifiers, the session manager holds a session exactly while a request waits for it: a
    -- request that is answered, fails or loses its client leaves no session behind, and no other
    -- event takes a session away from a request that waits.
    pub sessions_in_flight :
        (k : ℕ) → is_some (get k served.app.session_manager) ≡ is_some (lookup k served.flights)
    sessions_in_flight k = in_flight k (lookup k served.flights) _ (served-IsBooked.at k)

    -- Each answer is what `stream` gives, from a new session of its identifier, over some rounds.
    pub answers-IsStreamed : All IsStreamed served.answered
    answers-IsStreamed = served-IsBooked.answers
