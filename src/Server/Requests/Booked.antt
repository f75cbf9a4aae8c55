-- ===== src/Server/Requests/Booked.antt =====
-- The sessions that are stored are those of the requests that wait.
use fleet_lm.Base.{
  ℕ, Option, none, some, ◌≡◌, refl, sym, ◌∙◌, inl, inr, subst, List, [], ◌==◌, Bool-cases, All,
  Distinct, lookup, erase, keys, lookup-erase, erase-Distinct,
}
use fleet_lm.Session.Data.{InferenceSession, SessionState}
use fleet_lm.Session.Manager.{get}
use fleet_lm.Session.Stream.{apply_all, Round, stream}
use fleet_lm.Server.App.{App}
use fleet_lm.Server.Requests.{Flight, Answered, Service}
use fleet_lm.Server.Requests.Called.{Called, CalledAt, id-apply_all}
use fleet_lm.Server.Requests.Follows.{Follows, apply_all-Follows}

-- A session as `chat_completions` makes it.
pub record IsNewborn (k : ℕ) (s : InferenceSession) : Type 0 where
  pub id : s.id ≡ k
  pub events : s.events ≡ []
  pub state : s.state ≡ SessionState.pending

-- The request has its session in the manager, and has seen of it what the generator yields.
pub record IsWaiting (k : ℕ) (f : Flight) (o : Option InferenceSession) : Type 0 where
  pub first : InferenceSession
  pub session : InferenceSession
  pub newborn : IsNewborn k first
  pub stored : o ≡ some session
  pub id : session.id ≡ k
  pub follows : Follows f.deadline first f.texts session

abbrev pub BookedAt : ℕ → Option Flight → Option InferenceSession → Type 0
BookedAt k none o = o ≡ none
BookedAt k (some f) o = IsWaiting k f o

-- An answer is what the generator gives of a session, over some rounds.
abbrev pub IsStreamed : Answered → Type 0
IsStreamed a =
    (first : InferenceSession) × IsNewborn a.session_id first
    × ((rounds : List Round) × (stream a.deadline rounds first ≡ a.out))

pub record IsBooked (v : Service) : Type 0 where
  pub sessions : Distinct (keys v.app.session_manager.sessions)
  pub flights : Distinct (keys v.flights)
  pub at : (k : ℕ) → BookedAt k (lookup k v.flights) (get k v.app.session_manager)
  pub answers : All IsStreamed v.answered

CalledAt-BookedAt :
    (k : ℕ) (f : Option Flight) (o o' : Option InferenceSession)
    → CalledAt o o'
    → BookedAt k f o
    → BookedAt k f o'
CalledAt-BookedAt k none o o' c e = subst (λ x. CalledAt x o') e c
CalledAt-BookedAt k (some f) o o' c w =
    let (cs, q) = subst (λ x. CalledAt x o') w.stored c in
    record {
      first = w.first;
      session = apply_all cs w.session;
      newborn = w.newborn;
      stored = q;
      id = id-apply_all cs w.session ∙ w.id;
      follows = apply_all-Follows f.deadline w.first f.texts w.session w.follows cs;
    }

module _ (v : Service) (b : IsBooked v) where
  -- Sessions that are only called on.
  pub Called-IsBooked :
      (app : App)
      → Called v.app.session_manager.sessions app.session_manager.sessions
      → IsBooked (record v { app = app })
  unfolding get
  Called-IsBooked app c = record {
    sessions = subst (λ ks. Distinct ks) (sym c.keys) b.sessions;
    flights = b.flights;
    at = λ k. CalledAt-BookedAt k (lookup k v.flights) _ _ (c.at k) (b.at k);
    answers = b.answers;
  }

  -- A request and its session go together.
  pub erased-IsBooked :
      (k : ℕ) (app : App) (answered : List Answered)
      → app.session_manager.sessions ≡ erase k v.app.session_manager.sessions
      → All IsStreamed answered
      → IsBooked (record { app = app; flights = erase k v.flights; answered = answered })
  unfolding get
  erased-IsBooked k app answered e h = record {
    sessions =
        subst (λ d. Distinct (keys d)) (sym e)
          (erase-Distinct k v.app.session_manager.sessions b.sessions);
    flights = erase-Distinct k v.flights b.flights;
    at = λ j.
        rw
          (
            e,
            lookup-erase j k v.flights b.flights,
            lookup-erase j k v.app.session_manager.sessions b.sessions,
          )
          (elim (Bool-cases (j == k)) [ inl at ↦ rw at refl | inr off ↦ rw off (b.at j) ]);
    answers = h;
  }
