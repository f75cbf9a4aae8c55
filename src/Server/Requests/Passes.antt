-- ===== src/Server/Requests/Passes.antt =====
-- A pass of a request, and its client's hanging up, keep the bookings.
use fleet_lm.Base.{
  ℕ, String, some, ◌≡◌, refl, sym, ◌∙◌, ap, inl, inr, subst, List, [], ◌∷◌, ◌++◌, ◌==◌, arith, leb,
  Bool-cases, Option-cases, All-append, Distinct, Dict, lookup, erase, lookup-modify, keys-modify,
}
use fleet_lm.Session.Data.{InferenceSession, Event, chunk, done, error}
use fleet_lm.Session.Inference.{put, fail}
use fleet_lm.Session.Manager.{get, on_session}
use fleet_lm.Session.Manager
use fleet_lm.Session.Stream.{
  Pass, yields, ends, End, returned, too_long, no_output, node_error, pass, apply_all, take_event,
  take_from,
}
use fleet_lm.Server.App.{App, on_metrics, on_registry, on_sessions}
use fleet_lm.Server.Completions.{forget, count_end, conclude}
use fleet_lm.Server.Requests.{
  Flight, Answered, Service, receive_text, after_pass, pass_at, take, take_next, drop_flight,
}
use fleet_lm.Server.Requests.Follows.{yields-Follows, ends-Follows}
use fleet_lm.Server.Requests.Booked.{IsWaiting, BookedAt, IsStreamed, IsBooked, erased-IsBooked}

id-fail : (message : String) (s : InferenceSession) → (fail message s).id ≡ s.id
unfolding fail put
id-fail message s = ground arith

id-take_from : (es : List Event) (s : InferenceSession) → (take_from es s).1.id ≡ s.id
unfolding take_from
id-take_from [] s = id-fail "no output from node" s
id-take_from (chunk text ∷ es) s = refl
id-take_from (done ∷ es) s = refl
id-take_from (error message ∷ es) s = refl

id-pass_at : (deadline now : ℕ) (s : InferenceSession) → (pass_at deadline now s).1.id ≡ s.id
unfolding pass_at pass apply_all take_event
id-pass_at deadline now s = elim (Bool-cases (leb deadline now)) [
  | inl e ↦ rw e (id-fail "generation timed out" s)
  | inr e ↦ rw e (id-take_from s.events s)
]

abbrev pub sessions_of : App → Dict InferenceSession
sessions_of app = app.session_manager.sessions

pub sessions-forget :
    (k ws : ℕ) (app : App) → sessions_of (forget k ws app) ≡ erase k (sessions_of app)
unfolding forget on_sessions on_registry Manager.remove
sessions-forget k ws app = refl

sessions-conclude :
    (node_id ws : ℕ) (e : End) (s : InferenceSession) (app : App)
    → sessions_of (conclude node_id ws e s app) ≡ erase s.id (sessions_of app)
unfolding conclude count_end forget on_metrics on_sessions on_registry Manager.remove
sessions-conclude node_id ws returned s app = refl
sessions-conclude node_id ws too_long s app = refl
sessions-conclude node_id ws no_output s app = refl
sessions-conclude node_id ws (node_error message) s app = refl

module _ (now k : ℕ) (f : Flight) (v : Service) (b : IsBooked v)
    (flying : lookup k v.flights ≡ some f) where
  waiting : IsWaiting k f (get k v.app.session_manager)
  waiting = subst (λ o. BookedAt k o (get k v.app.session_manager)) flying (b.at k)

  yielded-IsBooked :
      (text : String) (s s' : InferenceSession)
      → waiting.session ≡ s
      → pass_at f.deadline now s ≡ (yields text, s')
      → IsBooked (after_pass k f (yields text) s' v)
  unfolding after_pass on_sessions on_session get receive_text
  yielded-IsBooked text s s' same e =
      let d = v.app.session_manager.sessions in
      let there : lookup k d ≡ some s = waiting.stored ∙ ap some same in
      let old : IsWaiting k f (lookup k d) = waiting in
      record {
        sessions = subst (λ ks. Distinct ks) (sym (keys-modify k (λ _. s') d)) b.sessions;
        flights =
            subst (λ ks. Distinct ks) (sym (keys-modify k (receive_text text) v.flights)) b.flights;
        at = λ j.
            rw (lookup-modify j k (receive_text text) v.flights, lookup-modify j k (λ _. s') d)
              (elim (Bool-cases (j == k)) [
                | inr off ↦ rw off (b.at j)
                | inl at ↦
                    let here : j ≡ k = ground arith in
                    rw (at, here, flying, there)
                      (record {
                        first = old.first;
                        session = s';
                        newborn = old.newborn;
                        stored = refl;
                        id =
                            ap (λ p. p.1.id) (sym e)
                            ∙ id-pass_at f.deadline now s
                            ∙ ap (λ x. x.id) (sym same)
                            ∙ old.id;
                        follows =
                            yields-Follows f.deadline old.first f.texts s (rw (← same) old.follows)
                              now text s' e;
                      })
              ]);
        answers = b.answers;
      }

  ended-IsBooked :
      (e : End) (s s' : InferenceSession)
      → waiting.session ≡ s
      → pass_at f.deadline now s ≡ (ends e, s')
      → IsBooked (after_pass k f (ends e) s' v)
  unfolding after_pass
  ended-IsBooked e s s' same h =
      let old = waiting in
      let id : s'.id ≡ k =
        ap (λ p. p.1.id) (sym h)
        ∙ id-pass_at f.deadline now s
        ∙ ap (λ x. x.id) (sym same)
        ∙ old.id in
      let last : Answered = record {
        session_id = k;
        deadline = f.deadline;
        out = record { texts = f.texts; end = some e; session = s'; unused = [] };
      } in
      erased-IsBooked v b k (conclude f.node_id f.ws e s' v.app) (v.answered ++ last ∷ [])
        (sessions-conclude f.node_id f.ws e s' v.app
          ∙ ap (λ i. erase i v.app.session_manager.sessions) id)
        (All-append IsStreamed v.answered (last ∷ []) b.answers (
          (
            old.first,
            old.newborn,
            ends-Follows f.deadline old.first f.texts s (rw (← same) old.follows) now e s' h,
          ),
          tt,
        ))

  passed-IsBooked :
      (p : Pass) (s s' : InferenceSession)
      → waiting.session ≡ s
      → pass_at f.deadline now s ≡ (p, s')
      → IsBooked (after_pass k f p s' v)
  passed-IsBooked (yields text) = yielded-IsBooked text
  passed-IsBooked (ends e) = ended-IsBooked e

  take-IsBooked : IsBooked (take now k f (get k v.app.session_manager) v)
  unfolding take
  take-IsBooked = rw waiting.stored (passed-IsBooked _ waiting.session _ refl refl)

  drop-IsBooked : IsBooked (drop_flight k (some f) v)
  unfolding drop_flight
  drop-IsBooked = elim (Bool-cases f.streams) [
    | inl e ↦ rw e (
        erased-IsBooked v b k (forget k f.ws v.app) v.answered (sessions-forget k f.ws v.app)
          b.answers)
    | inr e ↦ rw e b
  ]

module _ (v : Service) (b : IsBooked v) where
  pub take_next-IsBooked : (now k : ℕ) → IsBooked (take_next now k (lookup k v.flights) v)
  unfolding take_next
  take_next-IsBooked now k = elim (Option-cases (lookup k v.flights)) [
    | inl e ↦ rw e b
    | inr (f, e) ↦ rw e (take-IsBooked now k f v b e)
  ]

  pub drop_flight-IsBooked : (k : ℕ) → IsBooked (drop_flight k (lookup k v.flights) v)
  unfolding drop_flight
  drop_flight-IsBooked k = elim (Option-cases (lookup k v.flights)) [
    | inl e ↦ rw e b
    | inr (f, e) ↦ rw e (drop-IsBooked 0 k f v b e)
  ]
