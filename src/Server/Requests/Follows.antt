-- ===== src/Server/Requests/Follows.antt =====
-- A request inside the server and the generator of its session: what the passes of the request have
-- done so far is what the generator does on some rounds.
use mathlib.Core.List.{append-nil, append_assoc}
use fleet_lm.Base.{ℕ, String, some, ◌≡◌, refl, sym, ◌∙◌, ap, List, [], ◌∷◌, ◌++◌}
use fleet_lm.Session.Data.{InferenceSession}
use fleet_lm.Session.Stream.{
  NodeCall, apply_all, Round, yields, ends, End, pass, Streamed, resume, stream,
}
use fleet_lm.Server.Requests.{pass_at}
use fleet_lm.Server.Requests.Called.{apply_all-append}

abbrev round : ℕ → List NodeCall → Round
round now calls = record { now = now; calls = calls }

abbrev prepend : List String → Streamed → Streamed
prepend ts out = record out { texts = ts ++ out.texts }

-- After some rounds and the calls of a round that has begun, the generator has yielded `ts` and goes
-- on as it does from `s`.
pub record Follows (deadline : ℕ) (first : InferenceSession) (ts : List String)
    (s : InferenceSession) : Type 0 where
  pub rounds : List Round
  pub calls : List NodeCall
  pub goes_on :
      (now : ℕ) (more : List NodeCall) (later : List Round)
      → stream deadline (rounds ++ round now (calls ++ more) ∷ later) first
        ≡ prepend ts (stream deadline (round now more ∷ later) s)

pub begins-Follows : (deadline : ℕ) (s : InferenceSession) → Follows deadline s [] s
begins-Follows deadline s = record { rounds = []; calls = []; goes_on = λ now more later. refl }

stream_calls :
    (deadline now : ℕ) (cs more : List NodeCall) (later : List Round) (s : InferenceSession)
    → stream deadline (round now (cs ++ more) ∷ later) s
      ≡ stream deadline (round now more ∷ later) (apply_all cs s)
unfolding stream pass
stream_calls deadline now cs more later s = rw (apply_all-append cs more s) refl

stream_yields :
    (deadline now : ℕ) (later : List Round) (s s' : InferenceSession) (t : String)
    → pass_at deadline now s ≡ (yields t, s')
    → stream deadline (round now [] ∷ later) s ≡ prepend (t ∷ []) (stream deadline later s')
unfolding stream pass_at resume
stream_yields deadline now later s s' t e = rw e refl

stream_ended :
    (deadline now : ℕ) (s s' : InferenceSession) (e : End)
    → pass_at deadline now s ≡ (ends e, s')
    → stream deadline (round now [] ∷ []) s
      ≡ record { texts = []; end = some e; session = s'; unused = [] }
unfolding stream pass_at resume
stream_ended deadline now s s' e h = rw h refl

module _ (deadline : ℕ) (first : InferenceSession) (ts : List String) (s : InferenceSession)
    (f : Follows deadline first ts s) where
  pub apply_all-Follows : (cs : List NodeCall) → Follows deadline first ts (apply_all cs s)
  apply_all-Follows cs = record {
    rounds = f.rounds;
    calls = f.calls ++ cs;
    goes_on = λ now more later. rw (append_assoc f.calls cs more) (
        f.goes_on now (cs ++ more) later
        ∙ ap (prepend ts) (stream_calls deadline now cs more later s));
  }

  pub yields-Follows :
      (now : ℕ) (t : String) (s' : InferenceSession)
      → pass_at deadline now s ≡ (yields t, s')
      → Follows deadline first (ts ++ t ∷ []) s'
  yields-Follows now t s' e = record {
    rounds = f.rounds ++ round now (f.calls ++ []) ∷ [];
    calls = [];
    goes_on = λ now' more later.
        rw (append_assoc f.rounds (round now (f.calls ++ []) ∷ []) (round now' more ∷ later)) (
          f.goes_on now [] (round now' more ∷ later)
          ∙ ap (prepend ts) (stream_yields deadline now (round now' more ∷ later) s s' t e)
          ∙ ap (λ us. record (stream deadline (round now' more ∷ later) s') { texts = us })
              (sym
                (append_assoc ts (t ∷ []) (stream deadline (round now' more ∷ later) s').texts)));
  }

  pub ends-Follows :
      (now : ℕ) (e : End) (s' : InferenceSession)
      → pass_at deadline now s ≡ (ends e, s')
      → (rounds : List Round) × (stream deadline rounds first
          ≡ record { texts = ts; end = some e; session = s'; unused = [] })
  ends-Follows now e s' h = (
    f.rounds ++ round now (f.calls ++ []) ∷ [],
    f.goes_on now [] []
        ∙ ap (prepend ts) (stream_ended deadline now s s' e h)
        ∙ ap (λ us. record { texts = us; end = some e; session = s'; unused = [] }) (append-nil ts),
  )
