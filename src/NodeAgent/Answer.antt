-- ===== src/NodeAgent/Answer.antt =====
-- What an interactive client gets of a generation that a node runs.
use fleet_lm.Base.{
  ℕ, String, Option, none, some, ◌≡◌, refl, sym, ◌∙◌, ap, List, [], ◌∷◌, ◌++◌, map, leb, Bool-cases,
  inl, inr, concat, non_empty, filter,
}
use mathlib.Core.List.{append-nil, append_assoc}
use fleet_lm.Engine.{BatchItem, LastTokens, Stream, glue, output_of, generate_one}
use fleet_lm.Session.Data.{InferenceSession, Event, chunk, done, error, is_closed}
use fleet_lm.Session.Inference.{put, push_chunk, complete, fail}
use fleet_lm.Session.Stream.{
  NodeCall, pushes, completes, fails, apply, apply_all, calls_in, Round, returned, Streamed,
  take_from, take_event, pass, resume, stream,
}
use fleet_lm.NodeAgent.Generation.{ending_call, calls_of}

-- A queue without its errors.
unfoldable clean : List Event → List Event
clean [] = []
clean (chunk t ∷ es) = chunk t ∷ clean es
clean (done ∷ es) = done ∷ clean es
clean (error m ∷ es) = clean es

-- What calls put into a queue, without errors.
unfoldable events_in : List NodeCall → List Event
events_in [] = []
events_in (pushes t ∷ cs) = chunk t ∷ events_in cs
events_in (completes f p c ∷ cs) = done ∷ events_in cs
events_in (fails m ∷ cs) = events_in cs

clean-append : (es fs : List Event) → clean (es ++ fs) ≡ clean es ++ clean fs
unfolding clean
clean-append [] fs = refl
clean-append (chunk t ∷ es) fs = ap (◌∷◌ (chunk t)) (clean-append es fs)
clean-append (done ∷ es) fs = ap (◌∷◌ done) (clean-append es fs)
clean-append (error m ∷ es) fs = clean-append es fs

events_in-append : (cs ds : List NodeCall) → events_in (cs ++ ds) ≡ events_in cs ++ events_in ds
unfolding events_in
events_in-append [] ds = refl
events_in-append (pushes t ∷ cs) ds = ap (◌∷◌ (chunk t)) (events_in-append cs ds)
events_in-append (completes f p c ∷ cs) ds = ap (◌∷◌ done) (events_in-append cs ds)
events_in-append (fails m ∷ cs) ds = events_in-append cs ds

clean-fail : (m : String) (s : InferenceSession) → clean (fail m s).events ≡ clean s.events
unfolding fail put clean
clean-fail m s = elim (Bool-cases (is_closed s.state)) [
  | inl e ↦ rw e refl
  | inr e ↦ rw (e, clean-append s.events (error m ∷ []), append-nil) refl
]

clean-apply_all :
    (cs : List NodeCall) (s : InferenceSession)
    → clean (apply_all cs s).events ≡ clean s.events ++ events_in cs
unfolding apply_all apply push_chunk complete put events_in clean
clean-apply_all [] s = sym (append-nil (clean s.events))
clean-apply_all (pushes t ∷ cs) s =
    rw (clean-apply_all cs (push_chunk t s), clean-append s.events (chunk t ∷ []), append_assoc)
      refl
clean-apply_all (completes f p c ∷ cs) s =
    rw (clean-apply_all cs (complete f p c s), clean-append s.events (done ∷ []), append_assoc) refl
clean-apply_all (fails m ∷ cs) s = rw (clean-apply_all cs (fail m s), clean-fail m s) refl

-- How a generation ends in the queue.
abbrev tail_of : Option String → List Event
tail_of none = done ∷ []
tail_of (some m) = []

events_in-calls :
    (ts : List String) (failure : Option String) (last : LastTokens)
    → events_in (map pushes ts ++ ending_call failure last ∷ []) ≡ map chunk ts ++ tail_of failure
unfolding events_in ending_call
events_in-calls [] none last = refl
events_in-calls [] (some m) last = refl
events_in-calls (t ∷ ts) failure last = ap (◌∷◌ (chunk t)) (events_in-calls ts failure last)

-- A pass over a queue, and what the stream makes of it: the texts are those of the generation.
abbrev IsWhole : Option String → List String → Streamed → Type 0
IsWhole failure ts out = out.end ≡ some returned → (failure ≡ none) × (out.texts ≡ ts)

done_first :
    (failure : Option String) (ts : List String) (es : List Event)
    → done ∷ es ≡ map chunk ts ++ tail_of failure
    → (failure ≡ none) × ([] ≡ ts)
done_first none [] es h = (refl, refl)
done_first (some m) [] es h = cc
done_first failure (t ∷ ts) es h = cc

chunk_first :
    (failure : Option String) (ts : List String) (t : String) (es : List Event)
    → chunk t ∷ es ≡ map chunk ts ++ tail_of failure
    → (ts' : List String) × (ts ≡ t ∷ ts') × (es ≡ map chunk ts' ++ tail_of failure)
chunk_first none [] t es h = cc
chunk_first (some m) [] t es h = cc
chunk_first failure (x ∷ ts) t es h = (ts, cc, cc)

module _ (failure : Option String) (deadline : ℕ) where
  -- The queue and the calls to come are a generation's with these texts.
  abbrev IsComing : List String → List Event → List Round → Type 0
  IsComing ts es rs = clean es ++ events_in (calls_in rs) ≡ map chunk ts ++ tail_of failure

  take_from-IsWhole :
      (rs : List Round)
      → ((ts : List String) (s : InferenceSession)
          → IsComing ts s.events rs
          → IsWhole failure ts (stream deadline rs s))
      → (ts : List String) (es : List Event) (s : InferenceSession) → IsComing ts es rs
      → let (p, s') = take_from es s in IsWhole failure ts (resume p s' rs (stream deadline rs s'))
  unfolding take_from resume clean
  take_from-IsWhole rs h ts [] s c e = cc
  take_from-IsWhole rs h ts (error m ∷ es) s c e = cc
  take_from-IsWhole rs h ts (done ∷ es) s c e = done_first failure ts _ c
  take_from-IsWhole rs h ts (chunk t ∷ es) s c e =
      let (ts', same, rest) = chunk_first failure ts t _ c in
      let (good, texts) = h ts' (record s { events = es }) rest e in
      (good, rw same (ap (◌∷◌ t) texts))

  pass-IsWhole :
      (r : Round) (rs : List Round)
      → ((ts : List String) (s : InferenceSession)
          → IsComing ts s.events rs
          → IsWhole failure ts (stream deadline rs s))
      → (ts : List String) (s : InferenceSession) → IsComing ts s.events (r ∷ rs)
      → let (p, s') = pass deadline r s in
        IsWhole failure ts (resume p s' rs (stream deadline rs s'))
  unfolding pass take_event calls_in
  pass-IsWhole r rs h ts s c = elim (Bool-cases (leb deadline r.now)) [
    | inl late ↦ rw late (unfold resume in λ e. cc)
    | inr early ↦
        let s' = apply_all r.calls s in
        rw early (
          take_from-IsWhole rs h ts s'.events s' (
            ap (λ es. es ++ events_in (calls_in rs)) (clean-apply_all r.calls s)
            ∙ append_assoc (clean s.events) (events_in r.calls) (events_in (calls_in rs))
            ∙ ap (λ es. clean s.events ++ es) (sym (events_in-append r.calls (calls_in rs)))
            ∙ c))
  ]

  stream-IsWhole :
      (rs : List Round) (ts : List String) (s : InferenceSession)
      → IsComing ts s.events rs
      → IsWhole failure ts (stream deadline rs s)
  unfolding stream
  stream-IsWhole [] ts s c e = cc
  stream-IsWhole (r ∷ rs) ts s c e = pass-IsWhole r rs (stream-IsWhole rs) ts s c e

glue-filter : (ps : List String) → glue (filter non_empty ps) ≡ glue ps
unfolding glue filter non_empty concat
glue-filter [] = refl
glue-filter (String.[] ∷ ps) = glue-filter ps
glue-filter (String.◌∷◌ c p ∷ ps) = ap (concat (String.◌∷◌ c p)) (glue-filter ps)

-- An interactive client gets what a batch would give: when the calls that reach a new session are
-- those of a generation, however they fall into the rounds of the request's stream, and the stream
-- returns rather than fails, then the generation did not raise, and the texts received, joined,
-- are the text that `_generate_one` makes of the same generation.
pub stream-generate_one :
    (generate_stream : BatchItem → LastTokens → Stream) (item : BatchItem) (last : LastTokens)
    (deadline : ℕ) (rs : List Round) (s : InferenceSession)
    → s.events ≡ []
    → calls_in rs ≡ calls_of (generate_stream item last)
    → (stream deadline rs s).end ≡ some returned
    → let out = (generate_one generate_stream item last).0 in
      (out.error ≡ none) × (glue (stream deadline rs s).texts ≡ out.text)
unfolding generate_one output_of calls_of clean
stream-generate_one generate_stream item last deadline rs s empty same e =
    let st = generate_stream item last in
    let (good, texts) =
      stream-IsWhole st.failure deadline rs (filter non_empty st.pieces) s
        (rw (empty, same) (events_in-calls (filter non_empty st.pieces) st.failure st.last)) e in
    rw (good, output_of) (refl, ap glue texts ∙ glue-filter st.pieces)
