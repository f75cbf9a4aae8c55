-- ===== src/Session/Delivery.antt =====
-- What a request receives of the chunks that its node pushes.
use mathlib.Core.List.{append-nil, append_assoc}
use fleet_lm.Base.{
  ℕ, String, ◌≡◌, refl, List, [], ◌∷◌, ◌++◌, leb, Bool-cases, inl, inr, ap, sym, ◌∙◌,
}
use fleet_lm.Session.Data.{InferenceSession, Event, chunk, done, error, is_closed}
use fleet_lm.Session.Inference.{put, push_chunk, complete, fail}
use fleet_lm.Session.Stream.{
  NodeCall, pushes, completes, fails, apply, apply_all, Round, Pass, yields, ends, Streamed,
  take_from, take_event, pass, resume, stream,
}

-- The texts of the chunks in a queue.
unfoldable pub texts_of : List Event → List String
texts_of [] = []
texts_of (chunk t ∷ es) = t ∷ texts_of es
texts_of (_ ∷ es) = texts_of es

-- The texts that calls push.
unfoldable pub pushed : List NodeCall → List String
pushed [] = []
pushed (pushes t ∷ cs) = t ∷ pushed cs
pushed (_ ∷ cs) = pushed cs

unfoldable pub pushed_in : List Round → List String
pushed_in [] = []
pushed_in (r ∷ rs) = pushed r.calls ++ pushed_in rs

texts_of-append : (es fs : List Event) → texts_of (es ++ fs) ≡ texts_of es ++ texts_of fs
unfolding texts_of
texts_of-append [] fs = refl
texts_of-append (chunk t ∷ es) fs = ap (λ ts. t ∷ ts) (texts_of-append es fs)
texts_of-append (done ∷ es) fs = texts_of-append es fs
texts_of-append (error m ∷ es) fs = texts_of-append es fs

texts_of-fail : (m : String) (s : InferenceSession) → texts_of (fail m s).events ≡ texts_of s.events
unfolding fail put texts_of
texts_of-fail m s = elim (Bool-cases (is_closed s.state)) [
  | inl e ↦ rw e refl
  | inr e ↦ rw (e, texts_of-append s.events (error m ∷ []), append-nil) refl
]

texts_of-apply_all :
    (cs : List NodeCall) (s : InferenceSession)
    → texts_of (apply_all cs s).events ≡ texts_of s.events ++ pushed cs
unfolding apply_all apply push_chunk complete put pushed texts_of
texts_of-apply_all [] s = sym (append-nil (texts_of s.events))
texts_of-apply_all (pushes t ∷ cs) s =
    rw
      (
        texts_of-apply_all cs (push_chunk t s),
        texts_of-append s.events (chunk t ∷ []),
        append_assoc,
      )
      refl
texts_of-apply_all (completes f p c ∷ cs) s =
    rw (texts_of-apply_all cs (complete f p c s), texts_of-append s.events (done ∷ []), append-nil)
      refl
texts_of-apply_all (fails m ∷ cs) s = rw (texts_of-apply_all cs (fail m s), texts_of-fail m s) refl

-- What a pass yields.
received : Pass → List String
received (yields t) = t ∷ []
received (ends e) = []

received-take_from :
    (es : List Event) (s : InferenceSession)
    → s.events ≡ es
    → received (take_from es s).0 ++ texts_of (take_from es s).1.events ≡ texts_of es
unfolding received take_from texts_of
received-take_from [] s e = texts_of-fail "no output from node" s ∙ ap texts_of e
received-take_from (chunk t ∷ es) s e = refl
received-take_from (done ∷ es) s e = refl
received-take_from (error m ∷ es) s e = refl

received-pass :
    (deadline : ℕ) (r : Round) (s : InferenceSession)
    → received (pass deadline r s).0 ++ texts_of (pass deadline r s).1.events
      ≡ texts_of s.events ++ pushed r.calls
unfolding received pass take_event
received-pass deadline r s = elim (Bool-cases (leb deadline r.now)) [
  | inl e ↦
      rw e
        (texts_of-fail "generation timed out" (apply_all r.calls s) ∙ texts_of-apply_all r.calls s)
  | inr e ↦ rw e (
      received-take_from (apply_all r.calls s).events (apply_all r.calls s) refl
      ∙ texts_of-apply_all r.calls s)
]

-- The texts that are accounted for once a stream stops.
abbrev pub accounted : Streamed → List String
accounted out = out.texts ++ (texts_of out.session.events ++ pushed_in out.unused)

accounted-resume :
    (p : Pass) (s : InferenceSession) (rs : List Round) (rest : Streamed)
    → accounted rest ≡ texts_of s.events ++ pushed_in rs
    → accounted (resume p s rs rest) ≡ received p ++ (texts_of s.events ++ pushed_in rs)
unfolding resume received
accounted-resume (yields t) s rs rest h = ap (λ ts. t ∷ ts) h
accounted-resume (ends e) s rs rest h = refl

-- No chunk is lost, doubled or reordered on its way: however the rounds fall, the texts that a
-- request has received, then those still in its queue, then those that nodes push in the rounds it
-- did not reach, are the texts of the queue it started with and then all that nodes push.
pub stream-delivers :
    (deadline : ℕ) (rs : List Round) (s : InferenceSession)
    → accounted (stream deadline rs s) ≡ texts_of s.events ++ pushed_in rs
unfolding stream pushed_in
stream-delivers deadline [] s = refl
stream-delivers deadline (r ∷ rs) s =
    let (p, s') = pass deadline r s in
    accounted-resume p s' rs (stream deadline rs s') (stream-delivers deadline rs s')
    ∙ sym (append_assoc (received p) (texts_of s'.events) (pushed_in rs))
    ∙ ap (λ ts. ts ++ pushed_in rs) (received-pass deadline r s)
    ∙ append_assoc (texts_of s.events) (pushed r.calls) (pushed_in rs)
