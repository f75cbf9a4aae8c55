-- ===== src/Session/Waiting/Rounds.antt =====
-- The loop with its clock against `stream`, which has none.
use fleet_lm.Base.{ℕ, ◌≡◌, List, [], ◌++◌, map}
use fleet_lm.Session.Data.{InferenceSession}
use fleet_lm.Session.Stream.{NodeCall, apply_all, calls_in, Round, stream}
use fleet_lm.Session.Waiting.{Arrivals, Clocked}

-- The calls without their times.
abbrev pub calls_of_arrivals : Arrivals → List NodeCall
calls_of_arrivals = map (λ a. a.1)

-- A session after the first of the arrivals, the others being still to come.
abbrev HasTaken : Arrivals → InferenceSession → InferenceSession → Arrivals → Type 0
HasTaken arrivals s s' later =
    (cs : List NodeCall) × (calls_of_arrivals arrivals ≡ cs ++ calls_of_arrivals later)
    × (s' ≡ apply_all cs s)

module _ (deadline patience : ℕ) where
  -- The rounds take the first calls of the arrivals, and `stream` makes of them what the clock did.
  abbrev pub IsRun : Arrivals → InferenceSession → Clocked → Type 0
  IsRun arrivals s out =
      (rs : List Round) × (rest : List NodeCall) × (calls_of_arrivals arrivals
        ≡ calls_in rs ++ rest)
      × (stream deadline rs s
          ≡ record { texts = out.texts; end = out.end; session = out.session; unused = [] })
