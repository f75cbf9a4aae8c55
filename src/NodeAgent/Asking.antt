-- ===== src/NodeAgent/Asking.antt =====
-- The room for units that the requests among a node's messages name.
use fleet_lm.Base.{
  ℕ, String, ◌≡◌, refl, ◌∙◌, List, [], ◌∷◌, ◌++◌, ◌==◌, Bool-cases, inl, inr, length, truthy,
}
use fleet_lm.Batch.Data.{Payload}
use fleet_lm.Engine.{BatchOutput}
use fleet_lm.NodeAgent.{
  Sent, work_request, Decoded, raised, outputs, report_unit, report_units, fail_units, messages_for,
}

-- The room that a message asks for, or else `before`.
unfoldable pub asks : Sent → ℕ → ℕ
asks (work_request capacity) before = capacity
asks _ before = before

-- The room that the last request for work named.
unfoldable pub last_asked : List Sent → ℕ → ℕ
last_asked [] before = before
last_asked (m ∷ ms) before = last_asked ms (asks m before)

pub last_asked-append :
    (ms ns : List Sent) (before : ℕ)
    → last_asked (ms ++ ns) before ≡ last_asked ns (last_asked ms before)
unfolding last_asked
last_asked-append [] ns before = refl
last_asked-append (m ∷ ms) ns before = last_asked-append ms ns (asks m before)

-- Reports are no requests.
asks-report_unit :
    (model : String) (u : Payload) (o : BatchOutput) (before : ℕ)
    → asks (report_unit model u o) before ≡ before
unfolding asks report_unit
asks-report_unit model u o before = elim (Bool-cases (truthy o.error)) [
  | inl e ↦ rw (e, report_unit) refl
  | inr e ↦ rw (e, report_unit) refl
]

last_asked-report_units :
    (model : String) (us : List Payload) (outs : List BatchOutput) (before : ℕ)
    → last_asked (report_units model us outs) before ≡ before
unfolding last_asked report_units
last_asked-report_units model [] outs before = refl
last_asked-report_units model (u ∷ us) [] before = refl
last_asked-report_units model (u ∷ us) (o ∷ outs) before =
    last_asked-report_units model us outs (asks (report_unit model u o) before)
    ∙ asks-report_unit model u o before

last_asked-fail_units :
    (message : String) (us : List Payload) (before : ℕ)
    → last_asked (fail_units message us) before ≡ before
unfolding last_asked fail_units asks
last_asked-fail_units message [] before = refl
last_asked-fail_units message (u ∷ us) before = last_asked-fail_units message us before

pub last_asked-messages_for :
    (model : String) (us : List Payload) (d : Decoded) (before : ℕ)
    → last_asked (messages_for model us d) before ≡ before
unfolding messages_for
last_asked-messages_for model us (raised message) before = last_asked-fail_units message us before
last_asked-messages_for model us (outputs engine_model outs) before =
    elim (Bool-cases (length outs == length us)) [
      | inl e ↦ rw (e, messages_for) (last_asked-report_units _ us outs before)
      | inr e ↦ rw (e, messages_for) (last_asked-fail_units _ us before)
    ]
