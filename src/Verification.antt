-- ===== src/Verification.antt =====
-- orchestrator/verification.py: canaries, the record kept of each node, and replay detection.
-- `hashlib` and `difflib` are parameters.
pub mod Accounts
pub mod Suspects
pub mod Overhead
pub mod Report
mod Tests
use fleet_lm.Base.{
  round_div, ℕ, zero, suc, ◌+◌, ◌*◌, ◌%◌, min, max, String, Bool, true, false, not, ◌||◌, Option,
  none, some, List, [], ◌∷◌, ◌++◌, ltb, leb, ◌==◌, if◌then◌else◌, length, Dict, lookup, insert,
  modify, normalise, non_empty, strip, len, prefix, concat,
}
use text.Mathlib.Text.{◌==◌ as text_eq}
use fleet_lm.Config.{one}

-- `hashlib.sha256(text.encode()).hexdigest()`, and `SequenceMatcher(None, a, b).ratio()` as a
-- number of millionths.
pub record Primitives : Type 0 where
  pub digest : String → String
  pub ratio : String → String → ℕ

pub record Canary : Type 0 where
  pub prompt : String
  pub expected : String
  pub model : Option String

-- Why a node's record holds a failure.
pub data Failure : Type 0 where
  wrong_answer : (canary_id : String) (score : ℕ) → Failure
  replayed : (first_unit : ℕ) → Failure

pub record NodeTrust : Type 0 where
  pub node_id : ℕ
  pub passed : ℕ
  pub failed : ℕ
  pub failures : List Failure

abbrev pub unproven : ℕ → NodeTrust
unproven node_id = record { node_id = node_id; passed = 0; failed = 0; failures = [] }

unfoldable pub checks : NodeTrust → ℕ
checks t = t.passed + t.failed

-- `passed / checks`, as a fraction.
unfoldable pub trust : NodeTrust → Option (ℕ × ℕ)
unfolding checks
trust t = if checks t == 0 then none else some (t.passed, checks t)

unfoldable pub is_suspect : NodeTrust → Bool
is_suspect t = ltb 0 t.failed

pub record Verifier : Type 0 where
  pub canaries : List Canary
  pub rate : ℕ
  pub agreement_threshold : ℕ
  pub trust : Dict NodeTrust
  pub planted : Dict Canary
  pub checks_run : ℕ
  pub checks_failed : ℕ
  pub replays_caught : ℕ
  -- Answer digest, with the digest of the prompt and the unit that it first came from.
  pub seen : List (String × String × ℕ)

-- `Verifier.__init__`
unfoldable pub new_verifier : List Canary → ℕ → ℕ → Verifier
new_verifier canaries rate threshold = record {
  canaries = canaries;
  rate = max 0 (min one rate);
  agreement_threshold = threshold;
  trust = [];
  planted = [];
  checks_run = 0;
  checks_failed = 0;
  replays_caught = 0;
  seen = [];
}

unfoldable pub canary_count : ℕ → Verifier → ℕ
unfolding round_div
canary_count batch_size v =
    if length v.canaries == 0 || v.rate == 0 || batch_size == 0
    then 0
    else max 1 (round_div (batch_size * v.rate) one)

-- The element at an index, as a list of at most one.
elem_at : ℕ → List Canary → List Canary
elem_at i [] = []
elem_at zero (c ∷ cs) = c ∷ []
elem_at (suc i) (c ∷ cs) = elem_at i cs

-- `[canaries[i % len(canaries)] for i in range(start, start + count)]`
cycle_from : ℕ → ℕ → List Canary → List Canary
cycle_from start zero canaries = []
cycle_from start (suc count) canaries =
    elem_at (start % length canaries) canaries ++ cycle_from (suc start) count canaries

unfoldable pub select : ℕ → Verifier → List Canary
unfolding canary_count elem_at cycle_from
select batch_size v = cycle_from 0 (canary_count batch_size v) v.canaries

unfoldable pub register : ℕ → Canary → Verifier → Verifier
register unit_id canary v = record v { planted = insert unit_id canary v.planted }

unfoldable pub is_canary : ℕ → Verifier → Bool
is_canary unit_id v = elim (lookup unit_id v.planted) [ none ↦ false | some _ ↦ true ]

-- `trust.setdefault(node_id, NodeTrust(node_id))`, and a change of the record found or made.
unfoldable pub on_record : ℕ → (NodeTrust → NodeTrust) → Dict NodeTrust → Dict NodeTrust
on_record node_id f d = elim (lookup node_id d) [
  | none ↦ insert node_id (f (unproven node_id)) d
  | some _ ↦ modify node_id f d
]

note_pass : NodeTrust → NodeTrust
note_pass t = record t { passed = t.passed + 1 }

note_failure : Failure → NodeTrust → NodeTrust
note_failure why t = record t { failed = t.failed + 1; failures = t.failures ++ why ∷ [] }

pub record Verdict : Type 0 where
  pub unit_id : ℕ
  pub canary_id : String
  pub node_id : ℕ
  pub agreement : ℕ
  pub passed : Bool

-- `_seen.setdefault(answer, first)`
first_seen : String → String × ℕ → List (String × String × ℕ) → Option (String × ℕ)
first_seen answer first [] = none
first_seen answer first ((a, p, u) ∷ seen) =
    if text_eq answer a then some (p, u) else first_seen answer first seen

module _ (lib : Primitives) where
  open lib use {digest, ratio}

  unfoldable pub agreement : String → String → ℕ
  agreement a b =
      let left = normalise a in
      let right = normalise b in
      if text_eq left right
      then one
      else if not (non_empty left) || not (non_empty right)
      then 0
      else ratio left right

  -- `f"{model}\x00{prompt}\x00{expected}"`, hashed, its first twelve digits.
  unfoldable pub canary_id : Canary → String
  canary_id c = prefix 12 (
      digest
        (concat (show c.model) (concat zero_byte (concat c.prompt (concat zero_byte c.expected)))))
    where
      show : Option String → String
      show none = "None"
      show (some m) = m

      zero_byte : String
      zero_byte = "\0"

  -- What a canary's answer does to the verifier.
  unfoldable pub judge : Canary → ℕ → String → Verifier → Bool × ℕ × Verifier
  unfolding note_pass note_failure
  judge canary node_id text v =
      let score = agreement canary.expected text in
      if leb v.agreement_threshold score
      then (
        true,
        score,
        record v { checks_run = v.checks_run + 1; trust = on_record node_id note_pass v.trust },
      )
      else (
        false,
        score,
        record v {
          checks_run = v.checks_run + 1;
          checks_failed = v.checks_failed + 1;
          trust = on_record node_id (note_failure (wrong_answer (canary_id canary) score)) v.trust;
        },
      )

  unfoldable pub check : ℕ → ℕ → String → Verifier → Option Verdict × Verifier
  unfolding judge
  check unit_id node_id text v = elim (lookup unit_id v.planted) [
    | none ↦ (none, v)
    | some canary ↦
        let (passed, score, v') = judge canary node_id text v in
        (
          some (record {
            unit_id = unit_id;
            canary_id = canary_id canary;
            node_id = node_id;
            agreement = score;
            passed = passed;
          }),
          v',
        )
  ]

  unfoldable pub note_replay : ℕ → ℕ → String → String → Verifier → Bool × Verifier
  unfolding first_seen note_failure
  note_replay unit_id node_id text prompt v =
      let answer_fp = digest (normalise text) in
      let prompt_fp = digest (normalise prompt) in
      if ltb (len (strip text)) 40
      then (false, v)
      else elim (first_seen answer_fp (prompt_fp, unit_id) v.seen) [
        | none ↦ (false, record v { seen = v.seen ++ (answer_fp, prompt_fp, unit_id) ∷ [] })
        | some (first_prompt, first_unit) ↦ if text_eq first_prompt prompt_fp then (false, v) else (
          true,
          record v {
            replays_caught = v.replays_caught + 1;
            trust = on_record node_id (note_failure (replayed first_unit)) v.trust;
          },
        )
      ]

-- `suspects`
unfoldable pub suspects : Dict NodeTrust → List ℕ
unfolding is_suspect
suspects [] = []
suspects ((node_id, t) ∷ d) = let rest = suspects d in if is_suspect t then node_id ∷ rest else rest

-- `overhead_pct`, in hundredths of a percent.
unfoldable pub overhead_pct : ℕ → Verifier → ℕ
unfolding round_div
overhead_pct real_units v =
    if real_units == 0 then 0 else round_div (10_000 * v.checks_run) real_units
