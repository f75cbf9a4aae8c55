-- ===== src/Verification/Accounts.antt =====
-- The verifier's books: what its counters and the nodes' records say of the checks it made.
use fleet_lm.Base.{
  ℕ, ◌+◌, String, none, some, ◌≡◌, refl, List, [], ◌∷◌, leb, ltb, Bool-cases, Option-cases, inl,
  inr, arith, Dict, lookup, insert, modify, normalise, strip, len,
}
use text.Mathlib.Text.{◌==◌ as text_eq}
use fleet_lm.Verification.{
  Primitives, Canary, NodeTrust, Failure, unproven, Verifier, note_pass, note_failure, on_record,
  judge, check, note_replay, register, new_verifier, agreement, canary_id, wrong_answer, replayed,
  first_seen,
}

-- A number of each node's record, over all nodes.
unfoldable pub total : (NodeTrust → ℕ) → Dict NodeTrust → ℕ
total amount [] = 0
total amount ((k, t) ∷ d) = amount t + total amount d

module _ (amount : NodeTrust → ℕ) (f : NodeTrust → NodeTrust) (n node_id : ℕ)
    (grows : (t : NodeTrust) → amount (f t) ≡ amount t + n) where
  total-insert :
      (d : Dict NodeTrust) (t : NodeTrust)
      → lookup node_id d ≡ none
      → total amount (insert node_id t d) ≡ total amount d + amount t
  unfolding total insert lookup
  total-insert [] t h = omega arith
  total-insert ((k, w) ∷ d) t h = ground (arith, total-insert d t)

  total-modify :
      (d : Dict NodeTrust) (t : NodeTrust)
      → lookup node_id d ≡ some t
      → total amount (modify node_id f d) ≡ total amount d + n
  unfolding total modify lookup
  total-modify [] t h = cc
  total-modify ((k, w) ∷ d) t h = ground (arith, total-modify d t, grows w)

  total-on_record :
      (d : Dict NodeTrust)
      → amount (unproven node_id) ≡ 0
      → total amount (on_record node_id f d) ≡ total amount d + n
  unfolding on_record
  total-on_record d z = elim (Option-cases (lookup node_id d)) [
    | inl e ↦ ground (arith, total-insert d (f (unproven node_id)) e, grows (unproven node_id))
    | inr (t, e) ↦ ground (arith, total-modify d t e)
  ]

-- What a pass and a failure do to the numbers of passes and of failures.
module _ (node_id : ℕ) (d : Dict NodeTrust) where
  passed-pass : total (λ t. t.passed) (on_record node_id note_pass d) ≡ total (λ t. t.passed) d + 1
  unfolding note_pass
  passed-pass = total-on_record (λ t. t.passed) note_pass 1 node_id (λ t. refl) d refl

  failed-pass : total (λ t. t.failed) (on_record node_id note_pass d) ≡ total (λ t. t.failed) d + 0
  unfolding note_pass
  failed-pass = total-on_record (λ t. t.failed) note_pass 0 node_id (λ t. omega arith) d refl

  passed-failure :
      (why : Failure)
      → total (λ t. t.passed) (on_record node_id (note_failure why) d) ≡ total (λ t. t.passed) d + 0
  unfolding note_failure
  passed-failure why =
      total-on_record (λ t. t.passed) (note_failure why) 0 node_id (λ t. omega arith) d refl

  failed-failure :
      (why : Failure)
      → total (λ t. t.failed) (on_record node_id (note_failure why) d) ≡ total (λ t. t.failed) d + 1
  unfolding note_failure
  failed-failure why =
      total-on_record (λ t. t.failed) (note_failure why) 1 node_id (λ t. refl) d refl

-- The books balance: each check is a pass or a failure of one node, and each failure of a node is a
-- failed check or a replay.
pub record IsBalanced (v : Verifier) : Type 0 where
  pub passes : total (λ t. t.passed) v.trust + v.checks_failed ≡ v.checks_run
  pub failures : total (λ t. t.failed) v.trust ≡ v.checks_failed + v.replays_caught

-- What the batch store asks of the verifier.
pub data Deed : Type 0 where
  registers : (unit_id : ℕ) (canary : Canary) → Deed
  checks : (unit_id node_id : ℕ) (text : String) → Deed
  notes : (unit_id node_id : ℕ) (text prompt : String) → Deed

module _ (lib : Primitives) where
  unfoldable pub do_deed : Deed → Verifier → Verifier
  do_deed (registers unit_id canary) v = register unit_id canary v
  do_deed (checks unit_id node_id text) v = (check lib unit_id node_id text v).1
  do_deed (notes unit_id node_id text prompt) v = (note_replay lib unit_id node_id text prompt v).1

  unfoldable pub do_all : List Deed → Verifier → Verifier
  do_all [] v = v
  do_all (d ∷ ds) v = do_all ds (do_deed d v)

  judge-IsBalanced :
      (canary : Canary) (node_id : ℕ) (text : String) (v : Verifier)
      → IsBalanced v
      → IsBalanced (judge lib canary node_id text v).2
  unfolding judge
  judge-IsBalanced canary node_id text v b =
      let score = agreement lib canary.expected text in
      elim (Bool-cases (leb v.agreement_threshold score)) [
        | inl e ↦ rw e (record {
          passes = omega (arith, b.passes, passed-pass node_id v.trust);
          failures = omega (arith, b.failures, failed-pass node_id v.trust);
        })
        | inr e ↦
            let why = wrong_answer (canary_id lib canary) score in
            rw e (record {
              passes = omega (arith, b.passes, passed-failure node_id v.trust why);
              failures = omega (arith, b.failures, failed-failure node_id v.trust why);
            })
      ]

  check-IsBalanced :
      (unit_id node_id : ℕ) (text : String) (v : Verifier)
      → IsBalanced v
      → IsBalanced (check lib unit_id node_id text v).1
  unfolding check
  check-IsBalanced unit_id node_id text v b = elim (Option-cases (lookup unit_id v.planted)) [
    | inl e ↦ rw (e, check) b
    | inr (canary, e) ↦ rw (e, check) (judge-IsBalanced canary node_id text v b)
  ]

  replayed-IsBalanced :
      (first_unit node_id : ℕ) (v : Verifier)
      → IsBalanced v
      → IsBalanced (record v {
        replays_caught = v.replays_caught + 1;
        trust = on_record node_id (note_failure (replayed first_unit)) v.trust;
      })
  replayed-IsBalanced first_unit node_id v b = record {
    passes = omega (arith, b.passes, passed-failure node_id v.trust (replayed first_unit));
    failures = omega (arith, b.failures, failed-failure node_id v.trust (replayed first_unit));
  }

  note_replay-IsBalanced :
      (unit_id node_id : ℕ) (text prompt : String) (v : Verifier)
      → IsBalanced v
      → IsBalanced (note_replay lib unit_id node_id text prompt v).1
  unfolding note_replay
  note_replay-IsBalanced unit_id node_id text prompt v b =
      let answer_fp = lib.digest (normalise text) in
      let prompt_fp = lib.digest (normalise prompt) in
      elim (Bool-cases (ltb (len (strip text)) 40)) [
        | inl e ↦ rw e b
        | inr e ↦ elim (Option-cases (first_seen answer_fp (prompt_fp, unit_id) v.seen)) [
          | inl q ↦ rw (e, q) (record { passes = b.passes; failures = b.failures })
          | inr (f, q) ↦ elim (Bool-cases (text_eq f.0 prompt_fp)) [
            | inl same ↦ rw (e, q, same) b
            | inr other ↦ rw (e, q, other) (replayed-IsBalanced f.1 node_id v b)
          ]
        ]
      ]

  do_deed-IsBalanced : (d : Deed) (v : Verifier) → IsBalanced v → IsBalanced (do_deed d v)
  unfolding do_deed register
  do_deed-IsBalanced (registers unit_id canary) v b = record {
    passes = b.passes;
    failures = b.failures;
  }
  do_deed-IsBalanced (checks unit_id node_id text) v b = check-IsBalanced unit_id node_id text v b
  do_deed-IsBalanced (notes unit_id node_id text prompt) v b =
      note_replay-IsBalanced unit_id node_id text prompt v b

  do_all-IsBalanced_from : (ds : List Deed) (v : Verifier) → IsBalanced v → IsBalanced (do_all ds v)
  unfolding do_all
  do_all-IsBalanced_from [] v b = b
  do_all-IsBalanced_from (d ∷ ds) v b =
      do_all-IsBalanced_from ds (do_deed d v) (do_deed-IsBalanced d v b)

  -- From its start, whatever canaries are registered and answers judged, the books of the verifier
  -- balance: the nodes' passes and the failed checks add up to the checks run, and the failures held
  -- against nodes are the failed checks and the replays caught.
  pub do_all-IsBalanced :
      (ds : List Deed) (canaries : List Canary) (rate threshold : ℕ)
      → IsBalanced (do_all ds (new_verifier canaries rate threshold))
  unfolding new_verifier total
  do_all-IsBalanced ds canaries rate threshold =
      do_all-IsBalanced_from ds (new_verifier canaries rate threshold)
        (record { passes = omega arith; failures = omega arith })
