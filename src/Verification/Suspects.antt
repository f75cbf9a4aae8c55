-- ===== src/Verification/Suspects.antt =====
-- Which nodes are suspects: those that were caught.
use fleet_lm.Base.{
  ℕ, ◌+◌, String, Bool, true, false, not, ◌&&◌, ◌||◌, Option, none, some, ◌≡◌, ◌⊎◌, ap, refl, sym,
  ◌∙◌, List, [], ◌∷◌, leb, ltb, ◌==◌, if◌then◌else◌, Bool-cases, Option-cases, inl, inr, arith,
  Dict, Distinct, contains, keys, lookup, modify, lookup-insert, lookup-modify, insert-Distinct,
  keys-modify, subst, normalise, strip, len,
}
use text.Mathlib.Text.{◌==◌ as text_eq}
use fleet_lm.Verification.{
  Primitives, Canary, NodeTrust, Failure, unproven, is_suspect, Verifier, Verdict, note_pass,
  note_failure, on_record, judge, check, note_replay, register, new_verifier, agreement, canary_id,
  wrong_answer, replayed, first_seen, suspects,
}
use fleet_lm.Verification.Accounts.{Deed, registers, checks, notes, do_deed, do_all}

-- How often a node failed.
abbrev faults_in : Option NodeTrust → ℕ
faults_in none = 0
faults_in (some t) = t.failed

abbrev pub faults : ℕ → Dict NodeTrust → ℕ
faults k d = faults_in (lookup k d)

-- The record that a change is made to.
abbrev record_or : ℕ → Option NodeTrust → NodeTrust
record_or node_id none = unproven node_id
record_or node_id (some t) = t

lookup-on_record :
    (k node_id : ℕ) (f : NodeTrust → NodeTrust) (d : Dict NodeTrust)
    → lookup k (on_record node_id f d)
      ≡ (if k == node_id then some (f (record_or node_id (lookup node_id d))) else lookup k d)
unfolding on_record
lookup-on_record k node_id f d = elim (Option-cases (lookup node_id d)) [
  | inl e ↦ rw (e, on_record) (lookup-insert k node_id (f (unproven node_id)) d)
  | inr (t, e) ↦ rw (e, on_record) (modified (Bool-cases (k == node_id)) t e)
]
  where
    modified :
        ((k == node_id) ≡ true) ⊎ ((k == node_id) ≡ false)
        → (t : NodeTrust) → lookup node_id d ≡ some t
        → lookup k (modify node_id f d) ≡ (if k == node_id then some (f t) else lookup k d)
    modified c t e = ground (arith, lookup-modify k node_id f d)

faults_or : (node_id : ℕ) (o : Option NodeTrust) → (record_or node_id o).failed ≡ faults_in o
faults_or node_id none = refl
faults_or node_id (some t) = refl

faults-pass :
    (k node_id : ℕ) (d : Dict NodeTrust) → faults k (on_record node_id note_pass d) ≡ faults k d
unfolding note_pass
faults-pass k node_id d = elim (Bool-cases (k == node_id)) [
  | inl at ↦
      let same : k ≡ node_id = ground arith in
      rw (lookup-on_record k node_id note_pass d, at, same) (faults_or node_id (lookup node_id d))
  | inr off ↦ rw (lookup-on_record k node_id note_pass d, off) refl
]

faults-failure :
    (k node_id : ℕ) (why : Failure) (d : Dict NodeTrust)
    → faults k (on_record node_id (note_failure why) d)
      ≡ (if k == node_id then faults k d + 1 else faults k d)
unfolding note_failure
faults-failure k node_id why d = elim (Bool-cases (k == node_id)) [
  | inl at ↦
      let same : k ≡ node_id = ground arith in
      rw (lookup-on_record k node_id (note_failure why) d, at, same)
        (ap (λ n. n + 1) (faults_or node_id (lookup node_id d)))
  | inr off ↦ rw (lookup-on_record k node_id (note_failure why) d, off) refl
]

on_record-Distinct :
    (node_id : ℕ) (f : NodeTrust → NodeTrust) (d : Dict NodeTrust)
    → Distinct (keys d)
    → Distinct (keys (on_record node_id f d))
unfolding on_record
on_record-Distinct node_id f d u = elim (Option-cases (lookup node_id d)) [
  | inl e ↦ rw (on_record, e) (insert-Distinct node_id (f (unproven node_id)) d u)
  | inr (t, e) ↦ rw (on_record, e) (subst (λ ks. Distinct ks) (sym (keys-modify node_id f d)) u)
]

unlisted :
    (k : ℕ) (d : Dict NodeTrust) → contains k (keys d) ≡ false → contains k (suspects d) ≡ false
unfolding suspects is_suspect keys contains
unlisted k [] h = refl
unlisted k ((j, t) ∷ d) h = ground (arith, unlisted k d)

contains-suspects :
    (k : ℕ) (d : Dict NodeTrust) → Distinct (keys d) → contains k (suspects d) ≡ ltb 0 (faults k d)
unfolding suspects is_suspect keys contains lookup
contains-suspects k [] u = refl
contains-suspects k ((j, t) ∷ d) u = elim (Bool-cases (k == j)) [
  | inl at ↦
      let same : k ≡ j = ground arith in
      let rest : contains k (suspects d) ≡ false = rw same (unlisted j d u.0) in
      ground (arith, rest)
  | inr off ↦ ground (arith, contains-suspects k d u.1)
]

module _ (lib : Primitives) (k : ℕ) where
  -- What `check` and `note_replay` answer about the node's text.
  failed_verdict : Option Verdict → Bool
  failed_verdict none = false
  failed_verdict (some verdict) = (k == verdict.node_id) && not verdict.passed

  unfoldable pub caught : Deed → Verifier → Bool
  unfolding failed_verdict
  caught (registers unit_id canary) v = false
  caught (checks unit_id node_id text) v = failed_verdict (check lib unit_id node_id text v).0
  caught (notes unit_id node_id text prompt) v =
      (k == node_id) && (note_replay lib unit_id node_id text prompt v).0

  -- Whether the node was caught in the course of the deeds.
  unfoldable pub caught_in : List Deed → Verifier → Bool
  caught_in [] v = false
  caught_in (d ∷ ds) v = caught d v || caught_in ds (do_deed lib d v)

  -- The node's record is bad, or becomes so.
  abbrev Counts : Deed → Verifier → Verifier → Type 0
  Counts d v v' =
      (ltb 0 (faults k v'.trust) ≡ (ltb 0 (faults k v.trust) || caught d v))
      × (Distinct (keys v.trust) → Distinct (keys v'.trust))

  check-Counts :
      (unit_id node_id : ℕ) (text : String) (v : Verifier)
      → Counts (checks unit_id node_id text) v (check lib unit_id node_id text v).1
  unfolding caught check judge failed_verdict
  check-Counts unit_id node_id text v = elim (Option-cases (lookup unit_id v.planted)) [
    | inl e ↦ rw (e, check) (ground arith, λ u. u)
    | inr (canary, e) ↦
        let score = agreement lib canary.expected text in
        elim (Bool-cases (leb v.agreement_threshold score)) [
          | inl p ↦
              rw (e, check, p)
                (
                  ground (arith, faults-pass k node_id v.trust),
                  on_record-Distinct node_id note_pass v.trust,
                )
          | inr p ↦
              let why = wrong_answer (canary_id lib canary) score in
              rw (e, check, p)
                (
                  ground (arith, faults-failure k node_id why v.trust),
                  on_record-Distinct node_id (note_failure why) v.trust,
                )
        ]
  ]

  note_replay-Counts :
      (unit_id node_id : ℕ) (text prompt : String) (v : Verifier)
      → Counts
          (notes unit_id node_id text prompt)
          v
          (note_replay lib unit_id node_id text prompt v).1
  unfolding caught note_replay
  note_replay-Counts unit_id node_id text prompt v =
      let answer_fp = lib.digest (normalise text) in
      let prompt_fp = lib.digest (normalise prompt) in
      elim (Bool-cases (ltb (len (strip text)) 40)) [
        | inl e ↦ rw e (ground arith, λ u. u)
        | inr e ↦ elim (Option-cases (first_seen answer_fp (prompt_fp, unit_id) v.seen)) [
          | inl q ↦ rw (e, q) (ground arith, λ u. u)
          | inr (f, q) ↦ elim (Bool-cases (text_eq f.0 prompt_fp)) [
            | inl same ↦ rw (e, q, same) (ground arith, λ u. u)
            | inr other ↦
                rw (e, q, other)
                  (
                    ground (arith, faults-failure k node_id (replayed f.1) v.trust),
                    on_record-Distinct node_id (note_failure (replayed f.1)) v.trust,
                  )
          ]
        ]
      ]

  do_deed-Counts : (d : Deed) (v : Verifier) → Counts d v (do_deed lib d v)
  unfolding do_deed register
  do_deed-Counts (registers unit_id canary) v = unfold caught in (ground arith, λ u. u)
  do_deed-Counts (checks unit_id node_id text) v = check-Counts unit_id node_id text v
  do_deed-Counts (notes unit_id node_id text prompt) v =
      note_replay-Counts unit_id node_id text prompt v

  faults-do_all :
      (ds : List Deed) (v : Verifier)
      → ltb 0 (faults k (do_all lib ds v).trust) ≡ (ltb 0 (faults k v.trust) || caught_in ds v)
  unfolding do_all caught_in
  faults-do_all [] v = ground arith
  faults-do_all (d ∷ ds) v =
      let (now, kept) = do_deed-Counts d v in
      faults-do_all ds (do_deed lib d v) ∙ ground (arith, now)

  do_all-Distinct :
      (ds : List Deed) (v : Verifier)
      → Distinct (keys v.trust)
      → Distinct (keys (do_all lib ds v).trust)
  unfolding do_all
  do_all-Distinct [] v u = u
  do_all-Distinct (d ∷ ds) v u = do_all-Distinct ds (do_deed lib d v) ((do_deed-Counts d v).1 u)

  -- From the start of a verifier, whatever canaries are registered and answers judged, a node is
  -- among the suspects exactly when one of its answers failed a canary or was reported as a replay,
  -- however many it passed before or after.
  pub suspects_were_caught :
      (ds : List Deed) (canaries : List Canary) (rate threshold : ℕ)
      → let v = new_verifier canaries rate threshold in
        contains k (suspects (do_all lib ds v).trust) ≡ caught_in ds v
  unfolding new_verifier lookup keys
  suspects_were_caught ds canaries rate threshold =
      let v = new_verifier canaries rate threshold in
      contains-suspects k (do_all lib ds v).trust (do_all-Distinct ds v tt) ∙ faults-do_all ds v
