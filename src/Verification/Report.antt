-- ===== src/Verification/Report.antt =====
-- orchestrator/verification.py: the snapshots of a node's record and of the verifier. Trust and the
-- overhead are thousandths and hundredths.
use fleet_lm.Base.{
  ℕ, ◌-◌, ◌*◌, Bool, not, ◌&&◌, Option, none, some, List, map, ltb, ◌==◌, length, drop, round_div,
  values,
}
use fleet_lm.Verification.{NodeTrust, Failure, Verifier, checks, trust, is_suspect, suspects}

pub record TrustSnapshot : Type 0 where
  pub node_id : ℕ
  pub checks : ℕ
  pub passed : ℕ
  pub failed : ℕ
  pub trust : Option ℕ
  pub suspect : Bool
  pub recent_failures : List Failure

rounded_trust : Option (ℕ × ℕ) → Option ℕ
rounded_trust none = none
rounded_trust (some (passed, all)) = some (round_div (passed * 1000) all)

unfoldable pub trust_snapshot : NodeTrust → TrustSnapshot
unfolding rounded_trust
trust_snapshot t = record {
  node_id = t.node_id;
  checks = checks t;
  passed = t.passed;
  failed = t.failed;
  trust = rounded_trust (trust t);
  suspect = is_suspect t;
  recent_failures = drop (length t.failures - 5) t.failures;
}

pub record VerifierSnapshot : Type 0 where
  pub enabled : Bool
  pub canaries_configured : ℕ
  pub sample_rate : ℕ
  pub agreement_threshold : ℕ
  pub checks_run : ℕ
  pub checks_failed : ℕ
  pub replays_caught : ℕ
  pub suspect_nodes : ℕ
  pub nodes : List TrustSnapshot

unfoldable pub verifier_snapshot : Verifier → VerifierSnapshot
verifier_snapshot v = record {
  enabled = not (length v.canaries == 0) && ltb 0 v.rate;
  canaries_configured = length v.canaries;
  sample_rate = v.rate;
  agreement_threshold = v.agreement_threshold;
  checks_run = v.checks_run;
  checks_failed = v.checks_failed;
  replays_caught = v.replays_caught;
  suspect_nodes = length (suspects v.trust);
  nodes = map trust_snapshot (values v.trust);
}
