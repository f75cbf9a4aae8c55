-- ===== src/Batch/Totals.antt =====
-- What `counts` and `results` tell of a batch.
use fleet_lm.Base.{
  ℕ, ◌+◌, Bool, true, some, ◌≡◌, refl, sym, ◌∙◌, List, [], ◌∷◌, map, ltb, if◌then◌else◌, length,
  length-map, count_if, contains, lookup, Dict, Option-cases, inl, inr, arith, sort_by,
  length-sort_by, ap,
}
use fleet_lm.Batch.Data.{
  WorkUnit, Batch, BatchStore, UnitState, is_open, is_in_progress, result_record,
}
use fleet_lm.Batch.Report.{any_open, open_unit}
use fleet_lm.Batch.Status.{known_units, Tally, no_units, bump, tally, Counts, counts, results}
use fleet_lm.Batch.Valid.Defs.{Valid, contains-members}

abbrev all_units : Tally → ℕ
all_units t = t.completed + t.failed + t.in_flight + t.pending

-- The units that a client sees as waiting or under way.
abbrev pub unfinished : Tally → ℕ
unfinished t = t.in_flight + t.pending

bump_lem :
    (st : UnitState) (t : Tally)
    → (all_units (bump st t) ≡ all_units t + 1)
      × (unfinished (bump st t) ≡ (if is_open st then unfinished t + 1 else unfinished t))
unfolding bump
bump_lem UnitState.pending t = (omega arith, omega arith)
bump_lem UnitState.leased t = (omega arith, omega arith)
bump_lem UnitState.complete t = (omega arith, refl)
bump_lem UnitState.failed t = (omega arith, refl)

abbrev is_open_unit : WorkUnit → Bool
is_open_unit u = is_open u.state

all_units-tally :
    (us : List WorkUnit) (t : Tally) → all_units (tally us t) ≡ length us + all_units t
unfolding tally
all_units-tally [] t = omega arith
all_units-tally (u ∷ us) t =
    omega (arith, all_units-tally us (bump u.state t), (bump_lem u.state t).0)

unfinished-tally :
    (us : List WorkUnit) (t : Tally)
    → unfinished (tally us t) ≡ count_if is_open_unit us + unfinished t
unfolding tally count_if
unfinished-tally [] t = omega arith
unfinished-tally (u ∷ us) t =
    ground (arith, unfinished-tally us (bump u.state t), (bump_lem u.state t).1)

-- Each identifier of the list has a unit.
abbrev AllKnown : List ℕ → Dict WorkUnit → Type 0
AllKnown uids units = (k : ℕ) → contains k uids ≡ true → (u : WorkUnit) × (lookup k units ≡ some u)

AllKnown-tail :
    (uid : ℕ) (uids : List ℕ) (units : Dict WorkUnit)
    → AllKnown (uid ∷ uids) units
    → AllKnown uids units
unfolding contains
AllKnown-tail uid uids units h k c = h k (ground arith)

length-known_units :
    (uids : List ℕ) (units : Dict WorkUnit)
    → AllKnown uids units
    → length (known_units uids units) ≡ length uids
unfolding known_units contains
length-known_units [] units h = refl
length-known_units (uid ∷ uids) units h =
    let (u, e) = h uid (ground arith) in
    ground (arith, e, length-known_units uids units (AllKnown-tail uid uids units h))

count_if-known_units :
    (uids : List ℕ) (units : Dict WorkUnit)
    → ltb 0 (count_if is_open_unit (known_units uids units)) ≡ any_open uids units
unfolding known_units any_open open_unit count_if
count_if-known_units [] units = refl
count_if-known_units (uid ∷ uids) units =
    let below = count_if-known_units uids units in
    elim (Option-cases (lookup uid units)) [
      | inl e ↦ ground (arith, below)
      | inr (u, e) ↦ ground (arith, below)
    ]

-- The counts of a batch, when they are right: every unit that was submitted is counted once, and
-- the batch is in progress exactly while some unit waits or is under way.
pub record IsTrue (batch : Batch) (c : Counts) : Type 0 where
  pub total : c.total ≡ length batch.unit_ids
  pub adds_up : c.tally.completed + c.tally.failed + c.tally.in_flight + c.tally.pending ≡ c.total
  pub settled : is_in_progress batch.state ≡ ltb 0 (c.tally.in_flight + c.tally.pending)

-- In a valid store, `counts` of a batch gives as the total the number of its requests, the four
-- states add up to it, and units are waiting or under way exactly while the batch is in progress.
pub counts-IsTrue :
    (b : ℕ) (batch : Batch) (s : BatchStore)
    → Valid s
    → lookup b s.batches ≡ some batch
    → (c : Counts) × (counts b s ≡ some c) × IsTrue batch c
unfolding counts
counts-IsTrue b batch s v h =
    let known : AllKnown batch.unit_ids s.units =
      λ k c. (let (u, e, o) = v.owned b batch k h (contains-members k batch c) in (u, e)) in
    let us = known_units batch.unit_ids s.units in
    (
      record { total = length batch.unit_ids; tally = tally us no_units },
      rw (h, counts) refl,
      record {
        total = refl;
        adds_up =
            omega
              (arith, all_units-tally us no_units, length-known_units batch.unit_ids s.units known);
        settled =
            v.settled b batch h
            ∙ sym (count_if-known_units batch.unit_ids s.units)
            ∙ ap (ltb 0) (ground (arith, unfinished-tally us no_units));
      },
    )

-- In a valid store, the results of a batch have one record for each of its requests.
pub length-results :
    (b : ℕ) (batch : Batch) (s : BatchStore)
    → Valid s
    → lookup b s.batches ≡ some batch
    → length (results b s) ≡ length batch.unit_ids
unfolding results
length-results b batch s v h =
    let known : AllKnown batch.unit_ids s.units =
      λ k c. (let (u, e, o) = v.owned b batch k h (contains-members k batch c) in (u, e)) in
    let us = known_units batch.unit_ids s.units in
    let listed : results b s ≡ map result_record (sort_by (λ u. u.index) us) =
      rw (h, results) refl in
    ap length listed
    ∙ length-map result_record (sort_by (λ u. u.index) us)
    ∙ length-sort_by (λ u. u.index) us
    ∙ length-known_units batch.unit_ids s.units known
