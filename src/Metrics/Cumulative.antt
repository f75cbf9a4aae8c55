-- ===== src/Metrics/Cumulative.antt =====
-- The totals that the fleet reports never fall, whatever happens to its nodes.
use fleet_lm.Base.{
  ℕ, ◌+◌, ◌≤◌, String, Option, none, some, ◌≡◌, refl, List, [], ◌∷◌, ◌++◌, map, arith, Dict, lookup,
  insert, erase, modify, values, Option-cases, inl, inr,
}
use fleet_lm.Metrics.{
  NodeMetrics, NodeSnapshot, node_snapshot, FleetMetrics, node_joined, node_ready, node_left,
  unit_completed, unit_failed, session_completed, session_failed, leases_returned, batch_created,
  batch_completed, mark_from, mark_ready, count_unit, count_session,
}
use fleet_lm.Metrics.Report.{sum_by, everyone, FleetSnapshot, fleet_snapshot}

module _ (f : NodeMetrics → ℕ) where
  sum-insert :
      (k : ℕ) (n : NodeMetrics) (d : Dict NodeMetrics)
      → lookup k d ≡ none
      → sum_by f (values d) ≤ sum_by f (values (insert k n d))
  unfolding sum_by values insert lookup
  sum-insert k n [] h = omega arith
  sum-insert k n ((j, w) ∷ d) h = ground (arith, sum-insert k n d)

  sum-modify :
      (k : ℕ) (g : NodeMetrics → NodeMetrics) (d : Dict NodeMetrics)
      → ((n : NodeMetrics) → f n ≤ f (g n))
      → sum_by f (values d) ≤ sum_by f (values (modify k g d))
  unfolding sum_by values modify
  sum-modify k g [] h = omega arith
  sum-modify k g ((j, w) ∷ d) h = ground (arith, sum-modify k g d h, h w)

  sum-erase :
      (k : ℕ) (n : NodeMetrics) (d : Dict NodeMetrics)
      → lookup k d ≡ some n
      → sum_by f (values (erase k d)) + f n ≡ sum_by f (values d)
  unfolding sum_by values erase lookup
  sum-erase k n [] h = cc
  sum-erase k n ((j, w) ∷ d) h = ground (arith, sum-erase k n d)

-- What happens to the fleet, as its metrics are told.
pub data Event : Type 0 where
  joins : (node_id : ℕ) (gpu_name : String) → Event
  gets_ready : (node_id : ℕ) → Event
  leaves : (node_id : ℕ) → Event
  completes_unit : (node_id prompt completion seconds queue_sec service_sec retries : ℕ) → Event
  fails_unit : (node_id : ℕ) → Event
  completes_session : (node_id prompt completion : ℕ) → Event
  fails_session : (node_id : ℕ) → Event
  returns_leases : (count : ℕ) → Event
  creates_batch : Event
  completes_batch : Event

unfoldable pub record_event : ℕ × Event → FleetMetrics → FleetMetrics
record_event (now, joins node_id gpu_name) m = node_joined now node_id gpu_name m
record_event (now, gets_ready node_id) m = node_ready now node_id m
record_event (now, leaves node_id) m = node_left now node_id m
record_event (now, completes_unit node_id p c seconds q s r) m =
    unit_completed node_id p c seconds q s r m
record_event (now, fails_unit node_id) m = unit_failed node_id m
record_event (now, completes_session node_id p c) m = session_completed node_id p c m
record_event (now, fails_session node_id) m = session_failed node_id m
record_event (now, returns_leases count) m = leases_returned count m
record_event (now, creates_batch) m = batch_created m
record_event (now, completes_batch) m = batch_completed m

-- A node that joins is not counted already.
abbrev pub Allowed : Event → FleetMetrics → Type 0
Allowed (joins node_id gpu_name) m = lookup node_id m.nodes ≡ none
Allowed _ m = Unit {0}

unfoldable pub record_all : List (ℕ × Event) → FleetMetrics → FleetMetrics
record_all [] m = m
record_all (e ∷ es) m = record_all es (record_event e m)

abbrev pub AllAllowed : List (ℕ × Event) → FleetMetrics → Type 0
AllAllowed [] m = Unit {0}
AllAllowed (e ∷ es) m = Allowed e.1 m × AllAllowed es (record_event e m)

-- A number of a node that no event lowers, and that its snapshot repeats.
record IsCounter (f : NodeMetrics → ℕ) (g : NodeSnapshot → ℕ) : Type 0 where
  pub snapped : (now : ℕ) (n : NodeMetrics) → g (node_snapshot now n) ≡ f n
  pub by_ready : (now : ℕ) (n : NodeMetrics) → f n ≤ f (mark_ready now n)
  pub by_unit : (p c seconds : ℕ) (n : NodeMetrics) → f n ≤ f (count_unit p c seconds n)
  pub by_failure : (n : NodeMetrics) → f n ≤ f (record n { units_failed = n.units_failed + 1 })
  pub by_session : (p c : ℕ) (n : NodeMetrics) → f n ≤ f (count_session p c n)
  pub by_session_failure :
      (n : NodeMetrics) → f n ≤ f (record n { sessions_failed = n.sessions_failed + 1 })

module _ (f : NodeMetrics → ℕ) (g : NodeSnapshot → ℕ) (counter : IsCounter f g) where
  abbrev total : FleetMetrics → ℕ
  total m = sum_by f (values m.nodes) + sum_by g m.departed

  sum-append : (xs ys : List NodeSnapshot) → sum_by g (xs ++ ys) ≡ sum_by g xs + sum_by g ys
  unfolding sum_by
  sum-append [] ys = omega arith
  sum-append (x ∷ xs) ys = omega (arith, sum-append xs ys)

  sum-snapshots :
      (now : ℕ) (ns : List NodeMetrics) → sum_by g (map (node_snapshot now) ns) ≡ sum_by f ns
  unfolding sum_by
  sum-snapshots now [] = refl
  sum-snapshots now (n ∷ ns) = omega (arith, sum-snapshots now ns, counter.snapped now n)

  sum-everyone : (now : ℕ) (m : FleetMetrics) → sum_by g (everyone now m) ≡ total m
  unfolding everyone
  sum-everyone now m = omega (
    arith,
    sum-append (map (node_snapshot now) (values m.nodes)) m.departed,
    sum-snapshots now (values m.nodes),
  )

  node_left-total : (now node_id : ℕ) (m : FleetMetrics) → total (node_left now node_id m) ≡ total m
  unfolding node_left sum_by
  node_left-total now node_id m = elim (Option-cases (lookup node_id m.nodes)) [
    | inl e ↦ rw (e, node_left) refl
    | inr (n, e) ↦
        rw (e, node_left)
          (omega (
            arith,
            sum-append m.departed (node_snapshot now n ∷ []),
            counter.snapped now n,
            sum-erase f node_id n m.nodes e,
          ))
  ]

  record_event-total :
      (e : ℕ × Event) (m : FleetMetrics) → Allowed e.1 m → total m ≤ total (record_event e m)
  unfolding record_event node_joined node_ready unit_completed unit_failed session_completed
      session_failed leases_returned batch_created batch_completed
  record_event-total (now, joins node_id gpu_name) m a =
      omega (arith, sum-insert f node_id _ m.nodes a)
  record_event-total (now, gets_ready node_id) m a =
      omega (arith, sum-modify f node_id (mark_ready now) m.nodes (counter.by_ready now))
  record_event-total (now, leaves node_id) m a = omega (arith, node_left-total now node_id m)
  record_event-total (now, completes_unit node_id p c seconds q s r) m a =
      omega
        (arith, sum-modify f node_id (count_unit p c seconds) m.nodes (counter.by_unit p c seconds))
  record_event-total (now, fails_unit node_id) m a =
      omega (arith, sum-modify f node_id _ m.nodes counter.by_failure)
  record_event-total (now, completes_session node_id p c) m a =
      omega (arith, sum-modify f node_id (count_session p c) m.nodes (counter.by_session p c))
  record_event-total (now, fails_session node_id) m a =
      omega (arith, sum-modify f node_id _ m.nodes counter.by_session_failure)
  record_event-total (now, returns_leases count) m a = omega arith
  record_event-total (now, creates_batch) m a = omega arith
  record_event-total (now, completes_batch) m a = omega arith

  record_all-total :
      (es : List (ℕ × Event)) (m : FleetMetrics)
      → AllAllowed es m
      → total m ≤ total (record_all es m)
  unfolding record_all
  record_all-total [] m a = omega arith
  record_all-total (e ∷ es) m a =
      omega (arith, record_event-total e m a.0, record_all-total es (record_event e m) a.1)

  record_all-everyone :
      (es : List (ℕ × Event)) (m : FleetMetrics) (now later : ℕ)
      → AllAllowed es m
      → sum_by g (everyone now m) ≤ sum_by g (everyone later (record_all es m))
  record_all-everyone es m now later a =
      omega
        (arith, sum-everyone now m, sum-everyone later (record_all es m), record_all-total es m a)

-- Becoming ready changes no counter.
mark_from-same :
    (f : NodeMetrics → ℕ) (o : Option ℕ) (now : ℕ) (n : NodeMetrics)
    → f (record n { first_ready_at = some now }) ≡ f n
    → f n ≤ f (mark_from o now n)
unfolding mark_from
mark_from-same f none now n h = omega (arith, h)
mark_from-same f (some time) now n h = omega arith

completed-IsCounter : IsCounter (λ n. n.units_completed) (λ n. n.units_completed)
unfolding node_snapshot mark_ready count_unit count_session
completed-IsCounter = record {
  snapped = λ now n. refl;
  by_ready = λ now n. mark_from-same (λ n. n.units_completed) n.first_ready_at now n refl;
  by_unit = λ p c seconds n. omega arith;
  by_failure = λ n. omega arith;
  by_session = λ p c n. omega arith;
  by_session_failure = λ n. omega arith;
}

failed-IsCounter : IsCounter (λ n. n.units_failed) (λ n. n.units_failed)
unfolding node_snapshot mark_ready count_unit count_session
failed-IsCounter = record {
  snapped = λ now n. refl;
  by_ready = λ now n. mark_from-same (λ n. n.units_failed) n.first_ready_at now n refl;
  by_unit = λ p c seconds n. omega arith;
  by_failure = λ n. omega arith;
  by_session = λ p c n. omega arith;
  by_session_failure = λ n. omega arith;
}

-- What the fleet reports of its units at one time is no more than at a later one.
pub record IsBelow (a b : FleetSnapshot) : Type 0 where
  pub units_completed : a.units_completed ≤ b.units_completed
  pub units_failed : a.units_failed ≤ b.units_failed

-- The fleet's counts of units are cumulative: over any events in which no node joins that is still
-- counted, the completed and the failed units that the snapshot reports never fall, whichever nodes
-- leave, since what a node has done is counted on after it has left.
pub record_all-IsBelow :
    (es : List (ℕ × Event)) (m : FleetMetrics) (now later : ℕ)
    → AllAllowed es m
    → IsBelow (fleet_snapshot now m) (fleet_snapshot later (record_all es m))
unfolding fleet_snapshot
record_all-IsBelow es m now later a = record {
  units_completed = record_all-everyone _ _ completed-IsCounter es m now later a;
  units_failed = record_all-everyone _ _ failed-IsCounter es m now later a;
}
