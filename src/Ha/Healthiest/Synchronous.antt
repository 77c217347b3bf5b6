-- ===== src/Ha/Healthiest/Synchronous.antt =====
-- Which nodes may win in synchronous mode: `is_healthiest_node` of patroni/ha.py.
use patroni.Base.{◌≡◌, refl, Bool, true, false, not, ◌&&◌, ◌||◌, Option, none, some, List, arith}
use patroni.Dcs.SyncState.{truthy, or_empty}
use patroni.Ha.State.{Member, requested, Ha, Env}
use patroni.Ha.Race.{opt_eq}
use patroni.Ha.Manual.{
  as_answer, Outcome, run_race, not_synchronous, race_others, failover_to_other, get_member,
  manual_failover_process_no_leader,
}
use patroni.Ha.Healthiest.{
  race_known, process_failover, or_false, replica_is_healthiest, check_node,
  continue_unless_answered, all_known_members, is_healthiest_node,
}

-- The candidate of the `/failover` key is this node.
abbrev pub is_requested : Ha → Bool
is_requested ha = opt_eq ha.cluster.failover.candidate (some ha.name)

-- The answer `True`.
abbrev pub says_yes : Option Bool → Bool
says_yes (some true) = true
says_yes _ = false

module _ (env : Env) (ha : Ha) (outside : not_synchronous ha ≡ true) where
  failover_to_other-no : (m : Option Member) → says_yes (failover_to_other env ha m).0 ≡ false
  unfolding failover_to_other
  failover_to_other-no none = ground arith
  failover_to_other-no (some m) = ground arith

  -- With a candidate or a site, or in pause, only the candidate may win.
  manual-no :
      is_requested ha ≡ false
      → (truthy ha.cluster.failover.candidate || truthy ha.cluster.failover.site || ha.is_paused)
        ≡ true
      → says_yes (manual_failover_process_no_leader env ha).0 ≡ false
  unfolding manual_failover_process_no_leader
  manual-no n t = ground (
    arith,
    failover_to_other-no (get_member ha.cluster.members (or_empty ha.cluster.failover.candidate)),
  )

  race_known-no : (known : Option (List Member)) → (race_known env ha known).0 ≡ false
  unfolding race_known
  race_known-no none = refl
  race_known-no (some known) = rw outside refl

  or_false-eq : (o : Outcome (Option Bool)) → (or_false o).0 ≡ says_yes o.0
  unfolding or_false
  or_false-eq (some true, ha, w) = refl
  or_false-eq (some false, ha, w) = refl
  or_false-eq (none, ha, w) = refl

  process_failover-no :
      requested ha.cluster.failover ≡ true
      → (is_requested ha && not (truthy ha.cluster.failover.leader)) ≡ false
      → (process_failover env ha).0 ≡ false
  unfolding process_failover requested not_synchronous
  process_failover-no r n =
      ground (arith, outside, or_false-eq (manual_failover_process_no_leader env ha), manual-no)

  replica_is_healthiest-no :
      (is_requested ha && (ha.is_paused || not (truthy ha.cluster.failover.leader))) ≡ false
      → (replica_is_healthiest env ha).0 ≡ false
  unfolding replica_is_healthiest
  replica_is_healthiest-no n =
      ground (arith, process_failover-no, race_known-no (all_known_members ha ha.failsafe))

abbrev is_answer : Option Bool → Bool
is_answer none = false
is_answer (some b) = true

module _ (env : Env) (ha : Ha) (replica : ha.is_primary ≡ false) where
  race_others-answers : is_answer (race_others env ha).0 ≡ true
  unfolding race_others as_answer run_race
  race_others-answers = ground arith

  failover_to_other-answers : (m : Option Member) → is_answer (failover_to_other env ha m).0 ≡ true
  unfolding failover_to_other
  failover_to_other-answers none = ground (arith, race_others-answers)
  failover_to_other-answers (some m) = ground (arith, race_others-answers)

  -- Only a primary leaves the answer open.
  manual-answers : is_answer (manual_failover_process_no_leader env ha).0 ≡ true
  unfolding manual_failover_process_no_leader
  manual-answers = ground (
    arith,
    race_others-answers,
    failover_to_other-answers
        (get_member ha.cluster.members (or_empty ha.cluster.failover.candidate)),
  )

continue_unless_answered-eq :
    (env : Env) (o : Outcome (Option Bool))
    → is_answer o.0 ≡ true
    → (continue_unless_answered env o).0 ≡ says_yes o.0
unfolding continue_unless_answered
continue_unless_answered-eq env (some true, ha, w) a = refl
continue_unless_answered-eq env (some false, ha, w) a = refl
continue_unless_answered-eq env (none, ha, w) a = cc

-- In synchronous mode, but not in quorum commit mode, a replica that `/sync` does not list wins only
-- if it is the candidate of the `/failover` key, and, unless in pause, that key names no leader.
pub is_healthiest_node_synchronous :
    (env : Env) (ha : Ha)
    → not_synchronous ha ≡ true
    → ha.is_primary ≡ false
    → (is_healthiest_node env ha).0 ≡ true
    → (is_requested ha && (ha.is_paused || not (truthy ha.cluster.failover.leader))) ≡ true
unfolding is_healthiest_node check_node
is_healthiest_node_synchronous env ha outside replica h = ground (
  arith,
  continue_unless_answered-eq env (manual_failover_process_no_leader env ha)
      (manual-answers env ha replica),
  manual-no env ha outside,
  replica_is_healthiest-no env ha outside,
)
