-- ===== src/Quorum/Examples.antt =====
-- Runs of patroni/quorum.py on small clusters, and the theorems at them.
use patroni.Base.{
  ◌≡◌, refl, inl, true, false, null, List, [], ◌∷◌, Text, codes, text_eq, lower, ℤ, pos, all,
  select, arith, ◌+ℤ◌, ◌-ℤ◌, min_ℤ, max_ℤ,
}
use patroni.Collections.CaseInsensitiveSet.{
  CaseInsensitiveSet, same, contains, init, union, inter, diff, issubset, lt, eq,
}
use patroni.Collections.CaseInsensitiveSet.Size.{IsDistinct, Subset_of_issubset}
use patroni.Quorum.State.{
  ok, err, no_overlap, sync_transition, Transition, Published, Resolver, init_resolver,
  check_invariants,
}
use patroni.Quorum.Run.{◌>>=◌, except_quorum_error}
use patroni.Quorum.Resolver.Updates.{adjust, publish_quorum, quorum_update, sync_update}
use patroni.Quorum.Resolver.Phases.{
  reduce_margin, handle_non_steady_cases, remove_gone_nodes, add_new_nodes,
  handle_replication_factor_change,
}
use patroni.Quorum.Resolver.Iterate.{
  check_self, check_leader, check_or_failover, adjust_confirmed, assert_leader, steps,
  generate_transitions, same_type, merge, transitions,
}
use patroni.Quorum.Safety.{AllChecked, replay}
use patroni.Quorum.Safety.Merge.{transitions-AllChecked, replay-transitions}
use patroni.Quorum.Overlap.{check_invariants-overlap}
use patroni.Quorum.Steady.{IsSettled, IsOptimal, transitions_optimal}
use patroni.Quorum.Factor.{IsBalanced, Reaches, handle_replication_factor_change-Reaches}
use patroni.Quorum.Stuck.{handle_replication_factor_change_raises}

abbrev leader_name : Text
leader_name = codes "a"

abbrev replicas : List Text
replicas = codes "b" ∷ codes "c" ∷ codes "d" ∷ codes "e" ∷ []

abbrev published : ℤ → ℤ → Published
published quorum numsync = record {
  leader = leader_name;
  quorum = quorum;
  voters = replicas;
  numsync = numsync;
  sync = replicas;
}

-- Four replicas, all active.
abbrev four : ℤ → ℤ → ℤ → ℤ → Resolver
four quorum numsync confirmed wanted = record {
  state = published quorum numsync;
  numsync_confirmed = confirmed;
  active = replicas;
  sync_wanted = wanted;
  leader_wanted = leader_name;
}

init_four :
    init_resolver leader_name (pos 2) replicas (pos 2) replicas (pos 2) replicas (pos 4) leader_name
    ≡ four (pos 2) (pos 2) (pos 2) (pos 4)
unfolding init_resolver init same min_ℤ text_eq lower
init_four = refl

-- All that a run computes.
abbrev grown : List Transition
grown =
    record {
      transition_type = sync_transition;
      leader = leader_name;
      num = pos 4;
      names = replicas;
    }
    ∷ []

run_grown : transitions (four (pos 2) (pos 2) (pos 2) (pos 4)) ≡ ok grown
unfolding transitions generate_transitions merge check_or_failover check_leader check_self
    except_quorum_error steps assert_leader adjust_confirmed handle_non_steady_cases reduce_margin
    remove_gone_nodes add_new_nodes handle_replication_factor_change quorum_update sync_update
    publish_quorum adjust check_invariants ◌>>=◌ init same union inter diff issubset lt eq contains
    all select min_ℤ max_ℤ ◌+ℤ◌ ◌-ℤ◌ text_eq lower
run_grown = refl

-- Raising the wanted factor to four while two nodes are confirmed, and then lowering it to one
-- before the others are: the resolver raises.
run_lowered : transitions (four (pos 2) (pos 4) (pos 2) (pos 1)) ≡ err no_overlap
unfolding transitions generate_transitions merge check_or_failover check_leader check_self
    except_quorum_error steps assert_leader adjust_confirmed handle_non_steady_cases reduce_margin
    remove_gone_nodes add_new_nodes handle_replication_factor_change quorum_update sync_update
    publish_quorum adjust check_invariants ◌>>=◌ init same union inter diff issubset lt eq contains
    all select min_ℤ max_ℤ ◌+ℤ◌ ◌-ℤ◌ text_eq lower
run_lowered = refl

replicas-IsDistinct : IsDistinct replicas
unfolding contains same text_eq lower
replicas-IsDistinct = (refl, (refl, (refl, (refl, tt))))

four-IsSettled : (q n c w : ℤ) → IsSettled (four q n c w)
four-IsSettled q n c w = record {
  leader = refl;
  distinct_voters = replicas-IsDistinct;
  distinct_sync = replicas-IsDistinct;
  voters_in_sync = λ x m. m;
  sync_in_voters = λ x m. m;
}

four-passes : check_invariants leader_name (published (pos 2) (pos 2)) ≡ ok tt
unfolding check_invariants init same union issubset contains all ◌+ℤ◌ text_eq lower
four-passes = refl

same_leader : text_eq leader_name leader_name ≡ true
unfolding text_eq
same_leader = refl

transitions-AllChecked_example : AllChecked leader_name (published (pos 2) (pos 2)) grown
transitions-AllChecked_example =
    transitions-AllChecked (four (pos 2) (pos 2) (pos 2) (pos 4)) grown (inl same_leader) run_grown

replay-transitions_example :
    replay (published (pos 2) (pos 2)) grown
    ≡ (generate_transitions (four (pos 2) (pos 2) (pos 2) (pos 4))).1.state
unfolding generate_transitions check_or_failover check_leader check_self except_quorum_error steps
    assert_leader adjust_confirmed handle_non_steady_cases reduce_margin remove_gone_nodes
    add_new_nodes handle_replication_factor_change quorum_update sync_update publish_quorum adjust
    check_invariants ◌>>=◌ init same union inter diff issubset lt eq contains all select min_ℤ max_ℤ
    ◌+ℤ◌ ◌-ℤ◌ text_eq lower same_type
replay-transitions_example =
    replay-transitions (four (pos 2) (pos 2) (pos 2) (pos 4)) grown (inl same_leader) run_grown
      (refl, tt)

-- The leader and two of the replicas acknowledge; the other two and one of them would promote.
abbrev ack : CaseInsensitiveSet
ack = leader_name ∷ codes "b" ∷ codes "c" ∷ []

abbrev promote : CaseInsensitiveSet
promote = codes "C" ∷ codes "d" ∷ codes "e" ∷ []

check_invariants-overlap_example : null (inter ack promote) ≡ false
unfolding init same union contains issubset all text_eq lower ◌+ℤ◌
check_invariants-overlap_example =
    check_invariants-overlap leader_name (published (pos 2) (pos 2)) ack promote four-passes refl
      (refl, (refl, (refl, tt))) (refl, (refl, (refl, tt)))
      (Subset_of_issubset ack (init (union replicas (init (leader_name ∷ [])))) refl)
      (Subset_of_issubset promote (init (union replicas (init (leader_name ∷ [])))) refl)
      (omega arith) (omega arith)

four-IsOptimal : IsOptimal (four (pos 2) (pos 2) (pos 4) (pos 2))
unfolding min_ℤ ◌-ℤ◌
four-IsOptimal = record {
  settled = four-IsSettled (pos 2) (pos 2) (pos 4) (pos 2);
  distinct_active = replicas-IsDistinct;
  sync_in_active = λ x m. m;
  active_in_sync = λ x m. m;
  numsync = refl;
  quorum = refl;
}

transitions_optimal_example : transitions (four (pos 2) (pos 2) (pos 4) (pos 2)) ≡ ok []
transitions_optimal_example =
    transitions_optimal (four (pos 2) (pos 2) (pos 4) (pos 2)) four-IsOptimal

four-IsBalanced : IsBalanced (four (pos 2) (pos 2) (pos 2) (pos 4))
unfolding ◌-ℤ◌
four-IsBalanced = record {
  settled = four-IsSettled (pos 2) (pos 2) (pos 2) (pos 4);
  some_voters = refl;
  wanted = omega arith;
  low = omega arith;
  high = omega arith;
  quorum = refl;
}

handle_replication_factor_change-Reaches_example :
    Reaches
      (four (pos 2) (pos 2) (pos 2) (pos 4))
      (handle_replication_factor_change (four (pos 2) (pos 2) (pos 2) (pos 4)))
handle_replication_factor_change-Reaches_example =
    handle_replication_factor_change-Reaches (four (pos 2) (pos 2) (pos 2) (pos 4)) four-IsBalanced

handle_replication_factor_change_raises_example :
    (handle_replication_factor_change (four (pos 2) (pos 4) (pos 2) (pos 1))).0 ≡ err no_overlap
unfolding contains same text_eq lower min_ℤ ◌-ℤ◌ ◌+ℤ◌
handle_replication_factor_change_raises_example =
    handle_replication_factor_change_raises (four (pos 2) (pos 4) (pos 2) (pos 1))
      (four-IsSettled (pos 2) (pos 4) (pos 2) (pos 1)) refl refl (omega arith) (omega arith)
      (omega arith) (omega arith)
