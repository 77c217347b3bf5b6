-- ===== src/Ha/Examples.antt =====
-- A leader race in quorum commit mode, and the theorems on it at that race.
use patroni.Base.{
  ◌≡◌, refl, true, false, none, some, [], ◌∷◌, Text, codes, text_eq, lower, strip, split_on, all,
  any, select, pos, ◌+ℤ◌, ◌-ℤ◌, ◌≤ℤ◌, arith,
}
use patroni.Collections.CaseInsensitiveSet.{
  CaseInsensitiveSet, same, contains, len, init, union, issubset,
}
use patroni.Collections.CaseInsensitiveSet.Size.{IsDistinct, Subset, Subset_of_issubset}
use patroni.Dcs.SyncState
use patroni.Dcs.SyncState.{SyncState, str_to_list}
use patroni.Quorum.State.{ok, Published, check_invariants}
use patroni.Quorum.Overlap.{acknowledging}
use patroni.Ha.State.{
  unknown, from_api_response, failover_limitation, requested, Ha, fetch_node_status,
  fetch_nodes_statuses, sync_mode_is_active, quorum_commit_mode_is_active, is_lagging,
}
use patroni.Ha.Race.{
  opt_eq, voting_set, race_quorum, race_members, timeline_behind, start_tally, count_vote,
  visit_able, visit, tally, filter_site, former_leader, preferred, enough_votes, decide_race,
  is_healthiest,
}
use patroni.Ha.Race.Votes.{yields, race_statuses, is_healthiest-yields}
use patroni.Ha.Race.Quorum.{HasDistinctNames, vouched, is_healthiest-quorum}
use patroni.Ha.Race.Commits.{IsSyncKey, is_healthiest_keeps_commits}
use patroni.Ha.Prepromote.{prepared, process_quorum_prepromote-checked}
use patroni.Base.{not, ◌&&◌, ◌||◌, ltb, ltb_ℤ, text_mem}
use patroni.Ha.Manual.{
  is_eligible, is_promotable, is_failover_possible, not_synchronous,
  manual_failover_process_no_leader,
}
use patroni.Ha.Manual.Candidates.{is_failover_possible-eq}
use patroni.Ha.Healthiest.{
  or_false, process_failover, replica_is_healthiest, check_node, is_healthiest_node,
}
use patroni.Ha.Healthiest.Synchronous.{is_healthiest_node_synchronous}
use patroni.Ha.Samples.{replicas, config, cluster, node, env, env-Completes}

node-HasDistinctNames : HasDistinctNames node replicas
unfolding race_members voting_set select contains same text_eq lower
node-HasDistinctNames = (refl, (refl, (refl, tt)))

node-active : quorum_commit_mode_is_active node ≡ true
unfolding quorum_commit_mode_is_active SyncState.is_empty
node-active = refl

other_leader : opt_eq (some (codes "a")) (some (codes "b")) ≡ false
unfolding opt_eq text_eq
other_leader = refl

node_wins : is_healthiest env node replicas true (some (codes "a")) ≡ true
unfolding is_healthiest is_lagging timeline_behind race_members fetch_nodes_statuses
    fetch_node_status from_api_response unknown voting_set race_quorum quorum_commit_mode_is_active
    sync_mode_is_active SyncState.members SyncState.voters str_to_list SyncState.is_empty split_on
    strip init contains same text_eq lower select start_tally tally visit visit_able count_vote
    failover_limitation decide_race filter_site requested former_leader preferred enough_votes any
    opt_eq ◌+ℤ◌ ◌-ℤ◌
node_wins = refl

is_healthiest-yields_example : all (yields node) (race_statuses env node replicas) ≡ true
is_healthiest-yields_example =
    is_healthiest-yields env node replicas true (some (codes "a")) node_wins

is_healthiest-quorum_example :
    (promote : CaseInsensitiveSet) × IsDistinct promote
    × Subset promote (voting_set node)
    × (pos 1 +ℤ pos 1 ≤ℤ pos (len promote))
    × ((w : Text)
        → contains promote w ≡ true
        → vouched node (race_statuses env node replicas) w ≡ true)
is_healthiest-quorum_example =
    is_healthiest-quorum env node replicas true (some (codes "a")) env-Completes
      node-HasDistinctNames node-active other_leader node_wins

abbrev published : Published
published = record {
  leader = codes "a";
  quorum = pos 1;
  voters = codes "b" ∷ codes "c" ∷ codes "d" ∷ [];
  numsync = pos 2;
  sync = codes "b" ∷ codes "c" ∷ codes "d" ∷ [];
}

published-IsSyncKey : IsSyncKey node published
unfolding SyncState.voters str_to_list SyncState.is_empty split_on strip init same text_eq lower
    select
published-IsSyncKey = record { leader = refl; some_leader = refl; voters = refl; quorum = refl }

published-passes : check_invariants (codes "a") published ≡ ok tt
unfolding check_invariants init same union issubset contains all ◌+ℤ◌ text_eq lower
published-passes = refl

abbrev ack : CaseInsensitiveSet
ack = codes "a" ∷ codes "c" ∷ codes "d" ∷ []

ack-Subset : Subset ack (acknowledging (codes "a") published)
unfolding init same union contains issubset all text_eq lower
ack-Subset = Subset_of_issubset ack (acknowledging (codes "a") published) refl

ack-IsDistinct : IsDistinct ack
unfolding contains same text_eq lower
ack-IsDistinct = (refl, (refl, (refl, tt)))

is_healthiest_keeps_commits_example :
    (w : Text) × (contains ack w ≡ true) × (vouched node (race_statuses env node replicas) w ≡ true)
unfolding ◌+ℤ◌
is_healthiest_keeps_commits_example =
    is_healthiest_keeps_commits env node replicas true (some (codes "a")) (codes "a") published ack
      env-Completes node-HasDistinctNames node-active other_leader node_wins published-IsSyncKey
      published-passes refl ack-IsDistinct ack-Subset (omega arith)

process_quorum_prepromote-checked_example :
    check_invariants (codes "b") (prepared node published) ≡ ok tt
process_quorum_prepromote-checked_example =
    process_quorum_prepromote-checked node published node-active published-IsSyncKey

-- Only `c` answers.
is_failover_possible-eq_example :
    is_failover_possible env node 0 false false ≡ (ltb 0 1 && (false || ltb_ℤ (pos 1) (pos 1)))
unfolding select is_eligible is_promotable fetch_node_status from_api_response unknown
    failover_limitation is_lagging sync_mode_is_active quorum_commit_mode_is_active
    SyncState.matches SyncState.is_empty str_to_list split_on strip text_mem requested text_eq lower
    opt_eq ◌-ℤ◌
is_failover_possible-eq_example = is_failover_possible-eq env node 0 false false env-Completes

-- A node that `/sync` does not list, in synchronous mode, with a failover to it requested.
abbrev outsider : Ha
outsider = record node {
  name = codes "x";
  config = record config { is_quorum_commit_mode = false };
  cluster = record cluster {
    failover = record {
      leader = none;
      candidate = some (codes "x");
      scheduled_at = none;
      site = none;
    };
  };
}

outsider-not_synchronous : not_synchronous outsider ≡ true
unfolding not_synchronous sync_mode_is_active SyncState.matches SyncState.is_empty str_to_list
    split_on strip select text_mem text_eq lower
outsider-not_synchronous = refl

outsider_wins : (is_healthiest_node env outsider).0 ≡ true
unfolding is_healthiest_node check_node replica_is_healthiest process_failover or_false requested
    manual_failover_process_no_leader opt_eq text_eq
outsider_wins = refl

is_healthiest_node_synchronous_example :
    (opt_eq (some (codes "x")) (some (codes "x")) && (false || not false)) ≡ true
is_healthiest_node_synchronous_example =
    is_healthiest_node_synchronous env outsider outsider-not_synchronous refl outsider_wins
