-- ===== src/Ha/Manual.antt =====
-- `get_failover_candidates`, `is_failover_possible`, `manual_failover_process_no_leader` of
-- patroni/ha.py.
pub mod Candidates
use patroni.Base.{
  ◌+◌, Bool, true, false, not, ◌&&◌, ◌||◌, Option, none, some, List, [], ◌∷◌, ◌++◌, map, foldl,
  Text, text_eq, ℤ, pos, negsuc, ◌+ℤ◌, ltb_ℤ, leb_ℤ, ltb, ◌==◌, length, null, select, if◌then◌else◌,
  ℕ,
}
use patroni.Dcs.SyncState
use patroni.Dcs.SyncState.{truthy, or_empty}
use patroni.Ha.State.{
  Member, MemberStatus, Limitation, failover_limitation, requested, Ha, Env, fetch_node_status,
  fetch_nodes_statuses, sync_mode_is_active, quorum_commit_mode_is_active, is_lagging,
}
use patroni.Ha.Race.{opt_eq, is_healthiest, remember_timeline}

-- `is_eligible` of `get_failover_candidates`.
unfoldable pub is_eligible : Ha → Bool → Bool → Member → Bool
is_eligible ha exclude_failover_candidate filter_failover_site node =
    let f = ha.cluster.failover in
    not (
      sync_mode_is_active ha
      && not (SyncState.matches ha.cluster.sync (some node.name) false)
      && not (requested f && not (truthy f.leader)))
    && not (
        text_eq node.name ha.name
        || (requested f && exclude_failover_candidate && opt_eq (some node.name) f.candidate))
    && not (node.nofailover || not (truthy node.api_url))
    && not (
        not exclude_failover_candidate
        && requested f
        && truthy f.candidate
        && not (opt_eq (some node.name) f.candidate))
    && not (filter_failover_site && requested f && truthy f.site && not (opt_eq node.site f.site))

unfoldable pub get_failover_candidates : Ha → Bool → Bool → List Member
get_failover_candidates ha exclude_failover_candidate filter_failover_site =
    select (is_eligible ha exclude_failover_candidate filter_failover_site) ha.cluster.members

abbrev pub has_no_limitation : Option Limitation → Bool
has_no_limitation none = true
has_no_limitation (some _) = false

-- A status that adds to `quorum_votes` in `is_failover_possible`.
unfoldable pub is_promotable : Ha → ℕ → MemberStatus → Bool
is_promotable ha cluster_lsn st =
    has_no_limitation (failover_limitation st)
    && not (
        not (cluster_lsn == 0) && ltb st.wal_position cluster_lsn
        || cluster_lsn == 0 && is_lagging ha st.wal_position)
    && not (
        ha.check_timeline
        && (st.answer.timeline == 0 || ltb st.answer.timeline ha.cluster.timeline))

-- The statuses that `is_failover_possible` counts; it starts at -1.
unfoldable pub promotable_statuses : Env → Ha → ℕ → Bool → Bool → List MemberStatus
promotable_statuses env ha cluster_lsn exclude_failover_candidate filter_failover_site =
    select (is_promotable ha cluster_lsn) (
      fetch_nodes_statuses env
        (get_failover_candidates ha exclude_failover_candidate filter_failover_site))

unfoldable pub is_failover_possible : Env → Ha → ℕ → Bool → Bool → Bool
is_failover_possible env ha cluster_lsn exclude_failover_candidate filter_failover_site =
    let f = ha.cluster.failover in
    let quorum_votes =
      negsuc 0
      +ℤ pos (
          length (
            promotable_statuses env ha cluster_lsn exclude_failover_candidate
              filter_failover_site)) in
    let check_quorum =
      quorum_commit_mode_is_active ha
      && not (requested f && truthy f.candidate && not exclude_failover_candidate) in
    if check_quorum && ltb_ℤ quorum_votes ha.cluster.sync.quorum
    then false
    else leb_ℤ (pos 0) quorum_votes

-- `dcs.manual_failover('', '', '')`
pub data Write : Type 0 where
  clear_failover_key : Write

-- A result, the node after it, and what is written to the DCS.
abbrev pub Outcome : Type 0 → Type 0
Outcome A = A × Ha × List Write

-- A call of `_is_healthiest_node`.
unfoldable pub run_race : Env → Ha → List Member → Bool → Option Text → Outcome Bool
run_race env ha members check_replication_lag leader =
    (is_healthiest env ha members check_replication_lag leader, remember_timeline ha, [])

-- `cluster.get_member(name, fallback_to_leader=False)`
unfoldable pub get_member : List Member → Text → Option Member
get_member [] name = none
get_member (m ∷ ms) name = if text_eq m.name name then some m else get_member ms name

-- In synchronous mode, but not in quorum commit mode, this node is missing in `/sync`.
unfoldable pub not_synchronous : Ha → Bool
not_synchronous ha =
    sync_mode_is_active ha
    && not ha.is_quorum_commit_mode
    && not (SyncState.matches ha.cluster.sync (some ha.name) true)

is_healthy_member : Env → Option Member → Bool
is_healthy_member env none = false
is_healthy_member env (some m) = has_no_limitation (failover_limitation (fetch_node_status env m))

unfoldable pub as_answer : Outcome Bool → Outcome (Option Bool)
as_answer (b, ha, w) = (some b, ha, w)

-- The end of `manual_failover_process_no_leader`: all members but the former leader race.
unfoldable pub race_others : Env → Ha → Outcome (Option Bool)
unfolding as_answer
race_others env ha =
    let f = ha.cluster.failover in
    if truthy f.leader && opt_eq (some ha.name) f.leader
    then (some (not (is_failover_possible env ha 0 (truthy f.candidate) false)), ha, [])
    else as_answer (
        run_race env ha
          (select
            (λ m.
              not (opt_eq (some m.name) f.leader)
              && (not (sync_mode_is_active ha)
                  || SyncState.matches ha.cluster.sync (some m.name) false))
            ha.cluster.members)
          false none)

abbrev no : Ha → Outcome (Option Bool)
no ha = (some false, ha, [])

-- The branch for a failover to a candidate other than this node.
unfoldable pub failover_to_other : Env → Ha → Option Member → Outcome (Option Bool)
unfolding is_healthy_member
failover_to_other env ha member =
    if ha.is_paused
    then elim member [
      | none ↦ if ha.is_primary then (none, ha, clear_failover_key ∷ []) else no ha
      | some _ ↦ no ha
    ]
    else if not_synchronous ha
    then no ha
    else if is_healthy_member env member
    then no ha
    else race_others env ha

unfoldable pub manual_failover_process_no_leader : Env → Ha → Outcome (Option Bool)
manual_failover_process_no_leader env ha =
    let f = ha.cluster.failover in
    if truthy f.candidate
    then if opt_eq f.candidate (some ha.name)
      then (some true, ha, [])
      else failover_to_other env ha (get_member ha.cluster.members (or_empty f.candidate))
    else if ha.is_paused
    then no ha
    else if truthy f.site && not_synchronous ha
    then no ha
    else race_others env ha
