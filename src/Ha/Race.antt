-- ===== src/Ha/Race.antt =====
-- `_is_healthiest_node` of patroni/ha.py.
pub mod Votes
pub mod Quorum
pub mod Commits
use patroni.Base.{
  ℕ, zero, suc, ◌+◌, ◌≡◌, Bool, true, false, not, ◌&&◌, ◌||◌, Option, none, some, List, [], ◌∷◌,
  ◌++◌, Text, text_eq, ℤ, pos, negsuc, ◌+ℤ◌, ◌-ℤ◌, ltb_ℤ, leb_ℤ, ltb, leb, ◌==◌, null, select, any,
  if◌then◌else◌,
}
use patroni.Collections.CaseInsensitiveSet.{CaseInsensitiveSet, init, contains}
use patroni.Dcs.SyncState
use patroni.Dcs.SyncState.{truthy, or_empty}
use patroni.Ha.State.{
  Member, MemberStatus, failover_limitation, requested, Ha, Env, fetch_nodes_statuses,
  sync_mode_is_active, quorum_commit_mode_is_active, is_lagging,
}

-- `a == b` where either may be `None`.
unfoldable pub opt_eq : Option Text → Option Text → Bool
opt_eq none none = true
opt_eq (some a) (some b) = text_eq a b
opt_eq _ _ = false

-- The quorum and the voting set of the race.
unfoldable pub race_quorum : Ha → ℤ
race_quorum ha = if quorum_commit_mode_is_active ha then ha.cluster.sync.quorum else pos 0

unfoldable pub voting_set : Ha → CaseInsensitiveSet
voting_set ha =
    if quorum_commit_mode_is_active ha then init (SyncState.members ha.cluster.sync) else []

-- Whether the timeline disqualifies the node.
unfoldable pub timeline_behind : Ha → Bool
timeline_behind ha = not ha.is_standby_cluster && ha.check_timeline && behind ha.replica_timeline
  where
    behind : Option ℕ → Bool
    behind none = true
    behind (some t) = ltb t ha.cluster.timeline

-- The nodes to run the check against.
unfoldable pub race_members : Ha → List Member → List Member
race_members ha = select (λ m.
    not (text_eq m.name ha.name)
    && truthy m.api_url
    && (not m.nofailover || contains (voting_set ha) m.name))

-- What the loop over the statuses counts.
pub record Tally : Type 0 where
  pub quorum_votes : ℤ
  pub nodes_ahead : ℕ
  pub eligible_members : List MemberStatus

unfoldable pub start_tally : Ha → Tally
start_tally ha = record {
  quorum_votes = if contains (voting_set ha) ha.name then pos 0 else negsuc 0;
  nodes_ahead = 0;
  eligible_members = [];
}

-- A node that is not ahead and has its PostgreSQL running votes, if it may.
unfoldable pub count_vote : Ha → MemberStatus → Tally → Tally
count_vote ha st t = record {
  quorum_votes =
      if contains (voting_set ha) st.member.name then t.quorum_votes +ℤ pos 1 else t.quorum_votes;
  nodes_ahead = t.nodes_ahead;
  eligible_members =
      if ha.last_operation == st.wal_position
      then t.eligible_members ++ st ∷ []
      else t.eligible_members;
}

-- The body of the loop, for a node without a limitation; `none` where the method returns `False`.
unfoldable pub visit_able : Ha → MemberStatus → Option Bool → Tally → Option Tally
visit_able ha st (some false) t = none
visit_able ha st _ t =
    if ltb ha.last_operation st.wal_position
    then if not (sync_mode_is_active ha)
        || not (SyncState.leader_matches ha.cluster.sync (some st.member.name))
      then none
      else some (record t { nodes_ahead = t.nodes_ahead + 1 })
    else if ltb 0 st.wal_position
    then some (count_vote ha st t)
    else some t

unfoldable pub visit : Ha → MemberStatus → Tally → Option Tally
visit ha st t = elim (failover_limitation st) [
  | none ↦ visit_able ha st st.in_recovery t
  | some _ ↦ some t
]

unfoldable pub tally : Ha → List MemberStatus → Tally → Option Tally
tally ha [] t = some t
tally ha (st ∷ sts) t = elim (visit ha st t) [ none ↦ none | some t' ↦ tally ha sts t' ]

at_site : Option Text → List MemberStatus → List MemberStatus
at_site site = select (λ st. opt_eq st.answer.site site)

elsewhere : Option Text → List MemberStatus → List MemberStatus
elsewhere site = select (λ st. not (opt_eq st.answer.site site))

-- A site was requested in `/failover`.
site_requested : Ha → Option Text → List MemberStatus → Option (List MemberStatus)
unfolding at_site elsewhere
site_requested ha target eligible =
    let current = ha.cluster.current_site in
    if not (null (at_site target eligible)) && not (opt_eq ha.site target)
    then none
    else if opt_eq ha.site target
    then some (at_site target eligible)
    else if truthy current && not (opt_eq current target)
    then if not (null (elsewhere current eligible)) && opt_eq ha.site current
      then none
      else if not (opt_eq ha.site current)
      then some (elsewhere current eligible)
      else some eligible
    else some eligible

site_current : Ha → Option Text → List MemberStatus → Option (List MemberStatus)
unfolding at_site
site_current ha current eligible =
    if not (null (at_site current eligible)) && not (opt_eq ha.site current)
    then none
    else if opt_eq ha.site current
    then some (at_site current eligible)
    else some eligible

-- The nodes whose priority counts; `none` where a node of another site is preferred.
unfoldable pub filter_site : Ha → List MemberStatus → Option (List MemberStatus)
unfolding site_requested site_current
filter_site ha eligible =
    if requested ha.cluster.failover && truthy ha.cluster.failover.site
    then site_requested ha ha.cluster.failover.site eligible
    else if truthy ha.cluster.current_site
    then site_current ha ha.cluster.current_site eligible
    else some eligible

-- The former leader, whose priority is ignored.
unfoldable pub former_leader : Ha → Option Text → Option Text
former_leader ha leader = if sync_mode_is_active ha then ha.cluster.sync.leader else leader

-- A node that must be deferred to for its priority.
unfoldable pub preferred : Ha → Option Text → MemberStatus → Bool
preferred ha leader st =
    ha.last_operation == st.wal_position
    && ltb_ℤ ha.failover_priority st.answer.failover_priority
    && not (truthy leader && text_eq (or_empty leader) st.member.name)
    && (not (quorum_commit_mode_is_active ha) || contains (voting_set ha) st.member.name)

unfoldable pub enough_votes : Ha → Tally → Bool
enough_votes ha t =
    not (quorum_commit_mode_is_active ha)
    || leb_ℤ (race_quorum ha) t.quorum_votes
    || (t.nodes_ahead == 0 && opt_eq ha.cluster.sync.leader (some ha.name))

unfoldable pub decide_race : Ha → Option Text → Option Tally → Bool
decide_race ha leader none = false
decide_race ha leader (some t) = elim (filter_site ha t.eligible_members) [
  | none ↦ false
  | some eligible ↦ not (any (preferred ha (former_leader ha leader)) eligible) && enough_votes ha t
]

-- `self._last_timeline = my_timeline`, where it is known.
unfoldable pub remember_timeline : Ha → Ha
remember_timeline ha = record ha { last_timeline = known ha.replica_timeline }
  where
    known : Option ℕ → Option ℕ
    known (some (suc t)) = some (suc t)
    known _ = ha.last_timeline

-- `_is_healthiest_node`
unfoldable pub is_healthiest : Env → Ha → List Member → Bool → Option Text → Bool
is_healthiest env ha members check_replication_lag leader =
    if check_replication_lag && is_lagging ha ha.last_operation
    then false
    else if timeline_behind ha
    then false
    else decide_race ha leader
        (tally ha (fetch_nodes_statuses env (race_members ha members)) (start_tally ha))
