-- ===== src/Ha/State.antt =====
-- What the decisions of patroni/ha.py read: members, their statuses, the cluster and the node.
use patroni.Base.{
  ℕ, Bool, true, false, not, ◌&&◌, ◌||◌, Option, none, some, List, [], ◌∷◌, map, Text, ℤ, pos, ◌-ℤ◌,
  ltb_ℤ, ltb, if◌then◌else◌,
}
use patroni.Dcs.SyncState
use patroni.Dcs.SyncState.{SyncState, truthy, or_empty}

-- A `Member` of the cluster, by the properties that are read.
pub record Member : Type 0 where
  pub name : Text
  pub api_url : Option Text
  pub nofailover : Bool
  pub site : Option Text

-- The JSON answer of a node's REST API: the `wal` section, and the values that are read later.
pub record Wal : Type 0 where
  pub location : ℕ
  pub received_location : ℕ
  pub replayed_location : ℕ

pub record Response : Type 0 where
  pub wal : Option Wal
  pub role_is_primary : Bool
  pub nofailover : Bool
  pub failover_priority : ℤ
  pub watchdog_failed : Bool
  pub timeline : ℕ
  pub site : Option Text

-- `_MemberStatus`
pub record MemberStatus : Type 0 where
  pub member : Member
  pub reachable : Bool
  pub in_recovery : Option Bool
  pub wal_position : ℕ
  pub answer : Response

abbrev pub no_data : Response
no_data = record {
  wal = none;
  role_is_primary = false;
  nofailover = false;
  failover_priority = pos 1;
  watchdog_failed = false;
  timeline = 0;
  site = none;
}

unfoldable pub unknown : Member → MemberStatus
unknown member = record {
  member = member;
  reachable = false;
  in_recovery = none;
  wal_position = 0;
  answer = no_data;
}

max_of : ℕ → ℕ → ℕ
max_of a b = if ltb a b then b else a

-- `from_api_response`; without a `wal` section it raises, and the node is `unknown`.
unfoldable pub from_api_response : Member → Response → Option Wal → MemberStatus
unfolding unknown max_of
from_api_response member json none = unknown member
from_api_response member json (some wal) =
    let in_recovery = not (ltb 0 wal.location || json.role_is_primary) in
    record {
      member = member;
      reachable = true;
      in_recovery = some in_recovery;
      wal_position = if in_recovery then max_of wal.received_location wal.replayed_location else 0;
      answer = json;
    }

pub data Limitation : Type 0 where
  not_reachable not_allowed_to_promote not_watchdog_capable : Limitation

unfoldable pub failover_limitation : MemberStatus → Option Limitation
failover_limitation st =
    if not st.reachable
    then some not_reachable
    else if st.answer.nofailover
    then some not_allowed_to_promote
    else if st.answer.watchdog_failed
    then some not_watchdog_capable
    else none

-- The `/failover` key. It counts as set if one of its names is; a missing key is one with no names.
pub record Failover : Type 0 where
  pub leader : Option Text
  pub candidate : Option Text
  pub scheduled_at : Option ℕ
  pub site : Option Text

-- `bool(failover)`, by `__len__`
unfoldable pub requested : Failover → Bool
requested f = truthy f.leader || truthy f.candidate || truthy f.site

pub record Cluster : Type 0 where
  pub initialize : Option Text
  pub leader : Option Text
  pub last_lsn : ℕ
  pub current_site : Option Text
  pub timeline : ℕ
  pub members : List Member
  pub failover : Failover
  pub sync : SyncState

-- The global configuration, as far as the race reads it.
pub record Config : Type 0 where
  pub is_paused : Bool
  pub check_timeline : Bool
  pub is_standby_cluster : Bool
  pub is_synchronous_mode : Bool
  pub is_quorum_commit_mode : Bool
  pub is_failsafe_mode : Bool
  pub maximum_lag_on_failover : ℤ
  pub min_synchronous_nodes : ℤ

-- The node that decides: PostgreSQL's state, the tags, the views of the cluster.
pub record Ha : Type 0 where
  pub config : Config
  pub open config use *
  pub cluster : Cluster
  pub old_members : List Member
  pub old_leader : Option Text
  pub name : Text
  pub site : Option Text
  pub nofailover : Bool
  pub failover_priority : ℤ
  pub last_operation : ℕ
  pub replica_timeline : Option ℕ
  pub primary_timeline : ℕ
  pub is_starting : Bool
  pub is_primary : Bool
  pub sysid : Text
  pub watchdog_is_healthy : Bool
  pub backing_off : Bool
  pub failsafe : Option (List (Text × Text))
  pub last_timeline : Option ℕ

-- Outside the program: the answer of a member's REST API, `none` where the request fails, and the
-- order in which parallel requests complete.
pub record Env : Type 0 where
  pub request : Member → Option Response
  pub as_completed : List MemberStatus → List MemberStatus

status_of : Member → Option Response → MemberStatus
unfolding from_api_response
status_of member none = unknown member
status_of member (some json) = from_api_response member json json.wal

unfoldable pub fetch_node_status : Env → Member → MemberStatus
unfolding status_of
fetch_node_status env member = status_of member (env.request member)

unfoldable pub fetch_nodes_statuses : Env → List Member → List MemberStatus
fetch_nodes_statuses env [] = []
fetch_nodes_statuses env (m ∷ ms) = env.as_completed (map (fetch_node_status env) (m ∷ ms))

unfoldable pub sync_mode_is_active : Ha → Bool
sync_mode_is_active ha = ha.is_synchronous_mode && not (SyncState.is_empty ha.cluster.sync)

unfoldable pub quorum_commit_mode_is_active : Ha → Bool
quorum_commit_mode_is_active ha =
    ha.is_quorum_commit_mode && not (SyncState.is_empty ha.cluster.sync)

unfoldable pub is_lagging : Ha → ℕ → Bool
is_lagging ha wal_position =
    ltb_ℤ ha.maximum_lag_on_failover (pos ha.cluster.last_lsn -ℤ pos wal_position)
