-- ===== src/Ha/Samples.antt =====
-- A cluster in quorum commit mode whose leader is gone, and a node of it that races.
use patroni.Base.{
  true, false, Option, none, some, List, [], ◌∷◌, Text, codes, text_eq, pos, if◌then◌else◌,
}
use patroni.Base.Rearranged.{Rearranged-refl}
use patroni.Dcs.SyncState.{SyncState}
use patroni.Ha.State.{Member, Response, no_data, Cluster, Config, Ha, Env}
use patroni.Ha.Race.Quorum.{Completes}

abbrev pub member : Text → Member
member name = record { name = name; api_url = some (codes "http"); nofailover = false; site = none }

abbrev pub replicas : List Member
replicas = member (codes "b") ∷ member (codes "c") ∷ member (codes "d") ∷ []

abbrev pub sync : SyncState
sync = record {
  version = none;
  leader = some (codes "a");
  sync_standby = some (codes "b,c,d");
  quorum = pos 1;
}

abbrev pub config : Config
config = record {
  is_paused = false;
  check_timeline = true;
  is_standby_cluster = false;
  is_synchronous_mode = true;
  is_quorum_commit_mode = true;
  is_failsafe_mode = false;
  maximum_lag_on_failover = pos 100;
  min_synchronous_nodes = pos 1;
}

abbrev pub cluster : Cluster
cluster = record {
  initialize = some (codes "1");
  leader = none;
  last_lsn = 50;
  current_site = none;
  timeline = 3;
  members = replicas;
  failover = record { leader = none; candidate = none; scheduled_at = none; site = none };
  sync = sync;
}

abbrev pub node : Ha
node = record {
  config = config;
  cluster = cluster;
  old_members = replicas;
  old_leader = some (codes "a");
  name = codes "b";
  site = none;
  nofailover = false;
  failover_priority = pos 1;
  last_operation = 60;
  replica_timeline = some 3;
  primary_timeline = 0;
  is_starting = false;
  is_primary = false;
  sysid = codes "1";
  watchdog_is_healthy = true;
  backing_off = false;
  failsafe = none;
  last_timeline = none;
}

-- `c` answers, and `d` does not.
abbrev pub request : Member → Option Response
request m =
    if text_eq m.name (codes "c")
    then some (record no_data {
      wal = some (record { location = 0; received_location = 58; replayed_location = 55 });
      timeline = 3;
    })
    else none

abbrev pub env : Env
env = record { request = request; as_completed = λ sts. sts }

pub env-Completes : Completes env
env-Completes sts = Rearranged-refl sts
