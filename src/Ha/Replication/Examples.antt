-- ===== src/Ha/Replication/Examples.antt =====
-- A leader whose standby `d` is gone and whose new standby is `c`, and the theorem at it.
use patroni.Base.{
  ◌≡◌, refl, false, none, some, List, [], ◌∷◌, codes, Text, pos, text_eq, lower, split_on, strip,
  lstrip, rstrip, is_space, select, sorted, insert_sorted, text_lt, all, join_on,
}
use patroni.Base.Texts.Split.{Every}
use patroni.Collections.CaseInsensitiveSet.{same, init, contains, add, eq, inter, issubset}
use patroni.Collections.CaseInsensitiveSet.Size.{IsDistinct, Subset, Subset_of_issubset}
use patroni.Dcs.SyncState
use patroni.Dcs.SyncState.{SyncState, str_to_list, from_node, sync_state}
use patroni.Dcs.SyncState.Laws.{IsName}
use patroni.Sync.Names.{SyncType}
use patroni.Sync.Handler.{CurrentState}
use patroni.Ha.State.{Ha}
use patroni.Ha.Race
use patroni.Ha.Samples.{cluster, config, node}
use patroni.Ha.Replication
use patroni.Ha.Replication.{Change, Dcs, process_multisync_replication}
use patroni.Ha.Replication.Order.{Covered, published, process_multisync_replication-Covered}

abbrev key : Text → SyncState
key names = record {
  version = some 7;
  leader = some (codes "b");
  sync_standby = some names;
  quorum = pos 0;
}

abbrev leader : Ha
leader = record node {
  config = record config { is_quorum_commit_mode = false };
  cluster = record cluster { sync = key (codes "a,d") };
}

abbrev state : CurrentState
state = record {
  sync_type = SyncType.priority;
  numsync = 2;
  sync = codes "a" ∷ codes "d" ∷ [];
  sync_confirmed = codes "a" ∷ [];
  active = codes "a" ∷ codes "c" ∷ [];
}

abbrev later : CurrentState
later = record state { sync = state.active; sync_confirmed = state.active }

abbrev dcs : Dcs
dcs call = some (some 7)

-- First the key is reduced, then the names are changed, then the key gets the new node.
abbrev changes : List Change
changes =
    Change.wrote (key (codes "a"))
    ∷ Change.set_names state.active none
    ∷ Change.wrote (key (codes "a,c"))
    ∷ []

replicated : process_multisync_replication dcs leader state later ≡ changes
unfolding process_multisync_replication Replication.write_sync_state Replication.written
    Replication.maybe_enable Replication.claim Replication.amend Replication.is_sync_type
    Replication.handle_synchronous_strict_mode Replication.assign_synchronous
    Replication.change_names Replication.move Replication.settle Replication.unless_strict
    Race.opt_eq SyncState.voters SyncState.is_empty SyncState.from_node SyncState.sync_state
    SyncState.joined str_to_list split_on strip lstrip rstrip is_space select init add same text_eq
    lower eq inter issubset contains sorted insert_sorted text_lt all join_on
replicated = refl

named : Every IsName state.active
unfolding strip lstrip rstrip is_space
named = (
  record { some_text = refl; no_comma = (refl, tt); stripped = refl },
  (record { some_text = refl; no_comma = (refl, tt); stripped = refl }, tt),
)

distinct : IsDistinct state.active
unfolding contains same text_eq lower
distinct = (refl, (refl, tt))

confirmed_active : Subset state.sync_confirmed state.active
unfolding contains same text_eq lower issubset all
confirmed_active = Subset_of_issubset state.sync_confirmed state.active refl

confirmed_sync : Subset state.sync_confirmed state.sync
unfolding contains same text_eq lower issubset all
confirmed_sync = Subset_of_issubset state.sync_confirmed state.sync refl

at_first : Subset (published leader.cluster.sync) state.sync
unfolding SyncState.voters SyncState.is_empty str_to_list split_on strip lstrip rstrip is_space
    select init add contains same text_eq lower issubset all
at_first = Subset_of_issubset (published leader.cluster.sync) state.sync refl

process_multisync_replication-Covered_example :
    Covered
      (published leader.cluster.sync)
      state.sync
      (process_multisync_replication dcs leader state later)
process_multisync_replication-Covered_example =
    process_multisync_replication-Covered dcs leader state later refl (named.0, tt) named distinct
      confirmed_active confirmed_sync (λ w h. h) at_first
