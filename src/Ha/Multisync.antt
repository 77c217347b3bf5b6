-- ===== src/Ha/Multisync.antt =====
-- `_process_multisync_prepromote` and `process_sync_replication_prepromote` of patroni/ha.py.
pub mod Others
mod Examples
use patroni.Base.{
  Bool, true, false, not, ◌&&◌, Option, none, some, List, [], ◌∷◌, Text, ℤ, pos, ltb_ℤ, ltb, null,
  if◌then◌else◌,
}
use patroni.Collections.CaseInsensitiveSet.{CaseInsensitiveSet, len, discard, init, contains}
use patroni.Dcs.SyncState
use patroni.Dcs.SyncState.{truthy, or_empty}
use patroni.Ha.State.{Ha}
use patroni.Ha.Prepromote.{process_quorum_prepromote}

-- What is done before a promotion: names and their number are set, the `/sync` key could not be
-- written, or synchronous replication is disabled.
pub data Preparation : Type 0 where
  set_names : CaseInsensitiveSet → Option ℤ → Preparation
  write_failed disabled : Preparation

first_of : CaseInsensitiveSet → Text
first_of [] = []
first_of (name ∷ names) = name

unfoldable pub without_me : Ha → CaseInsensitiveSet
without_me ha =
    let sync = init (SyncState.members ha.cluster.sync) in
    if contains sync ha.name then discard sync ha.name else sync

-- The nodes to sync to in strict mode; a server without multiple synchronous standbys takes one.
unfoldable pub nodes_to_sync : Bool → Ha → CaseInsensitiveSet
unfolding first_of
nodes_to_sync supports_multiple_sync ha =
    let leader = ha.cluster.sync.leader in
    let sync = without_me ha in
    if truthy leader && not supports_multiple_sync && ltb 1 (len sync)
    then init ((if contains sync (or_empty leader) then or_empty leader else first_of sync) ∷ [])
    else sync

-- `write_sync_state` is the DCS's: whether the key with this node as the leader was written.
unfoldable pub process_multisync_prepromote :
    (Text → CaseInsensitiveSet → Bool) → Bool → Ha → Preparation
process_multisync_prepromote write_sync_state supports_multiple_sync ha =
    let strict = ltb_ℤ (pos 0) ha.min_synchronous_nodes in
    let sync = if strict then nodes_to_sync supports_multiple_sync ha else [] in
    let numsync = if strict && null sync then some ha.min_synchronous_nodes else none in
    if not (write_sync_state ha.name sync) then write_failed else set_names sync numsync

unfoldable pub process_sync_replication_prepromote :
    (Text → CaseInsensitiveSet → Bool) → Bool → Ha → Preparation
process_sync_replication_prepromote write_sync_state supports_multiple_sync ha =
    if ha.is_quorum_commit_mode
    then set_names (process_quorum_prepromote ha).0 (some (process_quorum_prepromote ha).1)
    else if ha.is_synchronous_mode
    then process_multisync_prepromote write_sync_state supports_multiple_sync ha
    else disabled
