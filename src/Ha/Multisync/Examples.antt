-- ===== src/Ha/Multisync/Examples.antt =====
-- A promotion in strict synchronous mode, and the theorem at it.
use patroni.Base.{
  ◌≡◌, refl, true, false, none, some, [], ◌∷◌, codes, pos, arith, null, text_eq, lower, split_on,
  strip, select,
}
use patroni.Collections.CaseInsensitiveSet.{same, init, contains, discard}
use patroni.Collections.CaseInsensitiveSet.Size.{Subset}
use patroni.Dcs.SyncState
use patroni.Dcs.SyncState.{str_to_list}
use patroni.Ha.State.{Ha}
use patroni.Ha.Samples.{config, node}
use patroni.Ha.Multisync.{
  set_names, without_me, nodes_to_sync, process_multisync_prepromote,
  process_sync_replication_prepromote,
}
use patroni.Ha.Multisync.Others.{process_sync_replication_prepromote_strict}

abbrev strict : Ha
strict = record node { config = record config { is_quorum_commit_mode = false } }

prepared :
    process_sync_replication_prepromote (λ name sync. true) true strict
    ≡ set_names (codes "a" ∷ codes "c" ∷ codes "d" ∷ []) none
unfolding process_sync_replication_prepromote process_multisync_prepromote nodes_to_sync without_me
    SyncState.members SyncState.voters SyncState.is_empty str_to_list split_on strip select init
    discard contains same text_eq lower
prepared = refl

process_sync_replication_prepromote_strict_example :
    (contains (codes "a" ∷ codes "c" ∷ codes "d" ∷ []) (codes "b") ≡ false)
    × Subset (codes "a" ∷ codes "c" ∷ codes "d" ∷ []) (init (SyncState.members strict.cluster.sync))
    × (null (codes "a" ∷ codes "c" ∷ codes "d" ∷ []) ≡ true → none ≡ some (pos 1))
process_sync_replication_prepromote_strict_example =
    process_sync_replication_prepromote_strict (λ name sync. true) true strict
      (codes "a" ∷ codes "c" ∷ codes "d" ∷ []) none refl refl (omega arith) prepared
