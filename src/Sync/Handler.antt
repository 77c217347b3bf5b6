-- ===== src/Sync/Handler.antt =====
-- `SyncHandler` of patroni/postgresql/sync.py: which replicas count as synchronous.
pub mod Ready
pub mod Choice
use patroni.Base.{
  ℕ, Bool, true, false, not, ◌&&◌, ◌||◌, Option, none, some, List, [], ◌∷◌, ◌++◌, Text, codes,
  text_eq, text_mem, ℤ, pos, ◌-ℤ◌, leb_ℤ, ltb_ℤ, leb, select, if◌then◌else◌,
}
use patroni.Collections.CaseInsensitiveSet.{CaseInsensitiveSet, len, add, init, contains}
use patroni.Collections.CaseInsensitiveDict.{CaseInsensitiveDict, set_item, has_item}
use patroni.Dcs.SyncState
use patroni.Dcs.SyncState.{SyncState}
use patroni.Sync.Names.{SyncType, Ssn, empty_ssn, placeholder, parse_sync_standby_names}
use patroni.Sync.Replicas.{Replica, max_lsn}

-- The attributes of `SyncHandler`.
pub record SyncHandler : Type 0 where
  pub synchronous_standby_names : Text
  pub ssn_data : Ssn
  pub primary_flush_lsn : ℕ
  pub ready_replicas : CaseInsensitiveDict ℕ

abbrev pub init_handler : SyncHandler
init_handler = record {
  synchronous_standby_names = [];
  ssn_data = empty_ssn;
  primary_flush_lsn = 0;
  ready_replicas = [];
}

-- The global configuration, and what the server supports.
pub record Settings : Type 0 where
  pub is_quorum_commit_mode : Bool
  pub synchronous_node_count : ℤ
  pub maximum_lag_on_syncnode : ℤ
  pub supports_multiple_sync : Bool
  pub supports_quorum_commit : Bool

or_empty_ssn : Option Ssn → Ssn
or_empty_ssn none = empty_ssn
or_empty_ssn (some ssn) = ssn

-- `_handle_synchronous_standby_names_change`, for the parameter's value and the position now.
unfoldable pub handle_names_change : SyncHandler → Text → ℕ → SyncHandler
unfolding or_empty_ssn
handle_names_change h names last_operation =
    let ssn = or_empty_ssn (parse_sync_standby_names names) in
    if text_eq names h.synchronous_standby_names then h else record {
      synchronous_standby_names = names;
      ssn_data = ssn;
      primary_flush_lsn = last_operation;
      ready_replicas = select (λ entry. contains ssn.members entry.0) h.ready_replicas;
    }

-- The replica counts as synchronous from now on.
unfoldable pub becomes_ready : Settings → SyncState → SyncHandler → Replica → Bool
becomes_ready cfg sync h r =
    if cfg.is_quorum_commit_mode
    then leb h.primary_flush_lsn r.lsn
      && (text_eq r.sync_state (codes "quorum")
          || not cfg.supports_quorum_commit
            && text_mem r.sync_state (codes "sync" ∷ codes "potential" ∷ []))
    else SyncState.matches sync (some r.application_name) false
      || text_eq r.sync_state (codes "sync") && leb h.primary_flush_lsn r.lsn

unfoldable pub process_replica : Settings → SyncState → SyncHandler → Replica → SyncHandler
process_replica cfg sync h r =
    if not (has_item h.ready_replicas r.application_name)
      && contains h.ssn_data.members r.application_name
      && becomes_ready cfg sync h r
    then record h { ready_replicas = set_item h.ready_replicas r.application_name r.pid }
    else h

-- `_process_replica_readiness`
unfoldable pub process_replica_readiness :
    Settings → SyncState → SyncHandler → List Replica → SyncHandler
unfolding process_replica
process_replica_readiness cfg sync h [] = h
process_replica_readiness cfg sync h (r ∷ rs) =
    process_replica_readiness cfg sync (process_replica cfg sync h r) rs

-- The sets that `current_state` fills.
pub record Chosen : Type 0 where
  pub active : CaseInsensitiveSet
  pub confirmed : CaseInsensitiveSet

abbrev pub node_count : Settings → ℤ
node_count cfg = if cfg.supports_multiple_sync then cfg.synchronous_node_count else pos 1

-- The lag is below `maximum_lag_on_syncnode`, where that is set.
unfoldable pub is_near : Settings → ℕ → Replica → Bool
is_near cfg greatest r =
    leb_ℤ cfg.maximum_lag_on_syncnode (pos 0)
    || leb_ℤ (pos greatest -ℤ pos r.lsn) cfg.maximum_lag_on_syncnode

-- A near replica in quorum commit mode.
unfoldable pub choose_quorum : Settings → SyncHandler → Replica → Chosen → Chosen
choose_quorum cfg h r c =
    if not r.nofailover || ltb_ℤ (pos (len c.active)) (node_count cfg)
    then record {
      active = add c.active r.application_name;
      confirmed =
          if has_item h.ready_replicas r.application_name
          then add c.confirmed r.application_name
          else c.confirmed;
    }
    else c

-- And without it.
unfoldable pub choose_priority : SyncHandler → Replica → Chosen → Chosen
choose_priority h r c = record {
  active = add c.active r.application_name;
  confirmed =
      if text_eq r.sync_state (codes "sync") && has_item h.ready_replicas r.application_name
      then add c.confirmed r.application_name
      else c.confirmed;
}

-- The loop of `current_state`; without quorum commit it stops at the wanted number.
unfoldable pub choose : Settings → SyncHandler → ℕ → List Replica → Chosen → Chosen
unfolding is_near
choose cfg h greatest [] c = c
choose cfg h greatest (r ∷ rs) c =
    if not (is_near cfg greatest r)
    then choose cfg h greatest rs c
    else if cfg.is_quorum_commit_mode
    then choose cfg h greatest rs (choose_quorum cfg h r c)
    else if leb_ℤ (node_count cfg) (pos (len (choose_priority h r c).active))
    then choose_priority h r c
    else choose cfg h greatest rs (choose_priority h r c)

-- `sorted(replica_list, key=lambda x: x.nofailover)`
unfoldable pub promotable_first : List Replica → List Replica
promotable_first rs = select (λ r. not r.nofailover) rs ++ select (λ r. r.nofailover) rs

-- `_SyncState`
pub record CurrentState : Type 0 where
  pub sync_type : SyncType
  pub numsync : ℕ
  pub sync : CaseInsensitiveSet
  pub sync_confirmed : CaseInsensitiveSet
  pub active : CaseInsensitiveSet

-- `current_state`, given the parameter's value, the positions and the sorted replicas.
unfoldable pub current_state :
    Settings → SyncState → SyncHandler → Text → ℕ → List Replica → CurrentState × SyncHandler
current_state cfg sync h names last_operation rs =
    let h' = process_replica_readiness cfg sync (handle_names_change h names last_operation) rs in
    let c =
      choose cfg h' (max_lsn last_operation rs) (promotable_first rs)
        (record { active = []; confirmed = [] }) in
    (
      record {
        sync_type = h'.ssn_data.sync_type;
        numsync = h'.ssn_data.num;
        sync = if h'.ssn_data.has_star then init (placeholder ∷ []) else h'.ssn_data.members;
        sync_confirmed = c.confirmed;
        active = c.active;
      },
      h',
    )
