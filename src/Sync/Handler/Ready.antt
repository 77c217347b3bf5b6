-- ===== src/Sync/Handler/Ready.antt =====
-- When a replica counts as synchronous: `SyncHandler` of patroni/postgresql/sync.py.
use patroni.Base.{
  ℕ, ◌≡◌, Bool, true, ◌&&◌, ◌||◌, List, [], ◌∷◌, Text, text_eq, leb, select, any, arith,
  if◌then◌else◌, Bool-cases, inl, inr,
}
use patroni.Collections.CaseInsensitiveSet.{CaseInsensitiveSet, contains, same}
use patroni.Collections.CaseInsensitiveSet.Membership.{contains_congr, same_iff}
use patroni.Collections.CaseInsensitiveDict.{CaseInsensitiveDict, has_item, set_item}
use patroni.Dcs.SyncState.{SyncState}
use patroni.Sync.Replicas.{Replica}
use patroni.Sync.Handler.{
  SyncHandler, Settings, handle_names_change, becomes_ready, process_replica,
  process_replica_readiness, current_state,
}

has_item-set_item :
    (d : CaseInsensitiveDict ℕ) (key w : Text) (v : ℕ)
    → has_item (set_item d key v) w ≡ (if same key w then true else has_item d w)
unfolding has_item set_item
has_item-set_item [] key w v = ground arith
has_item-set_item ((k, u) ∷ d) key w v =
    ground (arith, has_item-set_item d key w v, same_iff k key, same_iff k w, same_iff key w)

-- Every ready replica is one of the names in `synchronous_standby_names`.
abbrev pub IsListed : SyncHandler → Type 0
IsListed h = (w : Text) → has_item h.ready_replicas w ≡ true → contains h.ssn_data.members w ≡ true

select-listed :
    (d : CaseInsensitiveDict ℕ) (s : CaseInsensitiveSet) (w : Text)
    → has_item (select (λ entry. contains s entry.0) d) w ≡ true
    → contains s w ≡ true
unfolding has_item select
select-listed [] s w h = cc
select-listed ((k, v) ∷ d) s w h = ground (arith, select-listed d s w, contains_congr s k w)

-- A change of the parameter keeps only ready replicas that it names.
handle_names_change-IsListed :
    (h : SyncHandler) (names : Text) (position : ℕ)
    → IsListed h
    → IsListed (handle_names_change h names position)
unfolding handle_names_change
handle_names_change-IsListed h names position l =
    elim (Bool-cases (text_eq names h.synchronous_standby_names)) [
      | inl e ↦ rw e l
      | inr e ↦ rw e (λ w m. select-listed h.ready_replicas _ w m)
    ]

process_replica-IsListed :
    (cfg : Settings) (sync : SyncState) (h : SyncHandler) (r : Replica)
    → IsListed h
    → IsListed (process_replica cfg sync h r)
unfolding process_replica
process_replica-IsListed cfg sync h r l w = ground (
  arith,
  l w,
  has_item-set_item h.ready_replicas r.application_name w r.pid,
  contains_congr h.ssn_data.members r.application_name w,
)

process_replica_readiness-IsListed :
    (cfg : Settings) (sync : SyncState) (h : SyncHandler) (rs : List Replica)
    → IsListed h
    → IsListed (process_replica_readiness cfg sync h rs)
unfolding process_replica_readiness
process_replica_readiness-IsListed cfg sync h [] l = l
process_replica_readiness-IsListed cfg sync h (r ∷ rs) l =
    process_replica_readiness-IsListed cfg sync (process_replica cfg sync h r) rs
      (process_replica-IsListed cfg sync h r l)

-- Whatever the parameter becomes and whatever the replicas report, the ready replicas are listed in it.
pub current_state-IsListed :
    (cfg : Settings) (sync : SyncState) (h : SyncHandler) (names : Text) (position : ℕ)
    (rs : List Replica)
    → IsListed h
    → IsListed (current_state cfg sync h names position rs).1
unfolding current_state
current_state-IsListed cfg sync h names position rs l =
    process_replica_readiness-IsListed cfg sync (handle_names_change h names position) rs
      (handle_names_change-IsListed h names position l)

-- The replica is reported, at the position or after it.
abbrev pub reached : ℕ → Text → List Replica → Bool
reached position w = any (λ r. same r.application_name w && leb position r.lsn)

process_replica-flush :
    (cfg : Settings) (sync : SyncState) (h : SyncHandler) (r : Replica)
    → (process_replica cfg sync h r).primary_flush_lsn ≡ h.primary_flush_lsn
unfolding process_replica
process_replica-flush cfg sync h r = ground arith

process_replica-reached :
    (cfg : Settings) (sync : SyncState) (h : SyncHandler) (r : Replica) (w : Text)
    → cfg.is_quorum_commit_mode ≡ true
    → has_item (process_replica cfg sync h r).ready_replicas w ≡ true
    → (has_item h.ready_replicas w || (same r.application_name w && leb h.primary_flush_lsn r.lsn))
      ≡ true
unfolding process_replica becomes_ready
process_replica-reached cfg sync h r w q m =
    ground (arith, has_item-set_item h.ready_replicas r.application_name w r.pid)

-- In quorum commit mode a replica becomes ready only if it reports the position that was remembered
-- when its name was added, or a later one.
pub process_replica_readiness-reached :
    (cfg : Settings) (sync : SyncState) (h : SyncHandler) (rs : List Replica) (w : Text)
    → cfg.is_quorum_commit_mode ≡ true
    → has_item (process_replica_readiness cfg sync h rs).ready_replicas w ≡ true
    → (has_item h.ready_replicas w || reached h.primary_flush_lsn w rs) ≡ true
unfolding process_replica_readiness any
process_replica_readiness-reached cfg sync h [] w q m = ground arith
process_replica_readiness-reached cfg sync h (r ∷ rs) w q m = ground (
  arith,
  process_replica_readiness-reached cfg sync (process_replica cfg sync h r) rs w q m,
  process_replica-reached cfg sync h r w q,
  process_replica-flush cfg sync h r,
)
