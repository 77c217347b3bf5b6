-- ===== src/Cycle/Run/Refresh.antt =====
-- The first part of `_run_cycle` of patroni/ha.py, and `sysid_valid`.
use patroni.Base.{
  ℕ, Bool, false, not, ◌&&◌, Option, none, some, Text, text_eq, leb, length, all, any,
}
use patroni.Cycle.Exec.{Error, pure, raise, gets, modify, catch, ◌>>=◌, ◌>>◌}
use patroni.Cycle.Node.{Call, Event, Node, World, M, next, perform, lift, when}
use patroni.Cycle.Lock.{has_lock, is_paused, load_cluster_from_dcs, remember_position, touch_member}

abbrev is_decimal : ℕ → Bool
is_decimal c = leb 48 c && leb c 57

-- `sysid_valid`; `str(None)` has four characters.
unfoldable pub sysid_valid : Option Text → Bool
sysid_valid none = false
sysid_valid (some sysid) = leb 10 (length sysid) && all is_decimal sysid

-- `global_config.update(self.cluster)`
unfoldable pub update_global_config : Node → Node
update_global_config s = record s { ha = record s.ha { config = s.cluster_config } }

unfoldable pub reload : World → M (Unit {0})
reload w = do
  load_cluster_from_dcs w
  modify update_global_config
  perform w (Event.call Call.reset_cluster_info_state)

-- The last position is kept for the failsafe mode, and the exception is raised again.
unfoldable pub fail_to_reload : World → Error → M (Unit {0})
fail_to_reload w e = do
  perform w (Event.call Call.reset_cluster_info_state)
  failsafe ← gets (λ s. s.ha.is_failsafe_mode)
  when failsafe (remember_position w)
  raise e

unfoldable pub note_pause : World → M (Unit {0})
note_pause w = do
  paused ← gets is_paused
  resumed ← gets (λ s. not s.ha.is_paused && s.was_paused)
  when paused (perform w (Event.call Call.watchdog_disable))
  when resumed (
      perform w (Event.call Call.schedule_sanity_checks_after_pause)
      >> perform w (Event.call Call.rewind_reset_state))
  modify (λ s. record s { was_paused = s.ha.is_paused })

unfoldable pub has_member : Node → Bool
has_member s = any (λ m. text_eq m.name s.ha.name) s.ha.cluster.members

unfoldable pub touch_missing_member : World → M (Unit {0})
touch_missing_member w = do
  present ← gets has_member
  when (not present) (touch_member w >> pure tt)

-- The keys that the holder of the lock restores.
unfoldable pub restore_initialize : World → M (Unit {0})
restore_initialize w = do
  lost ← gets (λ s. has_lock s && not (sysid_valid s.ha.cluster.initialize))
  when lost (perform w (Event.call Call.initialize))

unfoldable pub get_cluster : World → M (Unit {0})
get_cluster w = do
  n ← next
  v ← lift (w.get_cluster n)
  modify (λ s. record s {
    ha = record s.ha { cluster = v.cluster };
    cluster_config = v.config;
    has_config = v.has_config;
  })

unfoldable pub restore_config : World → M (Unit {0})
restore_config w = do
  lost ← gets (λ s. has_lock s && not s.has_config)
  when lost (perform w (Event.call Call.set_config_value) >> get_cluster w)

-- The first part of `_run_cycle`: the cluster is read.
unfoldable pub refresh : World → M (Unit {0})
refresh w = do
  modify (λ s. record s { prev_wal_lsn = s.last_wal_lsn })
  catch (reload w) (fail_to_reload w)
  note_pause w
  touch_missing_member w
  restore_initialize w
  restore_config w
