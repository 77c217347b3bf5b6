-- ===== src/Cycle/Demotes/Following.antt =====
-- About `follow` of patroni/ha.py, for any node.
use patroni.Base.{Bool, true, false, Option, none, some}
use patroni.Cycle.Node.{Role, Action, Message, World, M, asks_is_primary, asks_is_running}
use patroni.Cycle.Follow.{
  Target, run_or_wait, starts, returns, handle_crash_recovery, recovery_before_rewind, or_rewind,
  rewind_or_reinitialize, handle_rewind_or_reinitialize, or_else, become_standby_leader,
  keep_following, change_recovery_conf, follow_target, follow_as_standby, demote_to_follow,
  follow_in_pause, follow_paused, follow_unpaused, follow,
}
use patroni.Cycle.Demotes.{Stays, Stays-pure, Stays-log, Stays-is_primary, Stays-is_running}
use patroni.Cycle.Demotes.Calls.{
  building, ask-Stays, read-Stays, call-Stays, set_role-Stays, try_run-Stays, load-Stays,
  demote-Stays, postgres_follow-Stays,
}

ruleset calls = (
  building, ask-Stays, read-Stays, call-Stays, set_role-Stays, try_run-Stays, load-Stays,
  demote-Stays, postgres_follow-Stays, Stays-log, Stays-is_primary, Stays-is_running,
)

run_or_wait-Stays : (a : Action) (o : Option Action) → Stays (run_or_wait a o)
unfolding run_or_wait
run_or_wait-Stays a none = Stays-pure _
run_or_wait-Stays a (some b) = Stays-pure _

starts-Stays : (a : Action) → Stays (starts a)
unfolding starts
starts-Stays a = search (calls, run_or_wait-Stays)

returns-Stays : (m : M Message) → Stays m → Stays (returns m)
unfolding returns
returns-Stays m k = search building

or_rewind-Stays : (o : Option Message) → Stays (or_rewind o)
unfolding or_rewind
or_rewind-Stays none = search (building, returns-Stays, starts-Stays)
or_rewind-Stays (some msg) = search building

or_else-Stays : (o : Option Message) (m : M Message) → Stays m → Stays (or_else o m)
unfolding or_else
or_else-Stays none m k = k
or_else-Stays (some msg) m k = Stays-pure msg

module _ (w : World) where
  pub asks_is_primary-Stays : Stays (asks_is_primary w)
  unfolding asks_is_primary
  asks_is_primary-Stays = search calls

  pub asks_is_running-Stays : Stays (asks_is_running w)
  unfolding asks_is_running
  asks_is_running-Stays = search calls

  handle_crash_recovery-Stays : Stays (handle_crash_recovery w)
  unfolding handle_crash_recovery
  handle_crash_recovery-Stays = search (calls, returns-Stays, starts-Stays) depth 12

  recovery_before_rewind-Stays : (b : Bool) → Stays (recovery_before_rewind w b)
  unfolding recovery_before_rewind
  recovery_before_rewind-Stays b = search (calls, handle_crash_recovery-Stays) depth 12

  rewind_or_reinitialize-Stays : (b : Bool) → Stays (rewind_or_reinitialize w b)
  unfolding rewind_or_reinitialize
  rewind_or_reinitialize-Stays true =
      search (calls, asks_is_running-Stays, recovery_before_rewind-Stays, or_rewind-Stays) depth 12
  rewind_or_reinitialize-Stays false = search (calls, returns-Stays, starts-Stays) depth 12

  handle_rewind-Stays : Stays (handle_rewind_or_reinitialize w)
  unfolding handle_rewind_or_reinitialize
  handle_rewind-Stays = search (calls, rewind_or_reinitialize-Stays) depth 12

  become_standby_leader-Stays : (r : Role) → Stays (become_standby_leader w r)
  unfolding become_standby_leader
  become_standby_leader-Stays r = search calls depth 12

  keep_following-Stays : (r : Role) (msg : Message) → Stays (keep_following w r msg)
  unfolding keep_following
  keep_following-Stays r msg =
      search (calls, become_standby_leader-Stays, handle_rewind-Stays, or_else-Stays) depth 12

  change_recovery_conf-Stays : (r : Role) (msg : Message) → Stays (change_recovery_conf w r msg)
  unfolding change_recovery_conf
  change_recovery_conf-Stays r msg = search calls depth 12

  follow_target-Stays : (t : Target) (msg : Message) → Stays (follow_target w t msg)
  unfolding follow_target
  follow_target-Stays t msg =
      search (calls, keep_following-Stays, change_recovery_conf-Stays) depth 14

  follow_as_standby-Stays : (t : Target) (msg : Message) → Stays (follow_as_standby w t msg)
  unfolding follow_as_standby
  follow_as_standby-Stays t msg =
      search (calls, handle_rewind-Stays, or_else-Stays, follow_target-Stays) depth 14

  demote_to_follow-Stays : (msg : Message) → Stays (demote_to_follow w msg)
  unfolding demote_to_follow
  demote_to_follow-Stays msg = search calls depth 12

  follow_in_pause-Stays :
      (b : Bool) (t : Target) (msg : Message) → Stays (follow_in_pause w b t msg)
  unfolding follow_in_pause
  follow_in_pause-Stays true t msg = search calls
  follow_in_pause-Stays false t msg = search (calls, follow_as_standby-Stays) depth 12

  pub follow_paused-Stays :
      (b : Bool) (t : Target) (msg : Message) → Stays (follow_paused w b t msg)
  unfolding follow_paused
  follow_paused-Stays b t msg =
      search (calls, follow_in_pause-Stays, follow_as_standby-Stays) depth 12

  pub follow_unpaused-Stays :
      (b : Bool) (t : Target) (msg msg' : Message) → Stays (follow_unpaused w b t msg msg')
  unfolding follow_unpaused
  follow_unpaused-Stays true t msg msg' = demote_to_follow-Stays msg
  follow_unpaused-Stays false t msg msg' = follow_as_standby-Stays t msg'

  pub follow-Stays : (msg msg' : Message) (b : Bool) → Stays (follow w msg msg' b)
  unfolding follow
  follow-Stays msg msg' b =
      search (calls, asks_is_primary-Stays, follow_paused-Stays, follow_unpaused-Stays) depth 14
