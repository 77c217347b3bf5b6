-- ===== src/Cycle/Safety/Starting.antt =====
-- Actions in progress, recovery, bootstrap and restarts of patroni/ha.py keep the invariant.
use patroni.Base.{ℕ, Bool, true, Option, none, some}
use patroni.Cycle.Node.{Action, Message, World, M}
use patroni.Cycle.Startup.{
  action_with_lock, cancel_promote, terminate_postmaster, demote_during_action, report_action,
  action_without_lock, handle_long_action_in_progress, set_start_timeout, not_starting,
  start_timed_out, start_with_lock, lose_lock_at_start, starting_with_key, return_some,
  handle_starting_instance, restart_as_standby, start_as_secondary, rewind_or_start,
  start_as_readonly, start_again, recover_crash, recover_as_standby, starts_as_primary,
  unless_started, start_primary, recover_with_lock, fail_over_after_crash, recover_or_fail_over,
  recover, forget_failed_start, failed_start, post_recover,
}
use patroni.Cycle.Safety.{Keeps, KeepsKey, Goes}
use patroni.Cycle.Safety.Rules.{Keeps-pure, Goes-seq, Goes-Keeps}
use patroni.Cycle.Safety.Primitives.{keeps_rules}
use patroni.Cycle.Safety.Asking.{split_rules}
use patroni.Cycle.Safety.Demotion.{forget_leader-Goes, failover_possible-Keeps}
use patroni.Cycle.Safety.Following.{goes_rules, key_rules, handle_crash_recovery-KeepsKey}
use patroni.Cycle.Safety.Leading.{Goes-bind-start, process_manual_failover-KeepsKey}

pub return_some-Goes : {h q : Bool} (m : M Message) → Goes h q m → Goes h q (return_some m)
unfolding return_some
return_some-Goes m k = Goes-seq _ _ k λ msg. Goes-Keeps _ (Keeps-pure _)

cancel_promote-Keeps : Keeps cancel_promote
unfolding cancel_promote
cancel_promote-Keeps = search keeps_rules depth 12

pub set_start_timeout-Keeps : (o : Option ℕ) → Keeps (set_start_timeout o)
unfolding set_start_timeout
set_start_timeout-Keeps o = search keeps_rules

module _ (w : World) where
  action_with_lock-Goes : {h q : Bool} → Goes h q (action_with_lock w)
  unfolding action_with_lock
  action_with_lock-Goes = search (goes_rules, failover_possible-Keeps) depth 12

  terminate-Keeps : Keeps (terminate_postmaster w)
  unfolding terminate_postmaster
  terminate-Keeps = search keeps_rules depth 12

  demote_during-Goes : {h q : Bool} → Goes h q (demote_during_action w)
  unfolding demote_during_action
  demote_during-Goes = search (goes_rules, terminate-Keeps) depth 12

  action_without_lock-Goes : {h q : Bool} → Goes h q (action_without_lock w)
  unfolding action_without_lock report_action
  action_without_lock-Goes = search (goes_rules, cancel_promote-Keeps, demote_during-Goes) depth 12

  pub long_action-Goes : {h q : Bool} → Goes h q (handle_long_action_in_progress w)
  unfolding handle_long_action_in_progress report_action
  long_action-Goes =
      search (split_rules, goes_rules, action_with_lock-Goes, action_without_lock-Goes) depth 12

  not_starting-Goes : {h q : Bool} → Goes h q (not_starting w)
  unfolding not_starting
  not_starting-Goes = search (goes_rules, set_start_timeout-Keeps) depth 12

  start_timed_out-Goes : {h q : Bool} → Goes h q (start_timed_out w)
  unfolding start_timed_out
  start_timed_out-Goes = search (goes_rules, failover_possible-Keeps) depth 12

  start_with_lock-Goes : {h q : Bool} → Goes h q (start_with_lock w)
  unfolding start_with_lock
  start_with_lock-Goes =
      search (goes_rules, start_timed_out-Goes, process_manual_failover-KeepsKey) depth 12

  lose_lock-Goes : {h q : Bool} → Goes h q (lose_lock_at_start w)
  unfolding lose_lock_at_start
  lose_lock-Goes = search goes_rules

  starting_with_key-Goes : {h q : Bool} → Goes h q (starting_with_key w)
  unfolding starting_with_key
  starting_with_key-Goes = search (split_rules, start_with_lock-Goes, lose_lock-Goes)

  pub starting-Goes : {h q : Bool} → Goes h q (handle_starting_instance w)
  unfolding handle_starting_instance
  starting-Goes =
      search (goes_rules, not_starting-Goes, return_some-Goes, starting_with_key-Goes) depth 12

  restart_as_standby-Goes : (msg : Message) {h q : Bool} → Goes h q (restart_as_standby msg)
  unfolding restart_as_standby
  restart_as_standby-Goes msg = search goes_rules depth 12

  start_as_secondary-Goes : {h q : Bool} → Goes h q (start_as_secondary w)
  unfolding start_as_secondary
  start_as_secondary-Goes = search (goes_rules, restart_as_standby-Goes) depth 12

  rewind_or_start-Goes : {h q : Bool} → Goes h q (rewind_or_start w)
  unfolding rewind_or_start
  rewind_or_start-Goes = search (goes_rules, start_as_secondary-Goes) depth 12

  start_again-Goes : {h q : Bool} → Goes h q (start_again w)
  unfolding start_again start_as_readonly
  start_again-Goes = search (goes_rules, rewind_or_start-Goes, restart_as_standby-Goes) depth 12

  recover_crash-KeepsKey : KeepsKey (recover_crash w)
  unfolding recover_crash
  recover_crash-KeepsKey = search (key_rules, handle_crash_recovery-KeepsKey) depth 12

  recover_as_standby-Goes : {h q : Bool} → Goes h q (recover_as_standby w)
  unfolding recover_as_standby
  recover_as_standby-Goes = search (goes_rules, recover_crash-KeepsKey, start_again-Goes) depth 12

  unless_started-Goes : (o : Option Action) {h q : Bool} → Goes h q (unless_started w o)
  unfolding unless_started
  unless_started-Goes none = search goes_rules
  unless_started-Goes (some a) = recover_as_standby-Goes

  start_primary-Goes : {q : Bool} → Goes true q (start_primary w)
  unfolding start_primary
  start_primary-Goes = search (Goes-bind-start, unless_started-Goes)

  starts_as_primary-Keeps : Keeps (starts_as_primary w)
  unfolding starts_as_primary
  starts_as_primary-Keeps = search keeps_rules depth 12

  recover_with_lock-Goes : {q : Bool} → Goes true q (recover_with_lock w)
  unfolding recover_with_lock
  recover_with_lock-Goes =
      search (goes_rules, starts_as_primary-Keeps, start_primary-Goes, recover_as_standby-Goes)
        depth 12

  recover_or_fail_over-Goes : {q : Bool} → Goes true q (recover_or_fail_over w)
  unfolding recover_or_fail_over fail_over_after_crash
  recover_or_fail_over-Goes =
      search (goes_rules, failover_possible-Keeps, recover_with_lock-Goes) depth 12

  pub recover-Goes : {h q : Bool} → Goes h q (recover w)
  unfolding recover
  recover-Goes = search (split_rules, recover_or_fail_over-Goes, recover_as_standby-Goes)

  forget_failed-Goes : {h : Bool} → Goes h true (forget_failed_start w)
  unfolding forget_failed_start
  forget_failed-Goes = search (goes_rules, forget_leader-Goes) depth 12

  failed_start-Goes : {h : Bool} → Goes h true (failed_start w)
  unfolding failed_start
  failed_start-Goes = search (goes_rules, forget_failed-Goes) depth 12

  pub post_recover-Goes : {h q : Bool} → Goes h q (post_recover w)
  unfolding post_recover
  post_recover-Goes = search (split_rules, goes_rules, return_some-Goes, failed_start-Goes)
