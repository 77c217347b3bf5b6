-- ===== src/Cycle/Demotes/Promoting.antt =====
-- About what the holder of the leader key does in patroni/ha.py, for any node.
use patroni.Base.{ℕ, Bool, true, false, Option, none, some, List, [], ◌∷◌}
use patroni.Ha.Manual.{Write}
use patroni.Cycle.Node.{Call, Message, World}
use patroni.Cycle.Primary.{
  watchdog_is_ready, give_up_without_watchdog, reset_response, cancel_promotion, submit_promotion,
  prepare_synchronous_replication, promote_standby, become_primary, ask_and_become_primary,
  check_and_become_primary, enforce_primary_role, should_run_scheduled_action, clear_failover_key,
  clean_up, hand_over, process_failover_from_leader, process_when_due, is_primary_or_unpaused,
  process_manual_failover_from_leader, continue_as_leader, or_continue, with_updated_lock,
  enforce_follow_remote_member,
}
use patroni.Cycle.Unhealthy.{write_all, settle_failover_key, win_race}
use patroni.Cycle.Demotes.{Stays, Stays-bind, Stays-log, Stays-is_primary, Stays-is_running}
use patroni.Cycle.Demotes.Calls.{
  building, ask-Stays, read-Stays, call-Stays, set_role-Stays, failsafe_set-Stays, try_run-Stays,
  load-Stays, touch_member-Stays, release-Stays, failover_possible-Stays, demote-Stays,
}
use patroni.Cycle.Demotes.Following.{asks_is_primary-Stays, follow-Stays}

ruleset calls = (
  building, ask-Stays, read-Stays, call-Stays, set_role-Stays, failsafe_set-Stays, try_run-Stays,
  load-Stays, touch_member-Stays, release-Stays, failover_possible-Stays, demote-Stays, Stays-log,
  Stays-is_primary, Stays-is_running,
)

reset_response-Stays : Stays reset_response
unfolding reset_response
reset_response-Stays = search building

module _ (w : World) where
  ready-Stays : Stays (watchdog_is_ready w)
  unfolding watchdog_is_ready
  ready-Stays = search calls

  give_up-Stays : (b : Bool) → Stays (give_up_without_watchdog w b)
  unfolding give_up_without_watchdog
  give_up-Stays true = search calls
  give_up-Stays false = search calls

  cancel_promotion-Stays : Stays (cancel_promotion w)
  unfolding cancel_promotion
  cancel_promotion-Stays = search (calls, reset_response-Stays) depth 12

  submit_promotion-Stays : Stays (submit_promotion w)
  unfolding submit_promotion
  submit_promotion-Stays = search (calls, reset_response-Stays) depth 12

  prepare-Stays : Stays (prepare_synchronous_replication w)
  unfolding prepare_synchronous_replication
  prepare-Stays = search calls depth 12

  promote_standby-Stays : (msg : Message) → Stays (promote_standby w msg)
  unfolding promote_standby
  promote_standby-Stays msg = search (calls, prepare-Stays, submit_promotion-Stays) depth 12

  become_primary-Stays : (b : Bool) (msg msg' : Message) → Stays (become_primary w b msg msg')
  unfolding become_primary
  become_primary-Stays true msg msg' = search calls depth 12
  become_primary-Stays false msg msg' = search (calls, promote_standby-Stays) depth 12

  ask_and_become-Stays : (msg msg' : Message) → Stays (ask_and_become_primary w msg msg')
  unfolding ask_and_become_primary
  ask_and_become-Stays msg msg' = search (calls, asks_is_primary-Stays, become_primary-Stays)

  check_and_become-Stays : (msg msg' : Message) → Stays (check_and_become_primary w msg msg')
  unfolding check_and_become_primary
  check_and_become-Stays msg msg' =
      search
        (
          calls, asks_is_primary-Stays, ready-Stays, give_up-Stays, cancel_promotion-Stays,
          ask_and_become-Stays,
        )
        depth 12

  pub enforce_primary_role-Stays : (msg msg' : Message) → Stays (enforce_primary_role w msg msg')
  unfolding enforce_primary_role
  enforce_primary_role-Stays msg msg' = search (calls, check_and_become-Stays, ask_and_become-Stays)

  clear-Stays : Stays (clear_failover_key w)
  unfolding clear_failover_key
  clear-Stays = call-Stays w Call.clear_failover_key

  should_run-Stays :
      (at : ℕ) → Stays (should_run_scheduled_action w (some at) (clear_failover_key w))
  unfolding should_run_scheduled_action
  should_run-Stays at = search (calls, clear-Stays) depth 12

  clean_up-Stays : Stays (clean_up w)
  unfolding clean_up
  clean_up-Stays = search (calls, clear-Stays)

  hand_over-Stays : Stays (hand_over w)
  unfolding hand_over
  hand_over-Stays = search (calls, clean_up-Stays) depth 12

  process_failover-Stays : Stays (process_failover_from_leader w)
  unfolding process_failover_from_leader
  process_failover-Stays = search (calls, hand_over-Stays, clean_up-Stays)

  when_due-Stays : (o : Option ℕ) → Stays (process_when_due w o)
  unfolding process_when_due
  when_due-Stays none = process_failover-Stays
  when_due-Stays (some at) = search (calls, should_run-Stays, process_failover-Stays)

  unpaused-Stays : Stays (is_primary_or_unpaused w)
  unfolding is_primary_or_unpaused
  unpaused-Stays = search (calls, asks_is_primary-Stays)

  pub process_manual_failover-Stays : Stays (process_manual_failover_from_leader w)
  unfolding process_manual_failover_from_leader
  process_manual_failover-Stays = search (calls, unpaused-Stays, when_due-Stays) depth 12

  pub settle_failover_key-Stays : Stays (settle_failover_key w)
  unfolding settle_failover_key
  settle_failover_key-Stays = search calls depth 12

  pub write_all-Stays : (writes : List Write) → Stays (write_all w writes)
  unfolding write_all
  write_all-Stays [] = search building
  write_all-Stays (Write.clear_failover_key ∷ writes) =
      Stays-bind _ _ clear-Stays λ _. write_all-Stays writes

  continue_as_leader-Stays : Stays (continue_as_leader w)
  unfolding continue_as_leader enforce_follow_remote_member
  continue_as_leader-Stays = search (calls, follow-Stays, enforce_primary_role-Stays) depth 12

  or_continue-Stays : (o : Option Message) → Stays (or_continue w o)
  unfolding or_continue
  or_continue-Stays none = continue_as_leader-Stays
  or_continue-Stays (some msg) = search building

  pub with_updated_lock-Stays : Stays (with_updated_lock w)
  unfolding with_updated_lock
  with_updated_lock-Stays = search (calls, process_manual_failover-Stays, or_continue-Stays)

  pub win_race-Stays : Stays (win_race w)
  unfolding win_race enforce_follow_remote_member
  win_race-Stays =
      search (calls, settle_failover_key-Stays, follow-Stays, enforce_primary_role-Stays) depth 12
