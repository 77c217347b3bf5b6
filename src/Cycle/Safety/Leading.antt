-- ===== src/Cycle/Safety/Leading.antt =====
-- The holder of the leader key, and the leader race, of patroni/ha.py keep the invariant.
use patroni.Base.{◌≡◌, refl, ℕ, Bool, true, false, ◌∷◌, [], List, Option, none, some, arith}
use patroni.Ha.Manual.{Write}
use patroni.Cycle.Exec.{modify, ◌>>=◌}
use patroni.Cycle.Node.{Action, Event, Message, Node, World, M, log, try_run_async}
use patroni.Cycle.Primary.{
  enforce_follow_remote_member, watchdog_is_ready, give_up_without_watchdog, reset_response,
  cancel_promotion, submit_promotion, prepare_synchronous_replication, promote_standby,
  become_primary, ask_and_become_primary, check_and_become_primary, enforce_primary_role,
  should_run_scheduled_action, clear_failover_key, clean_up, hand_over,
  process_failover_from_leader, process_when_due, process_manual_failover_from_leader,
  continue_as_leader, or_continue, with_updated_lock, lose_lock, without_updated_lock, keep_lock,
  remove_lock, hold_in_pause, hold_lock, follow_leader, process_healthy_cluster,
}
use patroni.Cycle.Unhealthy.{
  back_off, start_backoff, write_all, asks_healthiest, settle_failover_key, win_race, race,
  not_the_healthiest, race_if_healthiest, race_unless_backing_off, process_unhealthy_cluster,
}
use patroni.Cycle.Safety.{
  permits, holds, quiet, vouched, promotes_with_key, releases_quietly, At, Keeps, KeepsKey, Goes,
}
use patroni.Cycle.Safety.Rules.{Keeps-bind, Keeps-modify, Goes-continue}
use patroni.Cycle.Safety.Primitives.{keeps_rules, try_run_async-At}
use patroni.Cycle.Safety.Asking.{split_rules, is_primary_or_unpaused-KeepsKey}
use patroni.Cycle.Safety.Demotion.{release-Goes, forget_leader-Goes, failover_possible-Keeps}
use patroni.Cycle.Safety.Following.{goes_rules, key_rules, follow_decision-Goes}

-- With the leader key, all actions but a bootstrap may be submitted.
abbrev is_bootstrap : Action → Bool
is_bootstrap Action.bootstrap = true
is_bootstrap _ = false

permits_with_key :
    (a : Action) (past : List Event)
    → is_bootstrap a ≡ false
    → holds past ≡ true
    → permits a past ≡ true
unfolding permits
permits_with_key Action.promote past e h = h
permits_with_key Action.starting_primary past e h = h
permits_with_key Action.bootstrap past e h = ground arith
permits_with_key _ past e h = refl

pub Goes-bind-start :
    {B : Type 0} (a : Action) (f : Option Action → M B) {q : Bool}
    → is_bootstrap a ≡ false
    → ((o : Option Action) → Goes true false (f o))
    → Goes true q (try_run_async a >>= f)
unfolding ◌>>=◌
Goes-bind-start a f {q} e k = record {
  at = λ s v.
      let (r, s') = try_run_async a s in
      (Goes-continue r f k).at s'
        (try_run_async-At a true q s (permits_with_key a s.history e v.key) v);
}

failed-At :
    (h q : Bool) (s : Node)
    → At h q s
    → At h true (record s { history = Event.pre_promote_failed ∷ s.history })
unfolding promotes_with_key releases_quietly vouched holds quiet
failed-At h q s v = record {
  promotes = v.promotes;
  releases = v.releases;
  leads = v.leads;
  key = v.key;
  calm = refl;
}

Goes-bind-failed :
    {B : Type 0} (f : Unit {0} → M B) {h q : Bool}
    → ((a : Unit {0}) → Goes h true (f a))
    → Goes h q (log Event.pre_promote_failed >>= f)
unfolding log modify ◌>>=◌
Goes-bind-failed f {h} {q} k = record { at = λ s v. (k tt).at _ (failed-At h q s v) }

pub reset_response-Keeps : Keeps reset_response
unfolding reset_response
reset_response-Keeps = search keeps_rules

prepare-Keeps : (w : World) → Keeps (prepare_synchronous_replication w)
unfolding prepare_synchronous_replication
prepare-Keeps w = search keeps_rules depth 12

watchdog_is_ready-Keeps : (w : World) → Keeps (watchdog_is_ready w)
unfolding watchdog_is_ready
watchdog_is_ready-Keeps w = search keeps_rules depth 12

clear_failover_key-Keeps : (w : World) → Keeps (clear_failover_key w)
unfolding clear_failover_key
clear_failover_key-Keeps w = search keeps_rules

pub should_run-Keeps :
    (w : World) (at : Option ℕ) (m : M (Unit {0}))
    → Keeps m
    → Keeps (should_run_scheduled_action w at m)
unfolding should_run_scheduled_action
should_run-Keeps w none m k = search keeps_rules
should_run-Keeps w (some at) m k = search keeps_rules depth 12

module _ (w : World) where
  enforce_follow-Goes : (msg : Message) {h q : Bool} → Goes h q (enforce_follow_remote_member w msg)
  unfolding enforce_follow_remote_member
  enforce_follow-Goes msg = follow_decision-Goes w _ _ _

  give_up-true : {h q : Bool} → Goes h q (give_up_without_watchdog w true)
  unfolding give_up_without_watchdog
  give_up-true = search goes_rules

  give_up-false : {h : Bool} → Goes h true (give_up_without_watchdog w false)
  unfolding give_up_without_watchdog
  give_up-false = search (goes_rules, release-Goes)

  cancel_promotion-Goes : {h q : Bool} → Goes h q (cancel_promotion w)
  unfolding cancel_promotion
  cancel_promotion-Goes =
      search (Goes-bind-failed, goes_rules, release-Goes, reset_response-Keeps) depth 12

  submit_promotion-Goes : {q : Bool} → Goes true q (submit_promotion w)
  unfolding submit_promotion
  submit_promotion-Goes = search (Goes-bind-start, goes_rules, reset_response-Keeps) depth 12

  promote_standby-Goes : (msg : Message) {q : Bool} → Goes true q (promote_standby w msg)
  unfolding promote_standby
  promote_standby-Goes msg = search (goes_rules, prepare-Keeps, submit_promotion-Goes) depth 12

  become_primary-Goes :
      (b : Bool) (msg msg' : Message) {q : Bool} → Goes true q (become_primary w b msg msg')
  unfolding become_primary
  become_primary-Goes true msg msg' = search goes_rules depth 12
  become_primary-Goes false msg msg' = search (goes_rules, promote_standby-Goes) depth 12

  ask_and_become-Goes :
      (msg msg' : Message) {q : Bool} → Goes true q (ask_and_become_primary w msg msg')
  unfolding ask_and_become_primary
  ask_and_become-Goes msg msg' = search (goes_rules, become_primary-Goes)

  check_and_become-Goes :
      (msg msg' : Message) {q : Bool} → Goes true q (check_and_become_primary w msg msg')
  unfolding check_and_become_primary
  check_and_become-Goes msg msg' =
      search
        (
          split_rules, goes_rules, watchdog_is_ready-Keeps, give_up-true, give_up-false,
          cancel_promotion-Goes, ask_and_become-Goes,
        )
        depth 12

  enforce_primary_role-Goes :
      (msg msg' : Message) {q : Bool} → Goes true q (enforce_primary_role w msg msg')
  unfolding enforce_primary_role
  enforce_primary_role-Goes msg msg' =
      search (goes_rules, check_and_become-Goes, ask_and_become-Goes)

  clean_up-KeepsKey : KeepsKey (clean_up w)
  unfolding clean_up
  clean_up-KeepsKey = search (key_rules, clear_failover_key-Keeps)

  hand_over-KeepsKey : KeepsKey (hand_over w)
  unfolding hand_over
  hand_over-KeepsKey = search (key_rules, failover_possible-Keeps, clean_up-KeepsKey) depth 12

  process_failover-KeepsKey : KeepsKey (process_failover_from_leader w)
  unfolding process_failover_from_leader
  process_failover-KeepsKey = search (key_rules, hand_over-KeepsKey, clean_up-KeepsKey)

  process_when_due-KeepsKey : (o : Option ℕ) → KeepsKey (process_when_due w o)
  unfolding process_when_due
  process_when_due-KeepsKey none = process_failover-KeepsKey
  process_when_due-KeepsKey (some at) =
      search (key_rules, should_run-Keeps, clear_failover_key-Keeps, process_failover-KeepsKey)
        depth 12

  pub process_manual_failover-KeepsKey : KeepsKey (process_manual_failover_from_leader w)
  unfolding process_manual_failover_from_leader
  process_manual_failover-KeepsKey =
      search (key_rules, is_primary_or_unpaused-KeepsKey, process_when_due-KeepsKey) depth 12

  continue_as_leader-Goes : {q : Bool} → Goes true q (continue_as_leader w)
  unfolding continue_as_leader
  continue_as_leader-Goes =
      search (goes_rules, enforce_follow-Goes, enforce_primary_role-Goes) depth 12

  or_continue-Goes : (o : Option Message) {q : Bool} → Goes true q (or_continue w o)
  unfolding or_continue
  or_continue-Goes none = continue_as_leader-Goes
  or_continue-Goes (some msg) = search goes_rules

  with_updated_lock-Goes : {q : Bool} → Goes true q (with_updated_lock w)
  unfolding with_updated_lock
  with_updated_lock-Goes = search (goes_rules, process_manual_failover-KeepsKey, or_continue-Goes)

  lose_lock-Goes : (b p : Bool) {h q : Bool} → Goes h q (lose_lock w b p)
  unfolding lose_lock
  lose_lock-Goes false p = search goes_rules
  lose_lock-Goes true true = search goes_rules
  lose_lock-Goes true false = search goes_rules

  without_updated_lock-Goes : {h q : Bool} → Goes h q (without_updated_lock w)
  unfolding without_updated_lock
  without_updated_lock-Goes = search (goes_rules, lose_lock-Goes)

  keep_lock-Goes : {h q : Bool} → Goes h q (keep_lock w)
  unfolding keep_lock
  keep_lock-Goes = search (split_rules, with_updated_lock-Goes, without_updated_lock-Goes)

  remove_lock-Goes : {h : Bool} → Goes h true (remove_lock w)
  unfolding remove_lock
  remove_lock-Goes = search (goes_rules, forget_leader-Goes)

  hold_in_pause-Goes : {h : Bool} → Goes h true (hold_in_pause w)
  unfolding hold_in_pause
  hold_in_pause-Goes = search (goes_rules, keep_lock-Goes, remove_lock-Goes) depth 12

  hold_lock-Goes : {h q : Bool} → Goes h q (hold_lock w)
  unfolding hold_lock
  hold_lock-Goes = search (split_rules, goes_rules, keep_lock-Goes, hold_in_pause-Goes)

  follow_leader-Goes : {h q : Bool} → Goes h q (follow_leader w)
  unfolding follow_leader
  follow_leader-Goes = search (goes_rules, follow_decision-Goes)

  pub process_healthy_cluster-Goes : {h q : Bool} → Goes h q (process_healthy_cluster w)
  unfolding process_healthy_cluster
  process_healthy_cluster-Goes = search (goes_rules, hold_lock-Goes, follow_leader-Goes)

  start_backoff-Keeps : (now : ℕ) → Keeps (modify (start_backoff now))
  unfolding start_backoff
  start_backoff-Keeps now = Keeps-modify _ (λ s. ground arith) (λ s. ground arith)

  back_off-Keeps : Keeps (back_off w)
  unfolding back_off
  back_off-Keeps = search (keeps_rules, start_backoff-Keeps) depth 12

  write_all-Keeps : (writes : List Write) → Keeps (write_all w writes)
  unfolding write_all
  write_all-Keeps [] = search keeps_rules
  write_all-Keeps (Write.clear_failover_key ∷ writes) =
      Keeps-bind _ _ (clear_failover_key-Keeps w) λ _. write_all-Keeps writes

  asks_healthiest-Keeps : Keeps (asks_healthiest w)
  unfolding asks_healthiest
  asks_healthiest-Keeps = search (keeps_rules, write_all-Keeps) depth 12

  settle_failover_key-Keeps : Keeps (settle_failover_key w)
  unfolding settle_failover_key
  settle_failover_key-Keeps = search keeps_rules depth 12

  win_race-Goes : {q : Bool} → Goes true q (win_race w)
  unfolding win_race
  win_race-Goes =
      search (goes_rules, settle_failover_key-Keeps, enforce_follow-Goes, enforce_primary_role-Goes)
        depth 12

  race-Goes : {h q : Bool} → Goes h q (race w)
  unfolding race
  race-Goes = search (split_rules, win_race-Goes, follow_decision-Goes)

  not_the_healthiest-Goes : {h q : Bool} → Goes h q (not_the_healthiest w)
  unfolding not_the_healthiest
  not_the_healthiest-Goes = search (goes_rules, follow_decision-Goes) depth 12

  race_if_healthiest-Goes : {h q : Bool} → Goes h q (race_if_healthiest w)
  unfolding race_if_healthiest
  race_if_healthiest-Goes =
      search (goes_rules, asks_healthiest-Keeps, race-Goes, not_the_healthiest-Goes)

  race_unless-Goes : {h q : Bool} → Goes h q (race_unless_backing_off w)
  unfolding race_unless_backing_off
  race_unless-Goes = search (goes_rules, back_off-Keeps, race_if_healthiest-Goes)

  pub process_unhealthy_cluster-Goes : {h q : Bool} → Goes h q (process_unhealthy_cluster w)
  unfolding process_unhealthy_cluster
  process_unhealthy_cluster-Goes = search (goes_rules, race_unless-Goes, race_if_healthiest-Goes)
