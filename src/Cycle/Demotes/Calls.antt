-- ===== src/Cycle/Demotes/Calls.antt =====
-- About the calls outside, the leader key and `demote` in a cycle of patroni/ha.py.
use patroni.Base.{◌≡◌, refl, ℕ, Bool, true, false, Option, none, some, arith}
use patroni.Ha.State.{Config}
use patroni.Cycle.Exec.{Error, pure, raise, gets, modify, ◌>>=◌}
use patroni.Cycle.Node.{
  Role, Mode, StopMode, Action, Call, Event, Node, Question, Reading, View, World, M, next, ask,
  read, log, perform, raise_some, submit, try_run_async, set_role,
}
use patroni.Cycle.Lock
use patroni.Cycle.Lock.{
  is_paused, set_expiry, set_is_leader, failsafe_is_active, failsafe_set_is_active, update_cluster,
  remember, reset_backoff, load_cluster_from_dcs, remember_position, publish_position,
  publish_standby, standby_timeline, remember_timeline, notice_promotion, touch_member,
  forget_leader, release_leader_key_voluntarily,
}
use patroni.Cycle.Demote.{
  asks_failover_possible, on_shutdown, notify_demotion, stop_with, get_cluster_to_follow,
  settle_key, start_after_demotion, demote,
}
use patroni.Cycle.Demotes.{
  Ready, Stays, Ends, Settled, Stays-pure, Stays-raise, Stays-gets, Stays-lift, Stays-if,
  Stays-bind, Stays-modify, Stays-next, Stays-log, Stays-catch, Stays-when, settled, settled_after,
  Ends-bind, Ends-seq,
}

pub ruleset building = (
  Stays-pure, Stays-raise, Stays-gets, Stays-lift, Stays-if, Stays-bind, Stays-next, Stays-when,
  Stays-modify,
)

raise_some-Stays : (e : Option Error) → Stays (raise_some e)
unfolding raise_some
raise_some-Stays none = search building
raise_some-Stays (some e) = search building

module _ (w : World) where
  pub ask-Stays : (q : Question) → Stays (ask w q)
  unfolding ask
  ask-Stays q = search building

  pub read-Stays : (r : Reading) → Stays (read w r)
  unfolding read
  read-Stays r = search building

  perform_idle : (e : Event) → Stays (log e) → Stays (perform w e)
  unfolding perform
  perform_idle e k = Stays-bind _ _ k λ _. search (building, raise_some-Stays)

  pub call-Stays : (c : Call) → Stays (perform w (Event.call c))
  call-Stays c = perform_idle _ (Stays-log (Event.call c) refl)

  pub postgres_follow-Stays : (r : Role) → Stays (perform w (Event.follow r))
  postgres_follow-Stays r = perform_idle _ (Stays-log (Event.follow r) refl)

  delete_leader-Stays : Stays (perform w (Event.delete_leader false))
  delete_leader-Stays = perform_idle _ (Stays-log (Event.delete_leader false) refl)

  deleted :
      {c : Config} {b : Bool} (paused : Bool) (s : Node)
      → paused ≡ false
      → Ready c b s
      → Ready c b (perform w (Event.delete_leader paused) s).1
  deleted paused s e v = rw e (delete_leader-Stays.at _ _ s v)

  delete_unpaused-Stays :
      Stays (gets is_paused >>= λ paused. perform w (Event.delete_leader paused))
  unfolding gets is_paused ◌>>=◌
  delete_unpaused-Stays = record {
    at = λ c b s v. deleted s.ha.is_paused s (rw v.same v.unpaused) v;
  }

  refresh_leader-Stays : Stays (perform w Event.refresh_leader)
  refresh_leader-Stays = perform_idle _ (Stays-log Event.refresh_leader refl)

pub set_role-Stays : (r : Role) → Stays (set_role r)
unfolding set_role
set_role-Stays r = search building

set_expiry-Stays : (t : ℕ) → Stays (set_expiry t)
unfolding set_expiry
set_expiry-Stays t = search building

pub set_is_leader-Stays : (w : World) (b : Bool) → Stays (set_is_leader w b)
unfolding set_is_leader
set_is_leader-Stays w true = search (building, read-Stays, set_expiry-Stays)
set_is_leader-Stays w false = set_expiry-Stays 0

pub failsafe_set-Stays : (t : ℕ) → Stays (failsafe_set_is_active t)
unfolding failsafe_set_is_active
failsafe_set-Stays t = search building

pub failsafe_active-Stays : (w : World) → Stays (failsafe_is_active w)
unfolding failsafe_is_active
failsafe_active-Stays w = search (building, read-Stays)

inject-Stays : Stays (modify Lock.inject_leader)
unfolding Lock.inject_leader
inject-Stays = Stays-modify _ (λ s. refl) (λ s. refl)

update_cluster-Stays : (w : World) → Stays (update_cluster w)
unfolding update_cluster
update_cluster-Stays w = search (building, failsafe_active-Stays, inject-Stays)

remember-Stays : (v : View) → Stays (modify (remember v))
unfolding remember
remember-Stays v = Stays-modify _ (λ s. ground arith) (λ s. ground arith)

reset_backoff-Stays : Stays (modify reset_backoff)
unfolding reset_backoff
reset_backoff-Stays = Stays-modify _ (λ s. ground arith) (λ s. ground arith)

remember_timeline-Stays : (t : ℕ) → Stays (modify (remember_timeline t))
unfolding remember_timeline
remember_timeline-Stays t = Stays-modify _ (λ s. ground arith) (λ s. ground arith)

submit-Stays : (a : Action) (o : Option Action) → Stays (submit a o)
unfolding submit
submit-Stays a none = search (building, Stays-log)
submit-Stays a (some b) = search building

pub try_run-Stays : (a : Action) → Stays (try_run_async a)
unfolding try_run_async
try_run-Stays a = search (building, submit-Stays)

weaken : {c : Config} {s : Node} (b : Bool) → Ready c true s → Ready c b s
weaken true v = v
weaken false v = record { unpaused = v.unpaused; same = v.same; done = refl }

module _ (w : World) where
  pub load-Stays : Stays (load_cluster_from_dcs w)
  unfolding load_cluster_from_dcs
  load-Stays =
      search
        (building, remember-Stays, update_cluster-Stays, reset_backoff-Stays, set_is_leader-Stays)
        depth 12

  pub remember_position-Stays : Stays (remember_position w)
  unfolding remember_position
  remember_position-Stays = search (building, ask-Stays, read-Stays) depth 12

  publish_standby-Stays : Stays (publish_standby w)
  unfolding publish_standby standby_timeline
  publish_standby-Stays = search (building, read-Stays, remember_timeline-Stays) depth 12

  publish_position-Stays : Stays (publish_position w)
  unfolding publish_position
  publish_position-Stays = search (building, ask-Stays, read-Stays, publish_standby-Stays) depth 12

  notice-Stays : Stays (notice_promotion w)
  unfolding notice_promotion
  notice-Stays = search (building, call-Stays) depth 12

  pub touch_member-Stays : Stays (touch_member w)
  unfolding touch_member
  touch_member-Stays =
      search (building, call-Stays, ask-Stays, publish_position-Stays, notice-Stays) depth 12

  pub forget_leader-Stays : Stays (forget_leader w)
  unfolding forget_leader
  forget_leader-Stays = search (Stays-bind, set_is_leader-Stays, delete_unpaused-Stays)

  pub release-Stays : Stays (release_leader_key_voluntarily w)
  unfolding release_leader_key_voluntarily
  release-Stays = search (building, forget_leader-Stays, touch_member-Stays)

  pub failover_possible-Stays : (n : ℕ) (b : Bool) → Stays (asks_failover_possible w n b)
  unfolding asks_failover_possible
  failover_possible-Stays n b = search building

  on_shutdown-Stays : Stays (on_shutdown w)
  unfolding on_shutdown
  on_shutdown-Stays =
      search (building, read-Stays, failover_possible-Stays, set_role-Stays, release-Stays) depth 12

  notify-Stays : Stays (notify_demotion w)
  unfolding notify_demotion
  notify-Stays = search (building, ask-Stays, call-Stays)

  settle_key-Stays : (x y z : Bool) → Stays (settle_key w x y z)
  unfolding settle_key
  settle_key-Stays true y z = refresh_leader-Stays w
  settle_key-Stays false y z = search (building, set_is_leader-Stays, release-Stays)

  ignore-Stays :
      (e : Error) → Stays (elim e [ Error.exit ↦ raise {A = Unit {0}} Error.exit | _ ↦ pure tt ])
  ignore-Stays Error.exit = Stays-raise Error.exit
  ignore-Stays _ = Stays-pure tt

  pub get_cluster-Stays : Stays (get_cluster_to_follow w)
  unfolding get_cluster_to_follow
  get_cluster-Stays = search (building, Stays-catch, ignore-Stays) depth 12

  start_after-Stays : (b : Bool) (r : Role) → Stays (start_after_demotion w b r)
  unfolding start_after_demotion
  start_after-Stays true r = search (building, try_run-Stays)
  start_after-Stays false r = search (building, ask-Stays, postgres_follow-Stays)

  -- The stop of PostgreSQL is ordered: whatever was before, the cycle is settled.
  after_call-Stays : Stays (next >>= λ n. raise_some (w.raises n))
  after_call-Stays = search (building, raise_some-Stays)

  stopped :
      (mode : StopMode) {c : Config} {b : Bool} (s : Node)
      → Ready c b s
      → Ready c true (perform w (Event.stop mode) s).1
  unfolding perform log modify settled ◌>>=◌
  stopped mode {c} s v =
      after_call-Stays.at c true _ (record { unpaused = v.unpaused; same = v.same; done = refl })

  pub stop-Stays : (mode : StopMode) → Stays (perform w (Event.stop mode))
  stop-Stays mode = record { at = λ c b s v. weaken b (stopped mode s v) }

  pub stop-Ends :
      {B : Type 0} {c : Config} (mode : StopMode) (f : Unit {0} → M B)
      → ((a : Unit {0}) → Stays (f a))
      → Ends c (perform w (Event.stop mode) >>= f)
  unfolding ◌>>=◌
  stop-Ends mode f k = record {
    at = λ s v.
        let m = perform w (Event.stop mode) in settled_after (m s).0 f k (m s).1 (stopped mode s v);
  }

  stop_with-Stays : (mode : StopMode) (x y : Bool) → Stays (stop_with w mode x y)
  unfolding stop_with
  stop_with-Stays mode x y =
      search (building, notify-Stays, stop-Stays, ask-Stays, call-Stays, on_shutdown-Stays) depth 12

  pub demote-Stays : (mode : Mode) → Stays (demote w mode)
  unfolding demote
  demote-Stays mode =
      search
        (
          building, call-Stays, ask-Stays, stop_with-Stays, set_role-Stays, settle_key-Stays,
          get_cluster-Stays, start_after-Stays,
        )
        depth 16

  stop_with-Ends : {c : Config} (mode : StopMode) (x y : Bool) → Ends c (stop_with w mode x y)
  unfolding stop_with
  stop_with-Ends mode x y = Ends-bind _ _ (search (building, notify-Stays)) λ _.
      stop-Ends mode _ λ _. search (building, ask-Stays, call-Stays, on_shutdown-Stays) depth 12

  pub demote-Ends : {c : Config} (mode : Mode) → Ends c (demote w mode)
  unfolding demote
  demote-Ends mode = Ends-bind _ _ (call-Stays w _) λ _. Ends-bind _ _ (ask-Stays w _) λ archives.
      Ends-seq _ _ (stop_with-Ends _ _ _) λ released.
        search
          (
            building, call-Stays, set_role-Stays, settle_key-Stays, get_cluster-Stays,
            start_after-Stays,
          )
          depth 16
