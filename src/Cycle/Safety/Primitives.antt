-- ===== src/Cycle/Safety/Primitives.antt =====
-- The calls outside and the leader key, in patroni/ha.py's cycle.
use patroni.Base.{List, ◌≡◌, refl, ℕ, Bool, true, false, Option, none, some, ◌∷◌, arith}
use patroni.Cycle.Exec.{Error, pure, gets, modify, ◌>>=◌}
use patroni.Cycle.Node.{
  Role, PostgresState, Action, Call, Event, Node, Question, Reading, View, World, M, ask, read, log,
  perform, raise_some, when, submit, try_run_async, set_role, set_state,
}
use patroni.Cycle.Lock
use patroni.Cycle.Lock.{
  is_unlocked, set_expiry, set_is_leader, is_leader, failsafe_is_active, failsafe_set_is_active,
  update_cluster, remember, reset_backoff, load_cluster_from_dcs, answered, acquire_lock,
  update_lock, remember_position, publish_position, publish_standby, standby_timeline,
  remember_timeline, notice_promotion, touch_member, forget_leader, release_leader_key_voluntarily,
}
use patroni.Cycle.Safety.{
  starts_primary, permits, holds, quiet, vouched, promotes_with_key, releases_quietly, At, Keeps,
  KeepsKey,
}
use patroni.Cycle.Safety.Rules.{
  Keeps-pure, Keeps-raise, Keeps-gets, Keeps-lift, Keeps-if, Keeps-bind, Keeps-modify, Keeps-next,
  Keeps-log, KeepsKey-Keeps, forget, forget_calm, Goes-continue, Goes-Keeps,
}

pub ruleset builders = (
  Keeps-pure, Keeps-raise, Keeps-gets, Keeps-lift, Keeps-if, Keeps-bind, Keeps-next, Keeps-log,
  Keeps-modify,
)

pub Keeps-when : (b : Bool) (m : M (Unit {0})) → Keeps m → Keeps (when b m)
unfolding when
Keeps-when true m k = k
Keeps-when false m k = Keeps-pure tt

pub ask-Keeps : (w : World) (q : Question) → Keeps (ask w q)
unfolding ask
ask-Keeps w q = search builders

pub read-Keeps : (w : World) (r : Reading) → Keeps (read w r)
unfolding read
read-Keeps w r = search builders

pub raise_some-Keeps : (e : Option Error) → Keeps (raise_some e)
unfolding raise_some
raise_some-Keeps none = search builders
raise_some-Keeps (some e) = search builders

pub perform-Keeps : (w : World) (c : Call) → Keeps (perform w (Event.call c))
unfolding perform
perform-Keeps w c = search (builders, raise_some-Keeps)

pub set_role-Keeps : (r : Role) → Keeps (set_role r)
unfolding set_role
set_role-Keeps r = Keeps-modify _ (λ s. refl) (λ s. refl)

pub set_state-Keeps : (r : PostgresState) → Keeps (set_state r)
unfolding set_state
set_state-Keeps r = Keeps-modify _ (λ s. refl) (λ s. refl)

pub forget_expiry-Keeps : Keeps (set_expiry 0)
unfolding set_expiry modify
forget_expiry-Keeps = record {
  at = λ h q s v. record {
    promotes = v.promotes;
    releases = v.releases;
    leads = refl;
    key = v.key;
    calm = v.calm;
  };
}

pub set_is_leader-Keeps : (w : World) → Keeps (set_is_leader w false)
unfolding set_is_leader
set_is_leader-Keeps w = forget_expiry-Keeps

pub is_leader-Keeps : (w : World) → Keeps (is_leader w)
unfolding is_leader
is_leader-Keeps w = search (builders, read-Keeps)

pub failsafe_is_active-Keeps : (w : World) → Keeps (failsafe_is_active w)
unfolding failsafe_is_active
failsafe_is_active-Keeps w = search (builders, read-Keeps)

pub failsafe_set_is_active-Keeps : (value : ℕ) → Keeps (failsafe_set_is_active value)
unfolding failsafe_set_is_active
failsafe_set_is_active-Keeps value = Keeps-modify _ (λ s. refl) (λ s. refl)

inject_leader-Keeps : Keeps (modify Lock.inject_leader)
unfolding Lock.inject_leader
inject_leader-Keeps = Keeps-modify _ (λ s. refl) (λ s. refl)

update_cluster-Keeps : (w : World) → Keeps (update_cluster w)
unfolding update_cluster
update_cluster-Keeps w =
    search (builders, Keeps-when, failsafe_is_active-Keeps, inject_leader-Keeps)

remember-Keeps : (v : View) → Keeps (modify (remember v))
unfolding remember
remember-Keeps v = Keeps-modify _ (λ s. ground arith) (λ s. ground arith)

reset_backoff-Keeps : Keeps (modify reset_backoff)
unfolding reset_backoff
reset_backoff-Keeps = Keeps-modify _ (λ s. ground arith) (λ s. ground arith)

pub load_cluster-Keeps : (w : World) → Keeps (load_cluster_from_dcs w)
unfolding load_cluster_from_dcs
load_cluster-Keeps w =
    search
      (
        builders, Keeps-when, remember-Keeps, update_cluster-Keeps, reset_backoff-Keeps,
        set_is_leader-Keeps,
      )
      depth 12

pub remember_position-Keeps : (w : World) → Keeps (remember_position w)
unfolding remember_position
remember_position-Keeps w = Keeps-bind _ _ (read-Keeps w Reading.wal_position) (λ lsn.
    Keeps-bind _ _ (ask-Keeps w Question.reading_succeeds)
      (λ b. Keeps-when b _ (Keeps-modify _ (λ s. refl) (λ s. refl))))

remember_timeline-Keeps : (t : ℕ) → Keeps (modify (remember_timeline t))
unfolding remember_timeline
remember_timeline-Keeps t = Keeps-modify _ (λ s. ground arith) (λ s. ground arith)

publish_standby-Keeps : (w : World) → Keeps (publish_standby w)
unfolding publish_standby standby_timeline
publish_standby-Keeps w = search (builders, read-Keeps, remember_timeline-Keeps) depth 12

publish_position-Keeps : (w : World) → Keeps (publish_position w)
unfolding publish_position
publish_position-Keeps w =
    search (builders, Keeps-when, read-Keeps, ask-Keeps, publish_standby-Keeps) depth 12

notice_promotion-Keeps : (w : World) → Keeps (notice_promotion w)
unfolding notice_promotion
notice_promotion-Keeps w = search (builders, Keeps-when, perform-Keeps) depth 12

pub touch_member-Keeps : (w : World) → Keeps (touch_member w)
unfolding touch_member
touch_member-Keeps w =
    search
      (
        builders, Keeps-when, perform-Keeps, ask-Keeps, publish_position-Keeps,
        notice_promotion-Keeps,
      )
      depth 12

-- A submitted action ends the calm.
run-At :
    (a : Action) (h q : Bool) (s : Node)
    → permits a s.history ≡ true
    → At h q s
    → At h false (record s { scheduled_action = some a; history = Event.run a ∷ s.history })
unfolding promotes_with_key releases_quietly vouched holds quiet
run-At a h q s g v = record {
  promotes = ground (arith, v.promotes, g);
  releases = v.releases;
  leads = v.leads;
  key = v.key;
  calm = refl;
}

submit-At :
    (a : Action) (o : Option Action) (h q : Bool) (s : Node)
    → permits a s.history ≡ true
    → At h q s
    → At h false (submit a o s).1
unfolding submit ◌>>=◌ modify log pure
submit-At a none h q s g v = run-At a h q s g v
submit-At a (some b) h q s g v = forget_calm v

pub try_run_async-At :
    (a : Action) (h q : Bool) (s : Node)
    → permits a s.history ≡ true
    → At h q s
    → At h false (try_run_async a s).1
unfolding try_run_async ◌>>=◌ gets
try_run_async-At a h q s g v = submit-At a s.scheduled_action h q s g v

plain_permits : (a : Action) (past : List Event) → starts_primary a ≡ false → permits a past ≡ true
unfolding permits
plain_permits Action.promote past e = ground arith
plain_permits Action.starting_primary past e = ground arith
plain_permits Action.bootstrap past e = ground arith
plain_permits _ past e = refl

pub try_run_async-KeepsKey : (a : Action) → starts_primary a ≡ false → KeepsKey (try_run_async a)
try_run_async-KeepsKey a e = record {
  at = λ h q s v. try_run_async-At a h q s (plain_permits a s.history e) v;
}

pub ruleset keeps_rules = (
  builders, Keeps-when, ask-Keeps, read-Keeps, perform-Keeps, set_role-Keeps, set_state-Keeps,
  set_is_leader-Keeps, is_leader-Keeps, failsafe_is_active-Keeps, failsafe_set_is_active-Keeps,
  load_cluster-Keeps, remember_position-Keeps, touch_member-Keeps,
)
