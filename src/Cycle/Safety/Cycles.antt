-- ===== src/Cycle/Safety/Cycles.antt =====
-- `run_cycle` of patroni/ha.py, and a node that runs it again and again, keep the invariant.
use patroni.Base.{◌≡◌, refl, Bool, true, false, Option, none, some, if◌then◌else◌}
use patroni.Cycle.Exec.{Error, pure, gets, modify, ◌>>=◌}
use patroni.Cycle.Node.{
  PostgresState, Action, Message, Node, Question, World, M, next, ask, when, set_state,
}
use patroni.Cycle.Lock.{is_paused, forget_leader, release_leader_key_voluntarily}
use patroni.Cycle.Run.{
  update_global_config, reload, fail_to_reload, note_pause, touch_missing_member,
  restore_initialize, get_cluster, restore_config, refresh, call_on_start, or_copying, copy_slots,
  sync_replication_slots, handle_slots, finish_processing, process_healthy, process_cluster,
  start_dead_postgres, remove_lock, dead_in_pause, dead_postgres, check_health, release_mismatched,
  sysid_mismatch,
}
use patroni.Cycle.Safety.{At, Keeps, KeepsKey, Goes}
use patroni.Cycle.Safety.Rules.{
  forget, Keeps-next, Keeps-catch, Goes-bind, Goes-seq, Goes-KeepsKey, Goes-continue, Goes-if,
}
use patroni.Cycle.Safety.Primitives.{keeps_rules, set_state-Keeps}
use patroni.Cycle.Safety.Asking.{asks_is_primary-KeepsKey}
use patroni.Cycle.Safety.Demotion.{forget_leader-At}
use patroni.Cycle.Safety.Following.{goes_rules, key_rules}
use patroni.Cycle.Safety.Leading.{process_healthy_cluster-Goes, process_unhealthy_cluster-Goes}
use patroni.Cycle.Safety.Starting.{recover-Goes}
use patroni.Cycle.Safety.Bootstrapping.{scheduled_restart-Goes}

module _ (w : World) where
  reload-Keeps : Keeps (reload w)
  unfolding reload update_global_config
  reload-Keeps = search keeps_rules depth 12

  fail-Keeps : (e : Error) → Keeps (fail_to_reload w e)
  unfolding fail_to_reload
  fail-Keeps e = search keeps_rules depth 12

  note_pause-Keeps : Keeps (note_pause w)
  unfolding note_pause
  note_pause-Keeps = search keeps_rules depth 14

  touch_missing-Keeps : Keeps (touch_missing_member w)
  unfolding touch_missing_member
  touch_missing-Keeps = search keeps_rules depth 12

  restore_initialize-Keeps : Keeps (restore_initialize w)
  unfolding restore_initialize
  restore_initialize-Keeps = search keeps_rules depth 12

  get_cluster-Keeps : Keeps (get_cluster w)
  unfolding get_cluster
  get_cluster-Keeps = search keeps_rules depth 12

  restore_config-Keeps : Keeps (restore_config w)
  unfolding restore_config
  restore_config-Keeps = search (keeps_rules, get_cluster-Keeps) depth 12

  pub refresh-Keeps : Keeps (refresh w)
  unfolding refresh
  refresh-Keeps =
      search
        (
          keeps_rules, Keeps-catch, reload-Keeps, fail-Keeps, note_pause-Keeps, touch_missing-Keeps,
          restore_initialize-Keeps, restore_config-Keeps,
        )
        depth 14

  unless_promoting-KeepsKey : (b : Bool) → KeepsKey (call_on_start w b)
  unfolding call_on_start
  unless_promoting-KeepsKey b = search (key_rules, asks_is_primary-KeepsKey) depth 14

  or_copying-Keeps : (msg : Message) (o : Option Action) → Keeps (or_copying msg o)
  unfolding or_copying
  or_copying-Keeps msg none = search keeps_rules
  or_copying-Keeps msg (some a) = search keeps_rules

  copy_slots-KeepsKey : (b : Bool) (msg : Message) → KeepsKey (copy_slots b msg)
  unfolding copy_slots
  copy_slots-KeepsKey false msg = search key_rules
  copy_slots-KeepsKey true msg = search (key_rules, or_copying-Keeps)

  pub sync_slots-Keeps : (b : Bool) → Keeps (sync_replication_slots w b)
  unfolding sync_replication_slots
  sync_slots-Keeps b = search keeps_rules depth 12

  when-KeepsKey : (b : Bool) (m : M (Unit {0})) → KeepsKey m → KeepsKey (when b m)
  unfolding when
  when-KeepsKey true m k = k
  when-KeepsKey false m k = search key_rules

  handle_slots-KeepsKey : (b : Bool) (msg : Message) → KeepsKey (handle_slots w b msg)
  unfolding handle_slots
  handle_slots-KeepsKey b msg =
      search
        (key_rules, sync_slots-Keeps, when-KeepsKey, unless_promoting-KeepsKey, copy_slots-KeepsKey)
        depth 12

  finish_processing-KeepsKey : (msg : Message) → KeepsKey (finish_processing w msg)
  unfolding finish_processing
  finish_processing-KeepsKey msg = search (key_rules, handle_slots-KeepsKey) depth 12

  process_healthy-Goes : {h q : Bool} → Goes h q (process_healthy w)
  unfolding process_healthy
  process_healthy-Goes =
      search (goes_rules, process_healthy_cluster-Goes, scheduled_restart-Goes) depth 12

  process_cluster-Goes : {h q : Bool} → Goes h q (process_cluster w)
  unfolding process_cluster
  process_cluster-Goes = Goes-bind _ _ (search keeps_rules) λ unlocked.
      Goes-seq _ _ (Goes-if unlocked _ _ (process_unhealthy_cluster-Goes w) process_healthy-Goes)
        λ msg. Goes-KeepsKey _ (finish_processing-KeepsKey msg)

  start_dead-Goes : {h q : Bool} → Goes h q (start_dead_postgres w)
  unfolding start_dead_postgres
  start_dead-Goes = search (goes_rules, recover-Goes) depth 12

-- In pause, the leader key may be deleted at any time.
record GoesPaused {A : Type 0} (m : M A) : Type 0 where
  at : (h q : Bool) (s : Node) → is_paused s ≡ true → At h q s → At false false (m s).1

module _ {A : Type 0} where
  GoesPaused-Goes : (m : M A) → Goes false false m → GoesPaused m
  GoesPaused-Goes m k = record { at = λ h q s p v. k.at s (forget v) }

  GoesPaused-if :
      (b : Bool) (m n : M A) → GoesPaused m → GoesPaused n → GoesPaused (if b then m else n)
  GoesPaused-if true m n km kn = km
  GoesPaused-if false m n km kn = kn

  GoesPaused-forget :
      (w : World) (f : Unit {0} → M A)
      → ((a : Unit {0}) → Goes false false (f a))
      → GoesPaused (forget_leader w >>= f)
  unfolding ◌>>=◌
  GoesPaused-forget w f k = record {
    at = λ h q s p v.
        (Goes-continue (forget_leader w s).0 f k).at (forget_leader w s).1
          (forget (forget_leader-At w h q s (rw p refl) v));
  }

  GoesPaused-ask :
      (w : World) (x : Question) (f : Bool → M A)
      → ((b : Bool) → GoesPaused (f b))
      → GoesPaused (ask w x >>= f)
  unfolding ask next pure is_paused ◌>>=◌
  GoesPaused-ask w x f k = record {
    at = λ h q s p v. (k (w.answer s.tick x)).at h q _ p (Keeps-next.at h q s v);
  }

  GoesPaused-stop :
      (f : Unit {0} → M A)
      → ((a : Unit {0}) → GoesPaused (f a))
      → GoesPaused (set_state PostgresState.stopped >>= f)
  unfolding set_state modify is_paused ◌>>=◌
  GoesPaused-stop f k = record {
    at = λ h q s p v. (k tt).at h q _ p ((set_state-Keeps PostgresState.stopped).at h q s v);
  }

module _ {A B : Type 0} where
  GoesPaused-gets :
      (g : Node → B) (f : B → M A) → ((b : B) → GoesPaused (f b)) → GoesPaused (gets g >>= f)
  unfolding gets ◌>>=◌
  GoesPaused-gets g f k = record { at = λ h q s p v. (k (g s)).at h q s p v }

  GoesPaused-seq :
      (m : M B) (f : B → M A)
      → GoesPaused m
      → ((b : B) → Goes false false (f b))
      → GoesPaused (m >>= f)
  unfolding ◌>>=◌
  GoesPaused-seq m f km k = record {
    at = λ h q s p v. (Goes-continue (m s).0 f k).at (m s).1 (km.at h q s p v);
  }

ruleset paused_rules =
    (GoesPaused-if, GoesPaused-ask, GoesPaused-stop, GoesPaused-gets, GoesPaused-Goes)

-- What is done when the node is in pause, and when it is not.
paused_cases :
    {A : Type 0} (h q b : Bool) (f : Bool → M A) (s : Node)
    → is_paused s ≡ b
    → GoesPaused (f true)
    → Goes h q (f false)
    → At h q s
    → At false false (f b s).1
paused_cases h q true f s p kt kf v = kt.at h q s p v
paused_cases h q false f s p kt kf v = kf.at s v

Goes-pause :
    {A : Type 0} {h q : Bool} (f : Bool → M A)
    → GoesPaused (f true)
    → Goes h q (f false)
    → Goes h q (gets is_paused >>= f)
unfolding gets ◌>>=◌
Goes-pause {A} {h} {q} f kt kf = record {
  at = λ s v. paused_cases h q (is_paused s) f s refl kt kf v;
}

module _ (w : World) where
  remove_lock-GoesPaused : GoesPaused (remove_lock w)
  unfolding remove_lock
  remove_lock-GoesPaused = GoesPaused-forget w _ λ _. search goes_rules

  dead_in_pause-GoesPaused : GoesPaused (dead_in_pause w)
  unfolding dead_in_pause
  dead_in_pause-GoesPaused =
      search (paused_rules, goes_rules, remove_lock-GoesPaused, start_dead-Goes) depth 14

  dead_postgres-Goes : {h q : Bool} → Goes h q (dead_postgres w)
  unfolding dead_postgres
  dead_postgres-Goes = Goes-pause _ dead_in_pause-GoesPaused (start_dead-Goes w)

  pub check_health-Goes : {h q : Bool} → Goes h q (check_health w)
  unfolding check_health
  check_health-Goes = search (goes_rules, process_cluster-Goes, dead_postgres-Goes)

  release-GoesPaused : GoesPaused (release_leader_key_voluntarily w)
  unfolding release_leader_key_voluntarily
  release-GoesPaused = GoesPaused-forget w _ λ _. search goes_rules

  release_mismatched-GoesPaused : GoesPaused (release_mismatched w)
  unfolding release_mismatched
  release_mismatched-GoesPaused = GoesPaused-seq _ _ release-GoesPaused λ _. search goes_rules

  mismatch_in_pause : (b : Bool) → GoesPaused (if b then release_mismatched w else check_health w)
  mismatch_in_pause b = search (paused_rules, release_mismatched-GoesPaused, check_health-Goes)

  pub sysid_mismatch-Goes : {h q : Bool} → Goes h q (sysid_mismatch w)
  unfolding sysid_mismatch
  sysid_mismatch-Goes = Goes-pause _ (search (paused_rules, mismatch_in_pause)) (search goes_rules)
