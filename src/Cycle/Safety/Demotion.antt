-- ===== src/Cycle/Safety/Demotion.antt =====
-- The leader key is deleted, and a primary demoted, in patroni/ha.py's cycle.
use patroni.Base.{◌≡◌, refl, ℕ, Bool, true, false, ◌||◌, ◌∷◌, arith, if◌then◌else◌}
use patroni.Cycle.Exec.{Error, Result, ok, err, pure, raise, gets, modify, continue, ◌>>=◌}
use patroni.Cycle.Node.{
  Role, Mode, StopMode, Action, Event, Node, World, M, next, log, perform, raise_some, when,
}
use patroni.Cycle.Lock.{
  is_paused, set_expiry, set_is_leader, forget_leader, release_leader_key_voluntarily,
}
use patroni.Cycle.Demote.{
  asks_failover_possible, on_shutdown, notify_demotion, stop_with, get_cluster_to_follow,
  start_after_demotion, settle_key, demote,
}
use patroni.Cycle.Safety.{
  holds, quiet, vouched, promotes_with_key, releases_quietly, At, Keeps, KeepsKey, Goes,
}
use patroni.Cycle.Safety.Rules.{
  forget, Keeps-pure, Keeps-raise, Keeps-catch, Goes-bind, Goes-bind-key, Goes-Keeps, Goes-KeepsKey,
  Goes-seq,
}
use patroni.Cycle.Safety.Primitives.{keeps_rules, raise_some-Keeps, try_run_async-KeepsKey}
use patroni.Cycle.Safety.Answers.{deleted-At}

-- After a return the key and the calm are as told; after a raise only the invariant holds.
abbrev Moved : {A : Type 0} → Bool → Bool → Result A → Node → Type 0
Moved h q (ok a) s = At h q s
Moved h q (err e) s = At false false s

pub record Moves (h q h' q' : Bool) {A : Type 0} (m : M A) : Type 0 where
  pub at : (s : Node) → At h q s → Moved h' q' (m s).0 (m s).1

module _ {A : Type 0} {h q : Bool} where
  Moved-same : (r : Result A) (s : Node) → At h q s → Moved h q r s
  Moved-same (ok a) s v = v
  Moved-same (err e) s v = forget v

  pub Moves-Keeps : (m : M A) → Keeps m → Moves h q h q m
  Moves-Keeps m k = record { at = λ s v. Moved-same (m s).0 (m s).1 (k.at h q s v) }

module _ {A : Type 0} {h q h' q' : Bool} where
  pub Moves-if :
      (b : Bool) (m n : M A)
      → Moves h q h' q' m
      → Moves h q h' q' n
      → Moves h q h' q' (if b then m else n)
  Moves-if true m n km kn = km
  Moves-if false m n km kn = kn

module _ {A B : Type 0} {h' q' : Bool} where
  Moved-continue :
      {h'' q'' : Bool} (r : Result A) (f : A → M B)
      → ((a : A) → Moves h' q' h'' q'' (f a))
      → (s : Node) → Moved h' q' r s
      → Moved h'' q'' (continue r f s).0 (continue r f s).1
  Moved-continue (ok a) f k s v = (k a).at s v
  Moved-continue (err e) f k s v = v

  pub Moves-bind :
      {h q h'' q'' : Bool} (m : M A) (f : A → M B)
      → Moves h q h' q' m
      → ((a : A) → Moves h' q' h'' q'' (f a))
      → Moves h q h'' q'' (m >>= f)
  unfolding ◌>>=◌
  Moves-bind m f km kf = record {
    at = λ s v. let (r, s') = m s in Moved-continue r f kf s' (km.at s v);
  }

  goes_moved :
      (r : Result A) (f : A → M B)
      → ((a : A) → Goes h' q' (f a))
      → (s : Node) → Moved h' q' r s
      → At false false (continue r f s).1
  goes_moved (ok a) f k s v = (k a).at s v
  goes_moved (err e) f k s v = v

  pub Goes-bind-Moves :
      {h q : Bool} (m : M A) (f : A → M B)
      → Moves h q h' q' m
      → ((a : A) → Goes h' q' (f a))
      → Goes h q (m >>= f)
  unfolding ◌>>=◌
  Goes-bind-Moves m f km kf = record {
    at = λ s v. let (r, s') = m s in goes_moved r f kf s' (km.at s v);
  }

module _ {A B : Type 0} {h q h' q' : Bool} where
  pub Moves-skip :
      (m : M A) (f : A → M B)
      → Keeps m
      → ((a : A) → Moves h q h' q' (f a))
      → Moves h q h' q' (m >>= f)
  Moves-skip m f k kf = Moves-bind m f (Moves-Keeps m k) kf

goes_of_moved :
    {A : Type 0} (h q : Bool) (r : Result A) (s : Node) → Moved h q r s → At false false s
goes_of_moved h q (ok a) s v = forget v
goes_of_moved h q (err e) s v = v

pub Goes-Moves : {A : Type 0} {h q h' q' : Bool} (m : M A) → Moves h q h' q' m → Goes h q m
Goes-Moves {h' = h'} {q' = q'} m k = record {
  at = λ s v. goes_of_moved h' q' (m s).0 (m s).1 (k.at s v);
}

forget_key : {A : Type 0} {h q : Bool} (a : A) → Moves h q false q (pure a)
unfolding pure
forget_key a = record {
  at = λ s v. record {
    promotes = v.promotes;
    releases = v.releases;
    leads = v.leads;
    key = refl;
    calm = v.calm;
  };
}

after_call-Keeps : (w : World) → Keeps (next >>= λ n. raise_some (w.raises n))
after_call-Keeps w = search (keeps_rules, raise_some-Keeps)

pub forget_leader-At :
    (w : World) (h q : Bool) (s : Node)
    → (is_paused s || q) ≡ true
    → At h q s
    → At false q (forget_leader w s).1
unfolding forget_leader set_is_leader set_expiry modify gets perform log ◌>>=◌ is_paused
forget_leader-At w h q s g v =
    (after_call-Keeps w).at false q _ (deleted-At h q (is_paused s) 0 s g refl v)

forget_leader-Moves : (w : World) {h : Bool} → Moves h true false true (forget_leader w)
forget_leader-Moves w {h} = record {
  at = λ s v.
      Moved-same (forget_leader w s).0 (forget_leader w s).1
        (forget_leader-At w h true s (ground arith) v);
}

release-Moves : (w : World) {h : Bool} → Moves h true false true (release_leader_key_voluntarily w)
unfolding release_leader_key_voluntarily
release-Moves w = Moves-bind _ _ (forget_leader-Moves w) λ _. Moves-Keeps _ (search keeps_rules)

pub release-Goes : (w : World) {h : Bool} → Goes h true (release_leader_key_voluntarily w)
release-Goes w = Goes-Moves _ (release-Moves w)

pub forget_leader-Goes : (w : World) {h : Bool} → Goes h true (forget_leader w)
forget_leader-Goes w = Goes-Moves _ (forget_leader-Moves w)

pub failover_possible-Keeps :
    (w : World) (lsn : ℕ) (b : Bool) → Keeps (asks_failover_possible w lsn b)
unfolding asks_failover_possible
failover_possible-Keeps w lsn b = search keeps_rules

release_next :
    {A : Type 0} (w : World) (a : A) {h : Bool}
    → Moves h true false true (release_leader_key_voluntarily w >>= λ _. pure a)
release_next w a = Moves-bind _ _ (release-Moves w) λ _. Moves-Keeps _ (Keeps-pure a)

on_shutdown-Moves : (w : World) {h : Bool} → Moves h true false true (on_shutdown w)
unfolding on_shutdown
on_shutdown-Moves w =
    search (keeps_rules, Moves-skip, Moves-if, forget_key, failover_possible-Keeps, release_next)
      depth 12

-- The stop of PostgreSQL is ordered.
stopped-At :
    (mode : StopMode) (h q : Bool) (s : Node)
    → At h q s
    → At h true (record s { history = Event.stop mode ∷ s.history })
unfolding promotes_with_key releases_quietly vouched holds quiet
stopped-At mode h q s v = record {
  promotes = v.promotes;
  releases = v.releases;
  leads = v.leads;
  key = v.key;
  calm = refl;
}

stop-Moves :
    (w : World) (mode : StopMode) {h q : Bool} → Moves h q h true (perform w (Event.stop mode))
unfolding perform log modify ◌>>=◌
stop-Moves w mode {h} {q} = record {
  at = λ s v. (Moves-Keeps _ (after_call-Keeps w)).at _ (stopped-At mode h q s v);
}

pub stop-Goes : (w : World) (mode : StopMode) {h q : Bool} → Goes h q (perform w (Event.stop mode))
stop-Goes w mode = Goes-Moves _ (stop-Moves w mode)

pub stop-bind :
    {B : Type 0} (w : World) (mode : StopMode) (f : Unit {0} → M B) {h q : Bool}
    → ((a : Unit {0}) → Goes h true (f a))
    → Goes h q (perform w (Event.stop mode) >>= f)
stop-bind w mode f k = Goes-bind-Moves _ f (stop-Moves w mode) k

stop_next :
    {B : Type 0} (w : World) (mode : StopMode) (f : Unit {0} → M B) {h q : Bool}
    → ((a : Unit {0}) → Moves h true false true (f a))
    → Moves h q false true (perform w (Event.stop mode) >>= f)
stop_next w mode f k = Moves-bind _ f (stop-Moves w mode) k

notify_demotion-Keeps : (w : World) → Keeps (notify_demotion w)
unfolding notify_demotion
notify_demotion-Keeps w = search keeps_rules

stop_with-Moves :
    (w : World) (mode : StopMode) (g release : Bool) {h q : Bool}
    → Moves h q false true (stop_with w mode g release)
unfolding stop_with
stop_with-Moves w mode g release =
    search
      (
        keeps_rules, Moves-skip, Moves-if, stop_next, forget_key, on_shutdown-Moves,
        notify_demotion-Keeps,
      )
      depth 12

neutral-Keeps :
    (w : World) (e : Event)
    → ((h q : Bool) (s : Node) → At h q s → At h q (record s { history = e ∷ s.history }))
    → Keeps (perform w e)
unfolding perform log modify ◌>>=◌
neutral-Keeps w e k = record { at = λ h q s v. (after_call-Keeps w).at h q _ (k h q s v) }

refresh_leader-Keeps : (w : World) → Keeps (perform w Event.refresh_leader)
unfolding promotes_with_key releases_quietly vouched holds quiet
refresh_leader-Keeps w = neutral-Keeps w _ λ h q s v. record {
  promotes = v.promotes;
  releases = v.releases;
  leads = v.leads;
  key = v.key;
  calm = v.calm;
}

pub Goes-when : {h q : Bool} (b : Bool) (m : M (Unit {0})) → Goes h q m → Goes h q (when b m)
unfolding when
Goes-when true m k = k
Goes-when false m k = Goes-Keeps _ (Keeps-pure tt)

following-At :
    (role : Role) (h q : Bool) (s : Node)
    → At h q s
    → At h false (record s { history = Event.follow role ∷ s.history })
unfolding promotes_with_key releases_quietly vouched holds quiet
following-At role h q s v = record {
  promotes = v.promotes;
  releases = v.releases;
  leads = v.leads;
  key = v.key;
  calm = refl;
}

pub follow-KeepsKey : (w : World) (role : Role) → KeepsKey (perform w (Event.follow role))
unfolding perform log modify ◌>>=◌
follow-KeepsKey w role = record {
  at = λ h q s v. (after_call-Keeps w).at h false _ (following-At role h q s v);
}

pub follow-Goes : (w : World) (role : Role) {h q : Bool} → Goes h q (perform w (Event.follow role))
follow-Goes w role = Goes-KeepsKey _ (follow-KeepsKey w role)

settle_key-Goes :
    (w : World) (keeps release released : Bool)
    → Goes false true (settle_key w keeps release released)
unfolding settle_key
settle_key-Goes w true release released = Goes-Keeps _ (refresh_leader-Keeps w)
settle_key-Goes w false release released = search (keeps_rules, Goes-bind, Goes-when, release-Goes)

ignore-Keeps :
    (e : Error) → Keeps (elim e [ Error.exit ↦ raise {A = Unit {0}} Error.exit | _ ↦ pure tt ])
ignore-Keeps Error.exit = Keeps-raise Error.exit
ignore-Keeps _ = Keeps-pure tt

get_cluster_to_follow-Keeps : (w : World) → Keeps (get_cluster_to_follow w)
unfolding get_cluster_to_follow
get_cluster_to_follow-Keeps w = search (keeps_rules, Keeps-catch, ignore-Keeps) depth 12

start_after_demotion-Goes :
    (w : World) (b : Bool) (role : Role) {h q : Bool} → Goes h q (start_after_demotion w b role)
unfolding start_after_demotion
start_after_demotion-Goes w true role = search (
  keeps_rules,
  Goes-bind-key,
  Goes-Keeps,
  try_run_async-KeepsKey Action.starting_after_demotion refl,
)
start_after_demotion-Goes w false role = search (keeps_rules, Goes-bind, Goes-when, follow-Goes)

pub demote-Goes : (w : World) (mode : Mode) {h q : Bool} → Goes h q (demote w mode)
unfolding demote
demote-Goes w mode = Goes-bind _ _ (search keeps_rules) λ _.
    Goes-bind _ _ (search keeps_rules) λ archives.
      Goes-bind-Moves _ _ (stop_with-Moves w _ _ _) λ released.
        Goes-bind _ _ (search keeps_rules) λ _. Goes-seq _ _ (settle_key-Goes w _ _ _) λ _.
          search (keeps_rules, Goes-bind, get_cluster_to_follow-Keeps, start_after_demotion-Goes)
            depth 12
