-- ===== src/Cycle/Demotes/Losing.antt =====
-- About `process_healthy_cluster` of patroni/ha.py, out of pause.
use patroni.Base.{◌≡◌, refl, suc, ◌∷◌, Bool, true, false, if◌then◌else◌}
use patroni.Ha.State.{Config}
use patroni.Cycle.Exec.{pure, gets, modify, ◌>>=◌}
use patroni.Cycle.Node.{Event, Message, Node, Question, World, M, ask, log, next, asks_is_primary}
use patroni.Cycle.Lock.{is_paused}
use patroni.Cycle.Follow.{follow, follow_unpaused, demote_to_follow}
use patroni.Cycle.Primary.{
  process_healthy_cluster, hold_lock, is_primary_or_unpaused, keep_lock, without_updated_lock,
  follow_leader, lose_lock,
}
use patroni.Cycle.Demotes.{
  settled, Ready, Settled, Settled-Ready, Stays, Ends, Ends-bind, Ends-seq, Ends-if, Stays-pure,
  Stays-gets,
}
use patroni.Cycle.Demotes.Calls.{building, load-Stays, demote-Ends}
use patroni.Cycle.Demotes.Confirming.{Ends-update}
use patroni.Cycle.Demotes.Following.{follow_paused-Stays, follow_unpaused-Stays}
use patroni.Cycle.Demotes.Promoting.{with_updated_lock-Stays}

module _ (w : World) {c : Config} (real : c.is_standby_cluster ≡ false) where
  module _ {B : Type 0} (f : Bool → M B) where
    -- The cycle is settled where PostgreSQL is no primary.
    answered_primary :
        (answer : Bool)
        → Ends c (f true)
        → Stays (f false)
        → (s : Node) → Ready c false s
        → let s' = record s { tick = suc s.tick; history = Event.is_primary answer ∷ s.history } in
          Settled c (f answer s').0 (f answer s').1
    unfolding settled
    answered_primary true k l s v =
        k.at _ (record { unpaused = v.unpaused; same = v.same; done = refl })
    answered_primary false k l s v =
        Settled-Ready _ _
          (l.at c true _ (record { unpaused = v.unpaused; same = v.same; done = refl }))

    pub Ends-primary : Ends c (f true) → Stays (f false) → Ends c (asks_is_primary w >>= f)
    unfolding asks_is_primary ask next log gets modify pure ◌>>=◌
    Ends-primary k l = record {
      at = λ s v. answered_primary (w.answer s.tick Question.primary_is_running) k l s v;
    }

    known :
        (b b' : Bool)
        → b ≡ b'
        → Ends c (f b')
        → (s : Node) → Ready c false s
        → Settled c (f b s).0 (f b s).1
    known b b' e k s v = rw e (k.at s v)

    pub Ends-unpaused : Ends c (f false) → Ends c (gets is_paused >>= f)
    unfolding is_paused gets ◌>>=◌
    Ends-unpaused k = record { at = λ s v. known s.ha.is_paused false (rw v.same v.unpaused) k s v }

    Ends-real : Ends c (f false) → Ends c (gets (λ s. s.ha.is_standby_cluster) >>= f)
    unfolding gets ◌>>=◌
    Ends-real k = record { at = λ s v. known s.ha.is_standby_cluster false (rw v.same real) k s v }

    primary_or_paused :
        (b : Bool)
        → b ≡ false
        → Ends c (f true)
        → (s : Node) → Ready c false s
        → Settled c
            (((if b then asks_is_primary w else pure true) >>= f) s).0
            (((if b then asks_is_primary w else pure true) >>= f) s).1
    unfolding pure ◌>>=◌
    primary_or_paused b e k s v = rw e (k.at s v)

    Ends-holds : Ends c (f true) → Ends c (is_primary_or_unpaused w >>= f)
    unfolding is_primary_or_unpaused is_paused gets ◌>>=◌
    Ends-holds k = record {
      at = λ s v. primary_or_paused s.ha.is_paused (rw v.same v.unpaused) k s v;
    }

  demote_to_follow-Ends : (msg : Message) → Ends c (demote_to_follow w msg)
  unfolding demote_to_follow
  demote_to_follow-Ends msg = Ends-real _ (Ends-seq _ _ (demote-Ends w _) λ _. Stays-pure _)

  pub follow-Ends : (msg msg' : Message) (b : Bool) → Ends c (follow w msg msg' b)
  unfolding follow follow_unpaused
  follow-Ends msg msg' b = Ends-bind _ _ (search (building, load-Stays)) λ _.
      Ends-primary _
        (Ends-bind _ _ (Stays-gets _) λ target. Ends-unpaused _ (demote_to_follow-Ends msg))
        (search (building, follow_paused-Stays, follow_unpaused-Stays) depth 12)

  without_updated_lock-Ends : Ends c (without_updated_lock w)
  unfolding without_updated_lock lose_lock
  without_updated_lock-Ends =
      Ends-primary _ (Ends-unpaused _ (Ends-seq _ _ (demote-Ends w _) λ _. Stays-pure _))
        (search building)

  keep_lock-Ends : Ends c (keep_lock w)
  unfolding keep_lock
  keep_lock-Ends = Ends-update w true _ (with_updated_lock-Stays w) without_updated_lock-Ends

  follow_leader-Ends : Ends c (follow_leader w)
  unfolding follow_leader
  follow_leader-Ends = Ends-real _ (follow-Ends _ _ _)

  pub process_healthy_cluster-Ends : Ends c (process_healthy_cluster w)
  unfolding process_healthy_cluster hold_lock
  process_healthy_cluster-Ends =
      Ends-bind _ _ (Stays-gets _)
        λ mine. Ends-if mine _ _ (Ends-holds _ keep_lock-Ends) follow_leader-Ends
