-- ===== src/Cycle/Safety/Looping.antt =====
-- About a node that runs `run_cycle` of patroni/ha.py again and again.
use patroni.Base.{
  ◌≡◌, subst, refl, Bool, true, false, ◌∷◌, ◌++◌, [], List, Option, none, some, arith,
}
use patroni.Cycle.Exec.{Result, ok, err, finally, continue}
use patroni.Cycle.Node.{Role, PostgresState, Mode, Action, Event, Node, World}
use patroni.Cycle.Demote.{demote}
use patroni.Cycle.Loop.{
  reset_scheduled_action, run_demote, finish_action, Turn, take_turn, loop, IsNew,
}
use patroni.Cycle.Safety.{permits, promotes_with_key, releases_quietly, At, Keeps}
use patroni.Cycle.Safety.Primitives.{keeps_rules}
use patroni.Cycle.Safety.Demotion.{demote-Goes}
-- All members accepted this node: from now on it takes itself for the leader.
use patroni.Cycle.Safety.Running.{run_cycle-Goes}

concluded-At :
    {A : Type 0} (r : Result A) (r' : Result (Unit {0})) (s : Node)
    → At false false s
    → At false false (continue r' (λ _ t. (r, t)) s).1
concluded-At r (ok a) s v = v
concluded-At r (err e) s v = v

reset_action-Keeps : Keeps reset_scheduled_action
unfolding reset_scheduled_action
reset_action-Keeps = search keeps_rules

run_demote-At :
    (w : World) (mode : Mode) (s : Node) → At false false s → At false false (run_demote w mode s).1
unfolding run_demote finally
run_demote-At w mode s v =
    let (r, s') = demote w mode s in
    concluded-At r (reset_scheduled_action s').0 (reset_scheduled_action s').1
      (reset_action-Keeps.at false false s' ((demote-Goes w mode).at s v))

finish_action-At :
    (role : Role) (state : PostgresState) (o : Option Bool) (s : Node)
    → At false false s
    → At false false (finish_action role state o s)
unfolding finish_action
finish_action-At role state none s v = record {
  promotes = v.promotes;
  releases = v.releases;
  leads = v.leads;
  key = refl;
  calm = refl;
}
finish_action-At role state (some b) s v = record {
  promotes = v.promotes;
  releases = v.releases;
  leads = v.leads;
  key = refl;
  calm = refl;
}

turn-At : (t : Turn) (s : Node) → At false false s → At false false (take_turn s t)
unfolding take_turn
turn-At (Turn.cycle w) s v = (run_cycle-Goes w).at s v
turn-At (Turn.demotion w mode) s v = run_demote-At w mode s v
turn-At (Turn.finished role state o) s v = finish_action-At role state o s v

loop-At : (turns : List Turn) (s : Node) → At false false s → At false false (loop turns s)
unfolding loop
loop-At [] s v = v
loop-At (t ∷ ts) s v = loop-At ts (take_turn s t) (turn-At t s v)

new-At : (s : Node) → IsNew s → At false false s
unfolding promotes_with_key releases_quietly
new-At s n = record {
  promotes = rw n.no_history refl;
  releases = rw n.no_history refl;
  leads = rw n.no_key refl;
  key = refl;
  calm = refl;
}

promotes_tail :
    (e : Event) (past : List Event)
    → promotes_with_key (e ∷ past) ≡ true
    → promotes_with_key past ≡ true
unfolding promotes_with_key
promotes_tail (Event.run a) past h = ground arith
promotes_tail _ past h = h

promotes-split :
    (after before : List Event) (a : Action)
    → promotes_with_key (after ++ Event.run a ∷ before) ≡ true
    → permits a before ≡ true
unfolding promotes_with_key
promotes-split [] before a h = ground arith
promotes-split (e ∷ after) before a h = promotes-split after before a (promotes_tail e _ h)

-- Whatever PostgreSQL, the DCS and the other nodes do: the executor's actions `promote` and
-- `starting_primary` are submitted in a cycle in which the last answer of the DCS about the leader key
-- was that this node acquired or updated it, with no deletion of the key since, and the action
-- `bootstrap` in a cycle in which its last answer about the `/initialize` key was that this node won it.
pub loop_promotes_with_key :
    (turns : List Turn) (s : Node)
    → IsNew s
    → (after before : List Event) (action : Action)
    → (loop turns s).history ≡ after ++ Event.run action ∷ before
    → permits action before ≡ true
loop_promotes_with_key turns s n after before action e =
    promotes-split after before action
      (subst (λ past. promotes_with_key past ≡ true) e (loop-At turns s (new-At s n)).promotes)
