-- ===== src/Cycle/Demotes/Racing.antt =====
-- About `process_unhealthy_cluster` of patroni/ha.py, out of pause.
use patroni.Base.{
  ◌≡◌, refl, ◌∙◌, Text, ℕ, Bool, true, false, Option, none, some, List, if◌then◌else◌, ltb, ◌-◌,
}
use patroni.Ha.State.{Config, Ha, Env, Member}
use patroni.Ha.Manual.{
  Outcome, race_others, run_race, failover_to_other, manual_failover_process_no_leader,
}
use patroni.Ha.Healthiest.{
  is_healthiest_node, check_node, continue_unless_answered, replica_is_healthiest, process_failover,
  or_false, race_known,
}
use patroni.Ha.Race.{remember_timeline}
use patroni.Cycle.Exec.{pure, gets, modify, ◌>>=◌, ◌>>◌}
use patroni.Cycle.Node.{Node, World}
use patroni.Cycle.Unhealthy.{
  observed, write_all, asks_healthiest, race, not_the_healthiest, race_if_healthiest,
}
use patroni.Cycle.Demotes.{
  Ready, Stays, Ends, Ends-bind, Ends-if, Stays-bind, Stays-pure, Stays-gets, Stays-next,
}
use patroni.Cycle.Demotes.Calls.{building, call-Stays, read-Stays}
use patroni.Cycle.Demotes.Confirming.{Ends-acquire}
use patroni.Cycle.Demotes.Losing.{follow-Ends}
use patroni.Cycle.Demotes.Promoting.{write_all-Stays, win_race-Stays}

-- The checks of the race keep the configuration.
abbrev Kept : {A : Type 0} → Ha → Outcome A → Type 0
Kept ha out = out.1.config ≡ ha.config

Kept-if :
    {A : Type 0} (ha : Ha) (b : Bool) (m n : Outcome A)
    → Kept ha m
    → Kept ha n
    → Kept ha (if b then m else n)
Kept-if ha true m n k l = k
Kept-if ha false m n k l = l

Kept-or_false : (ha : Ha) (out : Outcome (Option Bool)) → Kept ha out → Kept ha (or_false out)
unfolding or_false
Kept-or_false ha (some b, ha', w) k = k
Kept-or_false ha (none, ha', w) k = k

module _ (env : Env) (ha : Ha) where
  run_race-Kept :
      (ms : List Member) (b : Bool) (leader : Option Text) → Kept ha (run_race env ha ms b leader)
  unfolding run_race remember_timeline
  run_race-Kept ms b leader = refl

  race_others-Kept : Kept ha (race_others env ha)
  unfolding race_others
  race_others-Kept = search (Kept-if, run_race-Kept)

  failover_to_other-Kept : (m : Option Member) → Kept ha (failover_to_other env ha m)
  unfolding failover_to_other
  failover_to_other-Kept none = search (Kept-if, race_others-Kept) depth 12
  failover_to_other-Kept (some m) = search (Kept-if, race_others-Kept) depth 12

  manual_failover-Kept : Kept ha (manual_failover_process_no_leader env ha)
  unfolding manual_failover_process_no_leader
  manual_failover-Kept = search (Kept-if, race_others-Kept, failover_to_other-Kept) depth 12

  race_known-Kept : (o : Option (List Member)) → Kept ha (race_known env ha o)
  unfolding race_known run_race remember_timeline
  race_known-Kept none = refl
  race_known-Kept (some known) = Kept-if ha _ _ _ refl refl

  process_failover-Kept : Kept ha (process_failover env ha)
  unfolding process_failover
  process_failover-Kept = Kept-if ha _ _ _ refl (Kept-or_false ha _ manual_failover-Kept)

  replica_is_healthiest-Kept : Kept ha (replica_is_healthiest env ha)
  unfolding replica_is_healthiest
  replica_is_healthiest-Kept = search (Kept-if, process_failover-Kept, race_known-Kept) depth 12

  check_node-Kept : Kept ha (check_node env ha)
  unfolding check_node
  check_node-Kept = search (Kept-if, replica_is_healthiest-Kept) depth 12

continue-Kept :
    (env : Env) (ha : Ha) (out : Outcome (Option Bool))
    → Kept ha out
    → Kept ha (continue_unless_answered env out)
unfolding continue_unless_answered
continue-Kept env ha (some b, ha', w) k = k
continue-Kept env ha (none, ha', w) k = check_node-Kept env ha' ∙ k

is_healthiest_node-Kept : (env : Env) (ha : Ha) → Kept ha (is_healthiest_node env ha)
unfolding is_healthiest_node
is_healthiest_node-Kept env ha =
    search (Kept-if, continue-Kept, manual_failover-Kept, check_node-Kept) depth 12

module _ (w : World) where
  judged :
      (out : Outcome Bool) (s : Node) (c : Config) (b : Bool)
      → Kept s.ha out
      → Ready c b s
      → Ready c b ((write_all w out.2 >> pure out.0) (record s { ha = out.1 })).1
  judged out s c b e v =
      (Stays-bind _ _ (write_all-Stays w out.2) λ _. Stays-pure out.0).at c b _
        (record { unpaused = v.unpaused; same = e ∙ v.same; done = v.done })

  race_view : ℕ → ℕ → Node → Ha
  race_view now n s =
      observed (w.observe n) (ltb (now - s.released_leader_key_timestamp) w.settings.ttl) s.ha

  race_view_config : (now n : ℕ) (s : Node) → (race_view now n s).config ≡ s.ha.config
  unfolding race_view observed
  race_view_config now n s = refl

  judge-Stays :
      (now n : ℕ)
      → Stays (do
        result ← gets (λ s. is_healthiest_node (w.nodes n) (race_view now n s))
        modify (λ s. record s { ha = result.1 })
        write_all w result.2
        pure result.0)
  unfolding gets modify ◌>>=◌
  judge-Stays now n = record {
    at = λ c b s.
        judged _ s c b
          (is_healthiest_node-Kept (w.nodes n) (race_view now n s) ∙ race_view_config now n s);
  }

  asks_healthiest-Stays : Stays (asks_healthiest w)
  unfolding asks_healthiest race_view
  asks_healthiest-Stays =
      Stays-bind _ _ (read-Stays w _) λ now. Stays-bind _ _ Stays-next λ n. judge-Stays now n

module _ (w : World) {c : Config} (real : c.is_standby_cluster ≡ false) where
  race-Ends : Ends c (race w)
  unfolding race
  race-Ends = Ends-acquire w _ (win_race-Stays w) (follow-Ends w real _ _ _)

  not_the_healthiest-Ends : Ends c (not_the_healthiest w)
  unfolding not_the_healthiest
  not_the_healthiest-Ends = Ends-bind _ _ (Stays-gets _) λ ahead.
      Ends-bind _ _ (search (building, call-Stays)) λ _.
        Ends-bind _ _ (Stays-gets _)
          λ nofailover. Ends-if nofailover _ _ (follow-Ends w real _ _ _) (follow-Ends w real _ _ _)

  pub race_if_healthiest-Ends : Ends c (race_if_healthiest w)
  unfolding race_if_healthiest
  race_if_healthiest-Ends =
      Ends-bind _ _ (asks_healthiest-Stays w)
        λ healthiest. Ends-if healthiest _ _ race-Ends not_the_healthiest-Ends
