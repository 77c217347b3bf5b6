-- ===== src/Dcs/Raft/Examples.antt =====
-- A small replicated store, and the theorems on it.
use patroni.Base.{
  ◌≡◌, refl, false, none, some, List, [], ◌∷◌, Text, codes, text_eq, text_mem, starts_with, all,
  any,
}
use patroni.Dcs.Raft.{
  Value, Data, lookup, put, Requirements, check_requirements, values_match, Command, set, delete,
  expire, apply_set, apply_delete, apply_expire, apply, run, renew,
}
use patroni.Dcs.Raft.Store.{after, set_keeps_others}
use patroni.Dcs.Raft.Leader.{
  if_absent, if_held_by, attempt_to_acquire_leader, update_leader, update_leader_again,
  delete_leader, take_leader, SendsTaking, SendsGuarded, Harmless, IsGuarded, leader_key_kept,
  leader_requests-IsGuarded,
}
use patroni.Dcs.Raft.Limb.{
  LimbStep, AllStay, expire_keys, last_entry, proposes, is_expired, take_steps, expire_keys_spares,
  take_steps_stuck,
}
use patroni.Dcs.Raft.Watch.{Paths, on_set}

abbrev value : Text → Value
value name = record { value = name; updated = 5; created = 5; expire = some 35; index = 1 }

abbrev leader_path : Text
leader_path = codes "/leader"

abbrev acquired : List Command
acquired = set leader_path (value (codes "a")) if_absent ∷ []

held : lookup (after acquired) leader_path ≡ some (value (codes "a"))
unfolding run apply apply_set check_requirements renew lookup put text_eq
held = refl

abbrev if_index : Requirements
if_index = record { prev_exist = none; prev_value = none; prev_index = some 1 }

abbrev attempts : List Command
attempts =
    set leader_path (value (codes "b")) if_absent
    ∷ delete leader_path false (if_held_by (codes "b"))
    ∷ expire leader_path (record (value (codes "a")) { updated = 4 })
    ∷ []

set_keeps_others_example :
    lookup (run 1 (after acquired) attempts) leader_path ≡ some (value (codes "a"))
unfolding run apply apply_set apply_delete apply_expire check_requirements values_match renew lookup
    put text_eq
set_keeps_others_example =
    set_keeps_others acquired attempts leader_path (value (codes "a")) (value (codes "c"))
      (record (value (codes "c")) { index = 5 }) if_index held refl refl

leader_key_kept_example :
    lookup (run 1 (after acquired) attempts) leader_path ≡ some (value (codes "a"))
unfolding values_match text_eq
leader_key_kept_example =
    leader_key_kept 1 (after acquired) leader_path (value (codes "a")) attempts held (
      Harmless.of_other (codes "b") _ refl (IsGuarded.acquire _),
      (
        Harmless.of_other (codes "b") _ refl IsGuarded.release,
        (Harmless.expire_outdated (record (value (codes "a")) { updated = 4 }) refl, tt),
      ),
    )

leader_requests-IsGuarded_example :
    SendsGuarded leader_path (codes "b") (attempt_to_acquire_leader 9 [] leader_path (codes "b") 30)
    × SendsGuarded leader_path (codes "b") (update_leader 9 [] leader_path (codes "b") 30)
    × SendsGuarded leader_path
        (codes "b")
        (update_leader_again false 9 [] leader_path (codes "b") 30)
    × SendsGuarded leader_path (codes "b") (delete_leader [] leader_path (codes "b"))
    × SendsTaking 1
        (after acquired)
        leader_path
        (codes "b")
        (take_leader 9 [] leader_path (codes "b") 30)
leader_requests-IsGuarded_example =
    leader_requests-IsGuarded 9 [] leader_path (codes "b") 30 false 1 (after acquired)

-- Two keys; the last one is not expired.
abbrev two : Data
two =
    (codes "/members/a", value (codes "x"))
    ∷ (codes "/config", record (value (codes "y")) { expire = none })
    ∷ []

expire_keys_spares_example :
    lookup (run 7 two (expire_keys 40 two []).1) (codes "/config")
    ≡ some (record (value (codes "y")) { expire = none })
unfolding lookup is_expired text_eq
expire_keys_spares_example =
    expire_keys_spares 7 40 two [] two (codes "/config")
      (record (value (codes "y")) { expire = none }) refl refl

-- The value is proposed, the commands are lost, the callbacks run, and two more passes follow.
abbrev passes : List LimbStep
passes =
    LimbStep.call_back two
    ∷ LimbStep.call_back two
    ∷ LimbStep.expire_pass 50 two
    ∷ LimbStep.call_back two
    ∷ LimbStep.expire_pass 60 two
    ∷ []

passes-AllStay : AllStay (codes "/members/a") (value (codes "x")) passes
unfolding last_entry all text_eq values_match
passes-AllStay = ((refl, refl), ((refl, refl), ((refl, refl), ((refl, refl), ((refl, refl), tt)))))

take_steps_stuck_example :
    (any (proposes (codes "/members/a")) (take_steps passes two).1 ≡ false)
    × (lookup (take_steps passes two).0 (codes "/members/a") ≡ some (value (codes "x")))
unfolding lookup text_eq
take_steps_stuck_example =
    take_steps_stuck passes two (codes "/members/a") (value (codes "x")) refl passes-AllStay

abbrev paths : Paths
paths = record {
  members_path = codes "/members/";
  leader_path = leader_path;
  leader_optime_path = codes "/optime/leader";
  status_path = codes "/status";
  config_path = codes "/config";
  sync_path = codes "/sync";
}

-- A new leader's key does not set the event.
unnoticed : on_set paths (codes "b") (after acquired) leader_path (value (codes "a")) ≡ false
unfolding on_set text_mem text_eq starts_with lookup run apply apply_set check_requirements renew
    put
unnoticed = refl
