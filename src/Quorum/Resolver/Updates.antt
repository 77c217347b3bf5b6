-- ===== src/Quorum/Resolver/Updates.antt =====
-- `quorum_update` and `sync_update` of patroni/quorum.py.
use patroni.Base.{
  Bool, not, ◌&&◌, Option, none, some, List, [], ◌∷◌, ◌++◌, Text, text_eq, ℤ, pos, ◌+ℤ◌, ◌-ℤ◌,
  ltb_ℤ, leb_ℤ, eqb_ℤ, max_ℤ, null, if◌then◌else◌,
}
use patroni.Collections.CaseInsensitiveSet.{CaseInsensitiveSet, len, eq}
use patroni.Quorum.State.{
  negative_quorum, quorum_too_big, negative_sync, sync_too_big, Result, ok, err, sync_transition,
  quorum_transition, restart_transition, Transition, Resolver, check_invariants,
}
use patroni.Quorum.Run.{M, raise}

-- The `if leader is not None … elif … elif` of `quorum_update`: the new leader, quorum and voters.
unfoldable pub adjust :
    Resolver → ℤ → CaseInsensitiveSet → Option Text → Bool → Text × ℤ × CaseInsensitiveSet
adjust s quorum voters (some leader) adjust_quorum = (leader, quorum, voters)
adjust s quorum voters none adjust_quorum =
    if eqb_ℤ s.numsync_confirmed (pos 0) && null s.voters
    then (s.leader, pos 0, [])
    else if adjust_quorum
    then (s.leader, quorum +ℤ max_ℤ (s.numsync -ℤ s.numsync_confirmed) (pos 0), voters)
    else (s.leader, quorum, voters)

-- The rest of `quorum_update`: nothing on a request that changes nothing, with the hint to restart
-- where there are no voters; else assign, check and yield.
publish_checked :
    Result (Unit {0}) → Resolver → List Transition → Result (Unit {0}) × Resolver × List Transition
publish_checked (err e) s hint = (err e, s, hint)
publish_checked (ok u) s hint = (
  ok tt,
  s,
  hint
      ++ record {
        transition_type = quorum_transition;
        leader = s.leader;
        num = s.quorum;
        names = s.voters;
      }
        ∷ [],
)

abbrev pub assign_quorum : Text → ℤ → CaseInsensitiveSet → Resolver → Resolver
assign_quorum leader quorum voters s = record s {
  state = record (s.state) { leader = leader; quorum = quorum; voters = voters };
}

unfoldable pub publish_quorum : Text × ℤ × CaseInsensitiveSet → M (Unit {0})
unfolding publish_checked
publish_quorum (leader, quorum, voters) s =
    let unchanged = text_eq leader s.leader && eqb_ℤ quorum s.quorum && eq voters s.voters in
    let s' = assign_quorum leader quorum voters s in
    let hint : List Transition =
      if unchanged
      then record {
        transition_type = restart_transition;
        leader = leader;
        num = s.quorum;
        names = s.voters;
      }
        ∷ []
      else [] in
    if unchanged && not (null s.voters)
    then (ok tt, record s { state = record (s.state) { leader = leader } }, [])
    else publish_checked (check_invariants s.leader_wanted s'.state) s' hint

unfoldable pub quorum_update : ℤ → CaseInsensitiveSet → Option Text → Bool → M (Unit {0})
quorum_update quorum voters leader adjust_quorum s =
    if ltb_ℤ quorum (pos 0)
    then raise negative_quorum s
    else if ltb_ℤ (pos 0) quorum && leb_ℤ (pos (len voters)) quorum
    then raise quorum_too_big s
    else publish_quorum (adjust s quorum voters leader adjust_quorum) s

sync_checked : Result (Unit {0}) → M (Unit {0})
sync_checked (err e) s = (err e, s, [])
sync_checked (ok u) s = (
  ok tt,
  s,
  record { transition_type = sync_transition; leader = s.leader; num = s.numsync; names = s.sync }
      ∷ [],
)

unfoldable pub sync_update : ℤ → CaseInsensitiveSet → M (Unit {0})
unfolding sync_checked
sync_update numsync sync s =
    let s' : Resolver = record s { state = record (s.state) { numsync = numsync; sync = sync } } in
    if ltb_ℤ numsync (pos 0)
    then raise negative_sync s
    else if ltb_ℤ (pos (len sync)) numsync
    then raise sync_too_big s
    else sync_checked (check_invariants s.leader_wanted s'.state) s'
