-- ===== src/Ha/Race/Quorum.antt =====
-- The quorum behind a won race: `_is_healthiest_node` of patroni/ha.py.
use patroni.Base.{
  ℕ, suc, ◌≡◌, refl, inl, inr, Bool, true, false, ◌&&◌, ◌||◌, Option, some, List, [], ◌∷◌, map,
  Text, pos, negsuc, ◌+ℤ◌, ◌≤ℤ◌, length, select, any, arith, int_laws, if◌then◌else◌, Bool-cases,
  subst,
}
use patroni.Base.Rearranged.{Rearranged, Rearranged-map}
use patroni.Collections.CaseInsensitiveSet.{CaseInsensitiveSet, same, contains, len}
use patroni.Collections.CaseInsensitiveSet.Membership.{contains_congr}
use patroni.Collections.CaseInsensitiveSet.Size.{IsDistinct, Subset}
use patroni.Collections.CaseInsensitiveSet.Order.{
  IsDistinct-Rearranged, contains-select, IsDistinct-select,
}
use patroni.Ha.State.{
  Member, MemberStatus, Ha, Env, fetch_node_status, fetch_nodes_statuses, from_api_response,
  quorum_commit_mode_is_active,
}
use patroni.Ha.Race.{
  Tally, voting_set, race_quorum, start_tally, tally, enough_votes, is_healthiest, race_members,
  opt_eq,
}
use patroni.Ha.Race.Votes.{seen_behind, voted, tally-votes, race_statuses, is_healthiest-true}

abbrev status_name : MemberStatus → Text
status_name st = st.member.name

-- Requests complete in some order, and none is lost.
abbrev pub Completes : Env → Type 0
Completes env = (sts : List MemberStatus) → Rearranged sts (env.as_completed sts)

fetch_node_status-member : (env : Env) (m : Member) → (fetch_node_status env m).member ≡ m
unfolding fetch_node_status from_api_response
fetch_node_status-member env m = ground arith

names_fetched :
    (env : Env) (ms : List Member)
    → map status_name (map (fetch_node_status env) ms) ≡ map (λ m. m.name) ms
names_fetched env [] = refl
names_fetched env (m ∷ ms) = rw (fetch_node_status-member env m, names_fetched env ms)

fetched-Rearranged :
    (env : Env) (ms : List Member)
    → Completes env
    → Rearranged (map (λ m. m.name) ms) (map status_name (fetch_nodes_statuses env ms))
unfolding fetch_nodes_statuses
fetched-Rearranged env [] c = Rearranged.nil
fetched-Rearranged env (m ∷ ms) c =
    subst
      (λ ns.
        Rearranged ns (map status_name (env.as_completed (map (fetch_node_status env) (m ∷ ms)))))
      (names_fetched env (m ∷ ms))
      (Rearranged-map status_name (c (map (fetch_node_status env) (m ∷ ms))))

-- The voters of the race: the node itself, where it may vote, and those that voted for it.
abbrev pub promoting : Ha → List MemberStatus → CaseInsensitiveSet
promoting ha sts =
    if contains (voting_set ha) ha.name
    then ha.name ∷ map status_name (select (voted ha) sts)
    else map status_name (select (voted ha) sts)

-- The name is this node's, or that of a running node that is not ahead of it.
abbrev pub vouched : Ha → List MemberStatus → Text → Bool
vouched ha sts w = same ha.name w || any (λ st. same st.member.name w && seen_behind ha st) sts

module _ (ha : Ha) where
  not_voted :
      (sts : List MemberStatus) (w : Text)
      → contains (map status_name sts) w ≡ false
      → contains (map status_name (select (voted ha) sts)) w ≡ false
  not_voted sts w h = ground (arith, contains-select status_name (voted ha) sts w)

  promoting-IsDistinct :
      (sts : List MemberStatus)
      → IsDistinct (ha.name ∷ map status_name sts)
      → IsDistinct (promoting ha sts)
  promoting-IsDistinct sts d = elim (Bool-cases (contains (voting_set ha) ha.name)) [
    | inl h ↦ rw h (not_voted sts ha.name d.0, IsDistinct-select status_name (voted ha) sts d.1)
    | inr h ↦ rw h (IsDistinct-select status_name (voted ha) sts d.1)
  ]

  voters_vote :
      (sts : List MemberStatus) → Subset (map status_name (select (voted ha) sts)) (voting_set ha)
  unfolding contains select
  voters_vote [] w h = cc
  voters_vote (st ∷ sts) w h =
      ground (arith, voters_vote sts w, contains_congr (voting_set ha) st.member.name w)

  promoting-Subset : (sts : List MemberStatus) → Subset (promoting ha sts) (voting_set ha)
  unfolding contains
  promoting-Subset sts w h =
      ground (arith, voters_vote sts w, contains_congr (voting_set ha) ha.name w)

  voters_vouched :
      (sts : List MemberStatus) (w : Text)
      → contains (map status_name (select (voted ha) sts)) w ≡ true
      → any (λ st. same st.member.name w && seen_behind ha st) sts ≡ true
  unfolding contains select any
  voters_vouched [] w h = cc
  voters_vouched (st ∷ sts) w h = ground (arith, voters_vouched sts w)

  promoting-vouched :
      (sts : List MemberStatus) (w : Text)
      → contains (promoting ha sts) w ≡ true
      → vouched ha sts w ≡ true
  unfolding contains
  promoting-vouched sts w h = ground (arith, voters_vouched sts w)

  length-names : (sts : List MemberStatus) → length (map status_name sts) ≡ length sts
  length-names [] = refl
  length-names (st ∷ sts) = omega (arith, length-names sts)

  minus_one : (n : ℕ) → negsuc 0 +ℤ pos n +ℤ pos 1 ≡ pos n
  minus_one n = omega int_laws

  from_zero : (n : ℕ) → pos 0 +ℤ pos n +ℤ pos 1 ≡ pos (suc n)
  from_zero n = omega int_laws

  -- One more than the votes that were counted.
  promoting-size :
      (sts : List MemberStatus) (t : Tally)
      → tally ha sts (start_tally ha) ≡ some t
      → t.quorum_votes +ℤ pos 1 ≡ pos (len (promoting ha sts))
  unfolding start_tally
  promoting-size sts t h = ground (
    arith,
    tally-votes ha sts (start_tally ha) t h,
    length-names (select (voted ha) sts),
    minus_one (length (select (voted ha) sts)),
    from_zero (length (select (voted ha) sts)),
  )

-- The node and the members that it races with have different names, up to case.
abbrev pub HasDistinctNames : Ha → List Member → Type 0
HasDistinctNames ha members = IsDistinct (ha.name ∷ map (λ m. m.name) (race_members ha members))

statuses-IsDistinct :
    (env : Env) (ha : Ha) (members : List Member)
    → Completes env
    → HasDistinctNames ha members
    → IsDistinct (ha.name ∷ map status_name (race_statuses env ha members))
statuses-IsDistinct env ha members c d =
    IsDistinct-Rearranged
      (Rearranged.skip ha.name (fetched-Rearranged env (race_members ha members) c)) d

enough_votes-le :
    (ha : Ha) (t : Tally)
    → quorum_commit_mode_is_active ha ≡ true
    → opt_eq ha.cluster.sync.leader (some ha.name) ≡ false
    → enough_votes ha t ≡ true
    → ha.cluster.sync.quorum ≤ℤ t.quorum_votes
unfolding enough_votes race_quorum
enough_votes-le ha t active other h = ground arith

-- In quorum commit mode, a node other than the former leader that wins the race has, itself
-- included, more than `quorum` of the members of `/sync` behind it: each of them is the node itself,
-- or a running node that answered and is not ahead.
pub is_healthiest-quorum :
    (env : Env) (ha : Ha) (members : List Member) (lag : Bool) (leader : Option Text)
    → Completes env
    → HasDistinctNames ha members
    → quorum_commit_mode_is_active ha ≡ true
    → opt_eq ha.cluster.sync.leader (some ha.name) ≡ false
    → is_healthiest env ha members lag leader ≡ true
    → (promote : CaseInsensitiveSet) × IsDistinct promote
      × Subset promote (voting_set ha)
      × (ha.cluster.sync.quorum +ℤ pos 1 ≤ℤ pos (len promote))
      × ((w : Text)
          → contains promote w ≡ true
          → vouched ha (race_statuses env ha members) w ≡ true)
is_healthiest-quorum env ha members lag leader c d active other h =
    let (t, counted, enough) = is_healthiest-true env ha members lag leader h in
    let sts = race_statuses env ha members in
    (
      promoting ha sts,
      promoting-IsDistinct ha sts (statuses-IsDistinct env ha members c d),
      promoting-Subset ha sts,
      subst (λ n. ha.cluster.sync.quorum +ℤ pos 1 ≤ℤ n) (promoting-size ha sts t counted)
          (omega (int_laws, enough_votes-le ha t active other enough)),
      promoting-vouched ha sts,
    )
