-- ===== src/Ha/Race/Votes.antt =====
-- What the loop of `_is_healthiest_node` in patroni/ha.py counts, and what a won race means.
use patroni.Base.{
  ℕ, suc, ◌≡◌, refl, inl, inr, Bool, true, false, not, ◌&&◌, ◌||◌, Option, none, some, List, [],
  ◌∷◌, Text, ℤ, pos, ◌+ℤ◌, ltb, leb, length, select, all, arith, int_laws, if◌then◌else◌,
  Option-cases,
}
use patroni.Collections.CaseInsensitiveSet.{contains}
use patroni.Dcs.SyncState
use patroni.Ha.State.{
  Member, MemberStatus, Limitation, failover_limitation, Ha, Env, fetch_nodes_statuses,
  sync_mode_is_active,
}
use patroni.Ha.Race.{
  Tally, voting_set, start_tally, count_vote, visit_able, visit, tally, enough_votes, decide_race,
  is_healthiest, race_members,
}

abbrev is_none : Option Limitation → Bool
is_none none = true
is_none (some _) = false

-- The node answered, may be promoted, runs PostgreSQL and is not ahead of this one.
abbrev pub seen_behind : Ha → MemberStatus → Bool
seen_behind ha st =
    is_none (failover_limitation st)
    && ltb 0 st.wal_position
    && leb st.wal_position ha.last_operation

abbrev pub voted : Ha → MemberStatus → Bool
voted ha st = seen_behind ha st && contains (voting_set ha) st.member.name

visit_able-votes :
    (ha : Ha) (st : MemberStatus) (r : Option Bool) (t t' : Tally)
    → failover_limitation st ≡ none
    → visit_able ha st r t ≡ some t'
    → t'.quorum_votes ≡ (if voted ha st then t.quorum_votes +ℤ pos 1 else t.quorum_votes)
unfolding visit_able count_vote
visit_able-votes ha st (some false) t t' l h = cc
visit_able-votes ha st (some true) t t' l h = ground arith
visit_able-votes ha st none t t' l h = ground arith

visit-votes :
    (ha : Ha) (st : MemberStatus) (t t' : Tally)
    → visit ha st t ≡ some t'
    → t'.quorum_votes ≡ (if voted ha st then t.quorum_votes +ℤ pos 1 else t.quorum_votes)
unfolding visit
visit-votes ha st t t' h = ground (arith, visit_able-votes ha st st.in_recovery t t')

add_one : (a : ℤ) (n : ℕ) → a +ℤ pos 1 +ℤ pos n ≡ a +ℤ pos (suc n)
add_one a n = omega int_laws

add_none : (a : ℤ) → a ≡ a +ℤ pos 0
add_none a = omega int_laws

-- The votes that were counted are those of the nodes that voted.
pub tally-votes :
    (ha : Ha) (sts : List MemberStatus) (t t' : Tally)
    → tally ha sts t ≡ some t'
    → t'.quorum_votes ≡ t.quorum_votes +ℤ pos (length (select (voted ha) sts))
unfolding tally select
tally-votes ha [] t t' h = ground (arith, add_none t.quorum_votes)
tally-votes ha (st ∷ sts) t t' h = elim (Option-cases (visit ha st t)) [
  | inl e ↦ ground arith
  | inr (u, e) ↦ ground (
    arith,
    tally-votes ha sts u t',
    visit-votes ha st t u e,
    add_one t.quorum_votes (length (select (voted ha) sts)),
  )
]

abbrev in_recovery_or_unknown : Option Bool → Bool
in_recovery_or_unknown (some false) = false
in_recovery_or_unknown _ = true

-- A node that could be promoted is no running primary, and is not ahead of this one, unless it is the
-- former leader in synchronous mode.
abbrev pub yields : Ha → MemberStatus → Bool
yields ha st =
    not (is_none (failover_limitation st))
    || (in_recovery_or_unknown st.in_recovery
        && (leb st.wal_position ha.last_operation
            || (sync_mode_is_active ha
                && SyncState.leader_matches ha.cluster.sync (some st.member.name))))

visit_able-yields :
    (ha : Ha) (st : MemberStatus) (r : Option Bool) (t t' : Tally)
    → visit_able ha st r t ≡ some t'
    → (in_recovery_or_unknown r
        && (leb st.wal_position ha.last_operation
            || (sync_mode_is_active ha
                && SyncState.leader_matches ha.cluster.sync (some st.member.name))))
      ≡ true
unfolding visit_able
visit_able-yields ha st (some false) t t' h = cc
visit_able-yields ha st (some true) t t' h = ground arith
visit_able-yields ha st none t t' h = ground arith

visit-yields :
    (ha : Ha) (st : MemberStatus) (t t' : Tally) → visit ha st t ≡ some t' → yields ha st ≡ true
unfolding visit
visit-yields ha st t t' h = ground (arith, visit_able-yields ha st st.in_recovery t t')

pub tally-yields :
    (ha : Ha) (sts : List MemberStatus) (t t' : Tally)
    → tally ha sts t ≡ some t'
    → all (yields ha) sts ≡ true
unfolding tally all
tally-yields ha [] t t' h = refl
tally-yields ha (st ∷ sts) t t' h = elim (Option-cases (visit ha st t)) [
  | inl e ↦ ground arith
  | inr (u, e) ↦ ground (arith, tally-yields ha sts u t', visit-yields ha st t u e)
]

-- The statuses that the race reads.
abbrev pub race_statuses : Env → Ha → List Member → List MemberStatus
race_statuses env ha members = fetch_nodes_statuses env (race_members ha members)

decide_race-true :
    (ha : Ha) (leader : Option Text) (o : Option Tally)
    → decide_race ha leader o ≡ true
    → (t : Tally) × (o ≡ some t) × (enough_votes ha t ≡ true)
unfolding decide_race
decide_race-true ha leader none h = cc
decide_race-true ha leader (some t) h = (t, refl, ground arith)

pub is_healthiest-true :
    (env : Env) (ha : Ha) (members : List Member) (lag : Bool) (leader : Option Text)
    → is_healthiest env ha members lag leader ≡ true
    → (t : Tally) × (tally ha (race_statuses env ha members) (start_tally ha) ≡ some t)
      × (enough_votes ha t ≡ true)
unfolding is_healthiest
is_healthiest-true env ha members lag leader h =
    decide_race-true ha leader (tally ha (race_statuses env ha members) (start_tally ha))
      (ground arith)

-- A node that wins the race saw no running primary among the nodes that could be promoted, and none
-- that is ahead of it, but for the former leader in synchronous mode.
pub is_healthiest-yields :
    (env : Env) (ha : Ha) (members : List Member) (lag : Bool) (leader : Option Text)
    → is_healthiest env ha members lag leader ≡ true
    → all (yields ha) (race_statuses env ha members) ≡ true
is_healthiest-yields env ha members lag leader h =
    let (t, e, _) = is_healthiest-true env ha members lag leader h in
    tally-yields ha (race_statuses env ha members) (start_tally ha) t e
