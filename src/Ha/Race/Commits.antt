-- ===== src/Ha/Race/Commits.antt =====
-- Why no acknowledged commit is lost: `_is_healthiest_node` of patroni/ha.py with the invariant of
-- patroni/quorum.py.
use patroni.Base.{
  ◌≡◌, sym, ap, ◌∙◌, Bool, true, false, Option, some, List, [], ◌∷◌, Text, pos, ◌+ℤ◌, ◌≤ℤ◌, null,
  arith, if◌then◌else◌, subst,
}
use patroni.Collections.CaseInsensitiveSet.{CaseInsensitiveSet, init, contains, len, inter}
use patroni.Collections.CaseInsensitiveSet.Membership.{
  same_iff, contains-init, contains-union, contains-inter,
}
use patroni.Collections.CaseInsensitiveSet.Size.{IsDistinct, Subset}
use patroni.Dcs.SyncState
use patroni.Quorum.State.{ok, Published, check_invariants}
use patroni.Quorum.Overlap.{promotable, acknowledging, check_invariants-overlap}
use patroni.Ha.State.{Member, Ha, Env, quorum_commit_mode_is_active}
use patroni.Ha.Race.{voting_set, is_healthiest, opt_eq}
use patroni.Ha.Race.Votes.{race_statuses}
use patroni.Ha.Race.Quorum.{Completes, HasDistinctNames, vouched, is_healthiest-quorum}

-- The `/sync` key that the race read is the one that was published.
pub record IsSyncKey (ha : Ha) (p : Published) : Type 0 where
  pub leader : ha.cluster.sync.leader ≡ some p.leader
  pub some_leader : null p.leader ≡ false
  pub voters : p.voters ≡ init (SyncState.voters ha.cluster.sync)
  pub quorum : p.quorum ≡ ha.cluster.sync.quorum

members-eq :
    (ha : Ha) (p : Published)
    → IsSyncKey ha p
    → SyncState.members ha.cluster.sync ≡ p.leader ∷ SyncState.voters ha.cluster.sync
unfolding SyncState.members
members-eq ha p k = ground (arith, k.leader, k.some_leader)

pub promotable-contains :
    (p : Published) (w : Text)
    → contains (promotable p) w ≡ (if contains p.voters w then true else contains (p.leader ∷ []) w)
promotable-contains p w = simp (contains-init, contains-union)

pub voters-contains :
    (ha : Ha) (p : Published) (w : Text)
    → IsSyncKey ha p
    → contains p.voters w ≡ contains (SyncState.voters ha.cluster.sync) w
voters-contains ha p w k =
    ap (λ s. contains s w) k.voters ∙ contains-init (SyncState.voters ha.cluster.sync) w

pub voting_set-contains :
    (ha : Ha) (p : Published) (w : Text)
    → quorum_commit_mode_is_active ha ≡ true
    → IsSyncKey ha p
    → contains (voting_set ha) w ≡ contains (p.leader ∷ SyncState.voters ha.cluster.sync) w
unfolding voting_set
voting_set-contains ha p w active k = rw active (
    contains-init (SyncState.members ha.cluster.sync) w
    ∙ ap (λ s. contains s w) (members-eq ha p k))

voting_set-promotable :
    (ha : Ha) (p : Published)
    → quorum_commit_mode_is_active ha ≡ true
    → IsSyncKey ha p
    → Subset (voting_set ha) (promotable p)
unfolding contains
voting_set-promotable ha p active k w h =
    ground (
      arith,
      promotable-contains p w,
      voters-contains ha p w k,
      voting_set-contains ha p w active k,
    )

some_member : (s : CaseInsensitiveSet) → null s ≡ false → (w : Text) × (contains s w ≡ true)
unfolding contains
some_member [] n = cc
some_member (u ∷ s) n = (u, ground (arith, same_iff u u))

-- No acknowledged commit is lost: in quorum commit mode, where no request is lost and names differ, if
-- a node other than the former leader wins the race, and what is published passes `check_invariants`
-- and has voters, then among any `numsync` and one more nodes that acknowledged a commit there is one
-- that is the winner itself, or a running node that answered and is not ahead of the winner.
pub is_healthiest_keeps_commits :
    (env : Env) (ha : Ha) (members : List Member) (lag : Bool) (leader : Option Text)
    (wanted : Text) (p : Published) (ack : CaseInsensitiveSet)
    → Completes env
    → HasDistinctNames ha members
    → quorum_commit_mode_is_active ha ≡ true
    → opt_eq ha.cluster.sync.leader (some ha.name) ≡ false
    → is_healthiest env ha members lag leader ≡ true
    → IsSyncKey ha p
    → check_invariants wanted p ≡ ok tt
    → null p.voters ≡ false
    → IsDistinct ack
    → Subset ack (acknowledging wanted p)
    → p.numsync +ℤ pos 1 ≤ℤ pos (len ack)
    → (w : Text) × (contains ack w ≡ true) × (vouched ha (race_statuses env ha members) w ≡ true)
is_healthiest_keeps_commits env ha members lag leader wanted p ack c d active other h k checked v da
      sa na =
    let (promote, dp, sp, np, vouch) =
      is_healthiest-quorum env ha members lag leader c d active other h in
    let (w, both) = some_member (inter ack promote) (
      check_invariants-overlap wanted p ack promote checked v da dp sa
        (λ x m. voting_set-promotable ha p active k x (sp x m)) na
        (subst (λ q. q +ℤ pos 1 ≤ℤ pos (len promote)) (sym k.quorum) np)) in
    let in_both = contains-inter ack promote w in (w, ground arith, vouch w (ground arith))
