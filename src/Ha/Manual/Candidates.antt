-- ===== src/Ha/Manual/Candidates.antt =====
-- `is_failover_possible` of patroni/ha.py, by the number of members that could be promoted.
use patroni.Base.{
  ℕ, ◌≡◌, refl, sym, ◌∙◌, Bool, not, ◌&&◌, ◌||◌, List, [], ◌∷◌, map, ℤ, pos, negsuc, ◌+ℤ◌, ltb,
  ltb_ℤ, leb_ℤ, length, select, arith,
}
use patroni.Base.Rearranged.{Rearranged}
use patroni.Dcs.SyncState.{truthy}
use patroni.Ha.State.{
  Member, MemberStatus, requested, Ha, Env, fetch_node_status, fetch_nodes_statuses,
  quorum_commit_mode_is_active,
}
use patroni.Ha.Race.Quorum.{Completes}
use patroni.Ha.Manual.{
  is_eligible, get_failover_candidates, is_promotable, promotable_statuses, is_failover_possible,
}

-- The quorum is required: no candidate was named, or it is excluded.
abbrev pub needs_quorum : Ha → Bool → Bool
needs_quorum ha exclude =
    quorum_commit_mode_is_active ha
    && not (requested ha.cluster.failover && truthy ha.cluster.failover.candidate && not exclude)

-- How many members are candidates and answer that they could be promoted.
abbrev pub promotable_members : Env → Ha → ℕ → Bool → Bool → ℕ
promotable_members env ha lsn exclude site = length (
    select (λ m. is_eligible ha exclude site m && is_promotable ha lsn (fetch_node_status env m))
      ha.cluster.members)

module _ {A : Type 0} (p : A → Bool) where
  length-select-Rearranged :
      {xs ys : List A} → Rearranged xs ys → length (select p xs) ≡ length (select p ys)
  unfolding select
  length-select-Rearranged Rearranged.nil = refl
  length-select-Rearranged (Rearranged.skip x r) = ground (arith, length-select-Rearranged r)
  length-select-Rearranged (Rearranged.swap x y xs) = ground arith
  length-select-Rearranged (Rearranged.trans r s) =
      length-select-Rearranged r ∙ length-select-Rearranged s

module _ {A B : Type 0} (e : A → Bool) (p : B → Bool) (f : A → B) where
  length-select-map :
      (xs : List A)
      → length (select p (map f (select e xs))) ≡ length (select (λ x. e x && p (f x)) xs)
  unfolding select
  length-select-map [] = refl
  length-select-map (x ∷ xs) = ground (arith, length-select-map xs)

length-fetch_nodes_statuses :
    (env : Env) (p : MemberStatus → Bool) (ms : List Member)
    → Completes env
    → length (select p (fetch_nodes_statuses env ms))
      ≡ length (select p (map (fetch_node_status env) ms))
unfolding fetch_nodes_statuses
length-fetch_nodes_statuses env p [] c = refl
length-fetch_nodes_statuses env p (m ∷ ms) c =
    sym (length-select-Rearranged p (c (map (fetch_node_status env) (m ∷ ms))))

length-promotable_statuses :
    (env : Env) (ha : Ha) (lsn : ℕ) (exclude site : Bool)
    → Completes env
    → length (promotable_statuses env ha lsn exclude site)
      ≡ promotable_members env ha lsn exclude site
unfolding promotable_statuses get_failover_candidates
length-promotable_statuses env ha lsn exclude site c =
    length-fetch_nodes_statuses env (is_promotable ha lsn) (get_failover_candidates ha exclude site)
      c
    ∙ length-select-map (is_eligible ha exclude site) (is_promotable ha lsn) (fetch_node_status env)
        ha.cluster.members

votes_none : (n : ℕ) → leb_ℤ (pos 0) (negsuc 0 +ℤ pos n) ≡ ltb 0 n
unfolding ◌+ℤ◌
votes_none n = ground arith

votes_quorum : (n : ℕ) (q : ℤ) → ltb_ℤ (negsuc 0 +ℤ pos n) q ≡ not (ltb_ℤ q (pos n))
unfolding ◌+ℤ◌
votes_quorum n q = ground arith

-- Whatever the order in which the requests complete: a failover is possible if a candidate answers
-- that it could be promoted, and, where the quorum is required, more than `quorum` of them do.
pub is_failover_possible-eq :
    (env : Env) (ha : Ha) (lsn : ℕ) (exclude site : Bool)
    → Completes env
    → is_failover_possible env ha lsn exclude site ≡ (
        ltb 0 (promotable_members env ha lsn exclude site)
        && (not (needs_quorum ha exclude)
            || ltb_ℤ ha.cluster.sync.quorum (pos (promotable_members env ha lsn exclude site))))
unfolding is_failover_possible
is_failover_possible-eq env ha lsn exclude site c =
    rw
      (
        length-promotable_statuses env ha lsn exclude site c,
        votes_none (promotable_members env ha lsn exclude site),
        votes_quorum (promotable_members env ha lsn exclude site) ha.cluster.sync.quorum,
      )
      (ground arith)
