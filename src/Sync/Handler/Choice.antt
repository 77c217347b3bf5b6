-- ===== src/Sync/Handler/Choice.antt =====
-- Which replicas `current_state` of patroni/postgresql/sync.py chooses.
use patroni.Base.{
  ℕ, suc, ◌≤◌, ◌≡◌, Bool, true, false, not, ◌||◌, List, [], ◌∷◌, Text, pos, ◌≤ℤ◌, ◌<ℤ◌, leb_ℤ,
  ltb_ℤ, arith, int_laws, if◌then◌else◌, Bool-cases, inl, inr,
}
use patroni.Collections.CaseInsensitiveSet.{CaseInsensitiveSet, len, add}
use patroni.Collections.CaseInsensitiveSet.Membership.{contains-add}
use patroni.Collections.CaseInsensitiveSet.Size.{Subset}
use patroni.Dcs.SyncState.{SyncState}
use patroni.Sync.Replicas.{Replica, max_lsn}
use patroni.Sync.Handler.{
  SyncHandler, Settings, Chosen, node_count, is_near, choose_quorum, choose_priority, choose,
  promotable_first, current_state,
}

add-Subset : (a b : CaseInsensitiveSet) (w : Text) → Subset a b → Subset (add a w) (add b w)
add-Subset a b w s v h = ground (arith, contains-add a w v, contains-add b w v, s v)

Subset-add : (a b : CaseInsensitiveSet) (w : Text) → Subset a b → Subset a (add b w)
Subset-add a b w s v h = ground (arith, contains-add b w v, s v h)

abbrev IsNested : Chosen → Type 0
IsNested c = Subset c.confirmed c.active

if-Subset :
    (b : Bool) (c : Chosen) (w : Text)
    → IsNested c
    → Subset (if b then add c.confirmed w else c.confirmed) (add c.active w)
if-Subset true c w s = add-Subset c.confirmed c.active w s
if-Subset false c w s = Subset-add c.confirmed c.active w s

choose_quorum-IsNested :
    (cfg : Settings) (h : SyncHandler) (r : Replica) (c : Chosen)
    → IsNested c
    → IsNested (choose_quorum cfg h r c)
unfolding choose_quorum
choose_quorum-IsNested cfg h r c s =
    elim (Bool-cases (not r.nofailover || ltb_ℤ (pos (len c.active)) (node_count cfg))) [
      | inl e ↦ rw e (if-Subset _ c r.application_name s)
      | inr e ↦ rw e s
    ]

choose_priority-IsNested :
    (h : SyncHandler) (r : Replica) (c : Chosen) → IsNested c → IsNested (choose_priority h r c)
unfolding choose_priority
choose_priority-IsNested h r c s = if-Subset _ c r.application_name s

if-IsNested : (b : Bool) (c d : Chosen) → IsNested c → IsNested d → IsNested (if b then c else d)
if-IsNested true c d s t = s
if-IsNested false c d s t = t

choose-IsNested :
    (cfg : Settings) (h : SyncHandler) (n : ℕ) (rs : List Replica) (c : Chosen)
    → IsNested c
    → IsNested (choose cfg h n rs c)
unfolding choose
choose-IsNested cfg h n [] c s = s
choose-IsNested cfg h n (r ∷ rs) c s =
    let next =
      choose-IsNested cfg h n rs (choose_priority h r c) (choose_priority-IsNested h r c s) in
    if-IsNested _ _ _ (choose-IsNested cfg h n rs c s) (
      if-IsNested _ _ _
        (choose-IsNested cfg h n rs (choose_quorum cfg h r c) (choose_quorum-IsNested cfg h r c s))
        (if-IsNested _ _ _ (choose_priority-IsNested h r c s) next))

-- Only active nodes are reported as confirmed to be synchronous.
pub current_state-Subset :
    (cfg : Settings) (sync : SyncState) (h : SyncHandler) (names : Text) (position : ℕ)
    (rs : List Replica)
    → Subset
        (current_state cfg sync h names position rs).0.sync_confirmed
        (current_state cfg sync h names position rs).0.active
unfolding current_state
current_state-Subset cfg sync h names position rs =
    choose-IsNested cfg _ (max_lsn position rs) (promotable_first rs) _ (λ v m. m)

len-add-le : (s : CaseInsensitiveSet) (w : Text) → len (add s w) ≤ suc (len s)
unfolding add
len-add-le [] w = omega arith
len-add-le (u ∷ s) w = ground (arith, len-add-le s w)

choose-le :
    (cfg : Settings) (h : SyncHandler) (n : ℕ) (rs : List Replica) (c : Chosen)
    → cfg.is_quorum_commit_mode ≡ false
    → pos (len c.active) <ℤ node_count cfg
    → pos (len (choose cfg h n rs c).active) ≤ℤ node_count cfg
unfolding choose choose_priority
choose-le cfg h n [] c q few = omega (arith, int_laws)
choose-le cfg h n (r ∷ rs) c q few = elim (Bool-cases (is_near cfg n r)) [
  | inr e ↦ rw e (choose-le cfg h n rs c q few)
  | inl e ↦
      elim (Bool-cases (leb_ℤ (node_count cfg) (pos (len (add c.active r.application_name))))) [
        | inl f ↦ rw (e, q, f) (omega (int_laws, few, len-add-le c.active r.application_name))
        | inr f ↦ rw (e, q, f) (choose-le cfg h n rs (choose_priority h r c) q (ground (arith, f)))
      ]
]

-- Without quorum commit, no more nodes are active than the configured number, where that is positive.
pub current_state-le :
    (cfg : Settings) (sync : SyncState) (h : SyncHandler) (names : Text) (position : ℕ)
    (rs : List Replica)
    → cfg.is_quorum_commit_mode ≡ false
    → pos 0 <ℤ node_count cfg
    → pos (len (current_state cfg sync h names position rs).0.active) ≤ℤ node_count cfg
unfolding current_state
current_state-le cfg sync h names position rs q some_nodes =
    choose-le cfg _ (max_lsn position rs) (promotable_first rs) _ q some_nodes
