-- ===== src/Ha/Replication/Order.antt =====
-- About the order of the changes in `_process_multisync_replication` of patroni/ha.py.
use patroni.Base.{
  ◌≡◌, refl, ap, sym, ◌∙◌, ℕ, Bool, true, false, not, ◌&&◌, Option, none, some, List, [], ◌∷◌, Text,
  ℤ, pos, null, select, arith, if◌then◌else◌, insert_sorted, sorted, foldl, ◌==◌,
}
use patroni.Base.Texts.Split.{Every}
use patroni.Collections.CaseInsensitiveSet.{
  CaseInsensitiveSet, len, add, init, eq, inter, contains, same,
}
use patroni.Collections.CaseInsensitiveSet.Membership.{contains-init, contains-inter}
use patroni.Collections.CaseInsensitiveSet.Size.{
  IsDistinct, Subset, init-IsDistinct, Subset_of_eq_sym,
}
use patroni.Dcs.SyncState
use patroni.Dcs.SyncState.{SyncState, from_node, sync_state}
use patroni.Dcs.SyncState.Laws.{IsName, voters-from_node}
use patroni.Sync.Handler.{CurrentState}
use patroni.Ha.State.{Ha}
use patroni.Ha.Replication.{
  Change, wrote, set_names, KeyWrite, Dcs, write_sync_state, written, maybe_enable, claim, amend,
  handle_synchronous_strict_mode, assign_synchronous, change_names, move, settle, unless_strict,
  process_multisync_replication,
}

-- The names of a `/sync` key.
abbrev pub published : SyncState → CaseInsensitiveSet
published s = init (SyncState.voters s)

-- After each change, the voters in `/sync` are among `synchronous_standby_names`; at first these are
-- `voters` and `names`.
abbrev pub Covered : CaseInsensitiveSet → CaseInsensitiveSet → List Change → Type 0
Covered voters names [] = Unit {0}
Covered voters names (wrote s ∷ changes) =
    Subset (published s) names × Covered (published s) names changes
Covered voters names (set_names names' n ∷ changes) =
    Subset voters names' × Covered voters names' changes

Covered-if :
    (v n : CaseInsensitiveSet) (b : Bool) (cs ds : List Change)
    → (b ≡ true → Covered v n cs)
    → (b ≡ false → Covered v n ds)
    → Covered v n (if b then cs else ds)
Covered-if v n true cs ds k l = k refl
Covered-if v n false cs ds k l = l refl

contains-insert_sorted :
    (t : Text) (ts : List Text) (w : Text) → contains (insert_sorted t ts) w ≡ contains (t ∷ ts) w
unfolding contains insert_sorted
contains-insert_sorted t [] w = refl
contains-insert_sorted t (u ∷ ts) w = ground (arith, contains-insert_sorted t ts w)

contains_next :
    (t : Text) (xs ys : List Text) (w : Text)
    → contains xs w ≡ contains ys w
    → contains (t ∷ xs) w ≡ contains (t ∷ ys) w
unfolding contains
contains_next t xs ys w e = ground (arith, e)

contains-sorted : (ts : List Text) (w : Text) → contains (sorted ts) w ≡ contains ts w
unfolding sorted
contains-sorted [] w = refl
contains-sorted (t ∷ ts) w =
    contains-insert_sorted t (sorted ts) w ∙ contains_next t _ _ w (contains-sorted ts w)

Every-if :
    (b : Bool) (xs ys : List Text)
    → Every IsName xs
    → Every IsName ys
    → Every IsName (if b then xs else ys)
Every-if true xs ys e f = e
Every-if false xs ys e f = f

Every-add : (s : CaseInsensitiveSet) (v : Text) → Every IsName s → IsName v → Every IsName (add s v)
unfolding add
Every-add [] v e h = (h, tt)
Every-add (u ∷ s) v e h =
    Every-if (same u v) (v ∷ s) (u ∷ add s v) (h, e.1) (e.0, Every-add s v e.1 h)

Every-select : (p : Text → Bool) (ts : List Text) → Every IsName ts → Every IsName (select p ts)
unfolding select
Every-select p [] e = tt
Every-select p (t ∷ ts) e =
    Every-if (p t) (t ∷ select p ts) (select p ts) (e.0, Every-select p ts e.1)
      (Every-select p ts e.1)

Every-init : (s ts : List Text) → Every IsName s → Every IsName ts → Every IsName (foldl add s ts)
Every-init s [] e f = e
Every-init s (t ∷ ts) e f = Every-init (add s t) ts (Every-add s t e f.0) f.1

Every-inter : (a b : CaseInsensitiveSet) → Every IsName b → Every IsName (inter a b)
unfolding inter init
Every-inter a b e = Every-init [] _ tt (Every-select (contains a) b e)

inter-Subset : (a b : CaseInsensitiveSet) → Subset (inter a b) b
inter-Subset a b w h = ground (arith, contains-inter a b w)

-- What is written with names is read back.
read-Subset :
    (version : Option ℕ) (leader : Text) (names : List Text) (quorum : Option ℤ)
    → null leader ≡ false
    → Every IsName names
    → Subset
        (published (from_node version (some (sync_state (some leader) (some names) quorum))))
        names
read-Subset version leader names quorum l e w h =
    sym (contains-sorted names w)
    ∙ ap (λ x. contains x w) (sym (voters-from_node version leader names quorum l e))
    ∙ sym (contains-init _ w)
    ∙ h

no_member : (w : Text) → contains [] w ≡ true → ⊥
unfolding contains
no_member w h = ground arith

null_Subset : (s : CaseInsensitiveSet) → null s ≡ true → Subset s []
null_Subset [] e w h = h
null_Subset (u ∷ s) e w h = absurd (no_null e)
  where
    no_null : false ≡ true → ⊥
    no_null e = cc

module _ (dcs : Dcs) (ha : Ha) (named : null ha.name ≡ false) where
  -- The key is written with names that are in `synchronous_standby_names`.
  write-Covered :
      (call : KeyWrite) (names : List Text) (v n : CaseInsensitiveSet) (k : SyncState → List Change)
      → Every IsName names
      → Subset names n
      → ((s : SyncState) → Subset (published s) names → Covered (published s) n (k s))
      → Covered v n (written (write_sync_state dcs call ha.name (some names)) k)
  unfolding written write_sync_state
  write-Covered call names v n k e within rest = with_answer (dcs call)
    where
      with_answer :
          (o : Option (Option ℕ))
          → Covered v n (
              written
                (elim o [
                  | none ↦ none
                  | some version ↦ some (
                      from_node version
                        (some (sync_state (some ha.name) (some names) (some (pos 0)))))
                ])
                k)
      with_answer none = tt
      with_answer (some version) =
          let read = read-Subset version ha.name names (some (pos 0)) named e in
          (λ w h. within w (read w h), rest _ read)

  nobody :
      (version : Option ℕ)
      → Subset
          (published (from_node version (some (sync_state (some ha.name) none (some (pos 0))))))
          []
  unfolding from_node sync_state SyncState.joined SyncState.voters SyncState.is_empty init
  nobody version w h = ground arith

  -- The key is written without names.
  claim-Covered :
      (call : KeyWrite) (v n : CaseInsensitiveSet) (k : SyncState → List Change)
      → ((s : SyncState) → Subset (published s) [] → Covered (published s) n (k s))
      → Covered v n (written (write_sync_state dcs call ha.name none) k)
  unfolding written write_sync_state
  claim-Covered call v n k rest = with_answer (dcs call)
    where
      with_answer :
          (o : Option (Option ℕ))
          → Covered v n (
              written
                (elim o [
                  | none ↦ none
                  | some version ↦
                      some
                        (from_node version (some (sync_state (some ha.name) none (some (pos 0)))))
                ])
                k)
      with_answer none = tt
      with_answer (some version) =
          (λ w h. absurd (no_member w (nobody version w h)), rest _ (nobody version))

module _ (dcs : Dcs) (ha : Ha) (state later : CurrentState) (named : null ha.name ≡ false)
    (names : Every IsName state.sync_confirmed) (later_names : Every IsName later.sync_confirmed)
    (active : Subset state.sync_confirmed state.active)
    (later_active : Subset later.sync_confirmed state.active) where
  allowed :
      (b : Bool)
      → Every IsName (if b then later.sync_confirmed else state.sync_confirmed)
        × Subset (if b then later.sync_confirmed else state.sync_confirmed) state.active
  allowed true = (later_names, later_active)
  allowed false = (names, active)

  assign_if :
      (b : Bool) (v allow_promote : CaseInsensitiveSet)
      → Every IsName allow_promote × Subset allow_promote state.active
      → Covered v state.active (
          if b
          then written (write_sync_state dcs KeyWrite.assign ha.name (some allow_promote)) (λ s. [])
          else [])
  assign_if true v allow_promote (e, s) =
      write-Covered dcs ha named KeyWrite.assign allow_promote v state.active (λ _. []) e s
        (λ _ _. tt)
  assign_if false v allow_promote k = tt

  assign-Covered :
      (v common : CaseInsensitiveSet)
      → Covered v state.active (assign_synchronous dcs ha state later common)
  unfolding assign_synchronous
  assign-Covered v common =
      assign_if _ v _
        (allowed (not (null state.active) && not (eq state.sync_confirmed state.active)))

  change-Covered :
      (v n common : CaseInsensitiveSet)
      → Subset v state.active
      → Covered v n (change_names dcs ha state later common)
  unfolding change_names
  change-Covered v n common s = (s, assign-Covered v common)

  module _ (n : CaseInsensitiveSet) (synced : Subset state.sync_confirmed n) where
    move-Covered :
        (v voters : CaseInsensitiveSet)
        → Subset v voters
        → Covered v n (move dcs ha state later voters)
    unfolding move
    move-Covered v voters s =
        Covered-if v n (not (eq (inter voters state.sync_confirmed) voters)) _ _
          (λ _.
            write-Covered dcs ha named KeyWrite.shrink _ v n _
              (Every-inter voters state.sync_confirmed names)
              (λ w h. synced w (inter-Subset voters state.sync_confirmed w h))
              (λ _ read.
                change-Covered _ n _
                  (λ w h. active w (inter-Subset voters state.sync_confirmed w (read w h)))))
          (λ kept. change-Covered v n _ (λ w h. active w (
            inter-Subset voters state.sync_confirmed w (
              Subset_of_eq_sym (inter voters state.sync_confirmed) voters
                (unfold inter in init-IsDistinct _) (ground arith) w (s w h)))))

    settle-Covered :
        (v voters : CaseInsensitiveSet)
        → IsDistinct state.active
        → Subset v voters
        → Covered v n (settle dcs ha state later voters)
    unfolding settle
    settle-Covered v voters d s =
        Covered-if v n
          (eq state.active voters && eq voters state.sync && state.numsync == len state.active) _ _
          (λ equal.
            Covered-if v n _ (set_names state.active none ∷ []) []
              (λ _. (λ w h. Subset_of_eq_sym state.active voters d (ground arith) w (s w h), tt))
              (λ _. tt))
          (λ _. move-Covered v voters s)

  -- What is in `/sync` is in `synchronous_standby_names`, and is what the code takes for it.
  abbrev Known : CaseInsensitiveSet → CaseInsensitiveSet → SyncState → CaseInsensitiveSet → Type 0
  Known v n sync voters = Subset v n × Subset v voters × Subset v (published sync)

  module _ (n : CaseInsensitiveSet) (synced : Subset state.sync_confirmed n) where
    amend-Covered :
        (v : CaseInsensitiveSet) (sync : SyncState) (voters : CaseInsensitiveSet)
        (k : SyncState → CaseInsensitiveSet → List Change)
        → Known v n sync voters
        → ((v' : CaseInsensitiveSet) (s : SyncState) (voters' : CaseInsensitiveSet)
            → Known v' n s voters'
            → Covered v' n (k s voters'))
        → Covered v n (amend dcs ha state sync voters k)
    unfolding amend
    amend-Covered v sync voters k known rest =
        Covered-if v n _ _ _
          (λ _. write-Covered dcs ha named KeyWrite.correct _ v n _ names synced λ s read.
            rest (published s) s (published s) (λ w h. synced w (read w h), λ w h. h, λ w h. h))
          (λ _. rest v sync voters known)

    claimed_Known : (s : SyncState) → Subset (published s) [] → Known (published s) n s []
    claimed_Known s none_read = (λ w h. absurd (no_member w (none_read w h)), none_read, λ w h. h)

    claim-Known :
        (v : CaseInsensitiveSet) (sync : SyncState)
        (k : SyncState → CaseInsensitiveSet → List Change)
        → Known v n sync (published sync)
        → ((v' : CaseInsensitiveSet) (s : SyncState) (voters' : CaseInsensitiveSet)
            → Known v' n s voters'
            → Covered v' n (k s voters'))
        → Covered v n (claim dcs ha sync k)
    unfolding claim
    claim-Known v sync k known rest =
        Covered-if v n _ _ _
          (λ _.
            claim-Covered dcs ha named KeyWrite.take_over v n _
              λ s read. rest (published s) s [] (claimed_Known s read))
          (λ _. rest v sync (published sync) known)

    enable-Covered :
        (k : SyncState → List Change)
        → Subset (published ha.cluster.sync) n
        → ((s : SyncState) → Subset (published s) n → Covered (published s) n (k s))
        → Covered (published ha.cluster.sync) n (maybe_enable dcs ha k)
    unfolding maybe_enable
    enable-Covered k s rest =
        Covered-if (published ha.cluster.sync) n _ _ _
          (λ _.
            claim-Covered dcs ha named KeyWrite.enable _ n _
              λ s' read. rest s' (λ w h. absurd (no_member w (read w h))))
          (λ _. rest ha.cluster.sync s)

  -- `synchronous_standby_names` is set to the voters, or, where nobody is active, emptied.
  strict_if :
      (b x y : Bool) (v n m : CaseInsensitiveSet) (numsync : ℤ) (rest : List Change)
      → Subset v m
      → (y ≡ true → Subset v [] × Subset state.sync_confirmed [])
      → Subset state.sync_confirmed n
      → ((n' : CaseInsensitiveSet) → Subset state.sync_confirmed n' → Covered v n' rest)
      → Covered v n (
          unless_strict
            (if b
              then (if x then set_names m (some numsync) ∷ [] else [], true)
              else (if y then set_names [] none ∷ [] else [], false))
            rest)
  unfolding unless_strict
  strict_if true true y v n m numsync rest s e synced k = (s, tt)
  strict_if true false y v n m numsync rest s e synced k = tt
  strict_if false x true v n m numsync rest s e synced k = (let (a, b) = e refl in (a, k [] b))
  strict_if false x false v n m numsync rest s e synced k = k n synced

  strict-Covered :
      (v n : CaseInsensitiveSet) (sync : SyncState) (rest : List Change)
      → Subset v (published sync)
      → Subset state.sync_confirmed n
      → ((n' : CaseInsensitiveSet) → Subset state.sync_confirmed n' → Covered v n' rest)
      → Covered v n (unless_strict (handle_synchronous_strict_mode ha sync state) rest)
  unfolding handle_synchronous_strict_mode
  strict-Covered v n sync rest s synced k =
      strict_if _ _ _ v n (published sync) _ rest s
        (λ y. (
          λ w h.
              null_Subset (SyncState.voters sync) (ground arith) w
                (sym (contains-init (SyncState.voters sync) w) ∙ s w h),
          λ w h. null_Subset state.active (ground arith) w (active w h),
        ))
        synced k

  replication-Covered :
      IsDistinct state.active
      → Subset state.sync_confirmed state.sync
      → Subset (published ha.cluster.sync) state.sync
      → Covered
          (published ha.cluster.sync)
          state.sync
          (process_multisync_replication dcs ha state later)
  unfolding process_multisync_replication
  replication-Covered distinct synced at_first =
      enable-Covered state.sync synced _ at_first λ enabled s.
        claim-Known state.sync synced _ enabled _ (s, λ w h. h, λ w h. h)
          λ v claimed voters known.
            amend-Covered state.sync synced v claimed voters _ known λ v' sync voters' known'.
              strict-Covered v' state.sync sync _ known'.2 synced
                λ n' synced'. settle-Covered n' synced' v' voters' distinct known'.1

-- For a leader with a name, whose confirmed nodes have names that survive the list in `/sync` and are among
-- the active nodes and in `synchronous_standby_names`, where the nodes that are confirmed later are among
-- the active ones too: if the voters in `/sync` are in `synchronous_standby_names` at first, they are so
-- after each change that `_process_multisync_replication` makes, whichever writes the DCS refuses.
pub process_multisync_replication-Covered :
    (dcs : Dcs) (ha : Ha) (state later : CurrentState)
    → null ha.name ≡ false
    → Every IsName state.sync_confirmed
    → Every IsName later.sync_confirmed
    → IsDistinct state.active
    → Subset state.sync_confirmed state.active
    → Subset state.sync_confirmed state.sync
    → Subset later.sync_confirmed state.active
    → Subset (published ha.cluster.sync) state.sync
    → Covered
        (published ha.cluster.sync)
        state.sync
        (process_multisync_replication dcs ha state later)
process_multisync_replication-Covered dcs ha state later named e e' distinct active synced
      later_active =
    replication-Covered dcs ha state later named e e' active later_active distinct synced
