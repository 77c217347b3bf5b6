-- ===== src/Sync/Examples.antt =====
-- Replicas of a small cluster, and the theorems on synchronous replication at them.
use patroni.Base.{
  ℕ, ◌<◌, ◌≡◌, refl, Bool, true, false, ◌||◌, Option, none, some, List, [], ◌∷◌, Text, codes,
  text_eq, lower, pos, ◌≤ℤ◌, arith,
}
use patroni.Collections.CaseInsensitiveSet.{same, contains, len}
use patroni.Collections.CaseInsensitiveSet.Size.{Subset}
use patroni.Collections.CaseInsensitiveDict.{CaseInsensitiveDict, get_item, has_item, set_item}
use patroni.Dcs.SyncState.{SyncState}
use patroni.Base.{is_space, all, inl, inr, Bool-cases, subst, if◌then◌else◌}
use patroni.Dcs.SyncState.{or_empty}
use patroni.Collections.CaseInsensitiveSet.{add, eq, init, issubset}
use patroni.Sync.Names.{
  quorum, priority, parse_tokens, parse_list, parse_items, tokens, next_token, after_word, span,
  number_of, without_end, parse_sync_standby_names, is_standby_name, quote_standby_name,
}
use patroni.Sync.Names.Prefixed.{quote_standby_name-unparsed}
use patroni.Sync.Replicas.{StandbyMember, Replica, should_cascade}
use patroni.Sync.Replicas.Cascade.{
  upstream_of, has_answer, should_cascade_never_ends, should_cascade_ends,
}
use patroni.Sync.Handler.{
  SyncHandler, init_handler, Settings, becomes_ready, process_replica, process_replica_readiness,
  current_state,
}
use patroni.Sync.Handler.Choice.{current_state-Subset, current_state-le}
use patroni.Sync.Handler.Ready.{
  IsListed, reached, current_state-IsListed, process_replica_readiness-reached,
}

parse_quorum :
    parse_sync_standby_names (codes "ANY 4(a,*,B)")
    ≡ some (record {
      sync_type = quorum;
      has_star = true;
      num = 4;
      members = codes "a" ∷ codes "*" ∷ codes "B" ∷ [];
    })
unfolding parse_sync_standby_names parse_tokens parse_list parse_items tokens next_token after_word
    span number_of without_end is_space add eq init issubset contains same all text_eq lower
parse_quorum = refl

parse_plain :
    parse_sync_standby_names (codes " a , b ")
    ≡ some (record {
      sync_type = priority;
      has_star = false;
      num = 1;
      members = codes "a" ∷ codes "b" ∷ [];
    })
unfolding parse_sync_standby_names parse_tokens parse_list parse_items tokens next_token after_word
    span number_of without_end is_space add eq init issubset contains same all text_eq lower
parse_plain = refl

parse_open_list : parse_sync_standby_names (codes "FIRST 4(a,)") ≡ none
unfolding parse_sync_standby_names parse_tokens parse_list parse_items tokens next_token after_word
    span number_of without_end is_space add eq init issubset contains same all text_eq lower
parse_open_list = refl

quote_standby_name-unparsed_example :
    (quote_standby_name (λ s. s) (codes "anyhost") ≡ codes "anyhost")
    × (parse_sync_standby_names (quote_standby_name (λ s. s) (codes "anyhost")) ≡ none)
unfolding is_standby_name
quote_standby_name-unparsed_example =
    quote_standby_name-unparsed (λ s. s) 104 (codes "ost") refl refl

abbrev standby : Text → Option Text → StandbyMember
standby name from = record {
  name = name;
  is_running = true;
  nosync = false;
  nofailover = false;
  sync_priority = pos 1;
  replicatefrom = from;
}

abbrev a : StandbyMember
a = standby (codes "a") (some (codes "b"))

abbrev b : StandbyMember
b = standby (codes "b") (some (codes "a"))

abbrev cycle : CaseInsensitiveDict StandbyMember
cycle = (codes "a", a) ∷ (codes "b", b) ∷ []

should_cascade_never_ends_example : should_cascade 1000 cycle [] a ≡ none
unfolding get_item same text_eq lower
should_cascade_never_ends_example = should_cascade_never_ends 1000 cycle [] a b refl refl refl refl

-- `e` replicates from `c`, `c` from `d`, and `d` from the leader.
abbrev c : StandbyMember
c = standby (codes "c") (some (codes "d"))

abbrev d : StandbyMember
d = standby (codes "d") none

abbrev e : StandbyMember
e = standby (codes "e") (some (codes "c"))

abbrev chain : CaseInsensitiveDict StandbyMember
chain = (codes "e", e) ∷ (codes "c", c) ∷ (codes "d", d) ∷ []

abbrev rank_of : Text → ℕ
rank_of t =
    if same (codes "e") t
    then 3
    else if same (codes "c") t
    then 2
    else if same (codes "d") t
    then 1
    else 0

abbrev rank : StandbyMember → ℕ
rank m = rank_of (or_empty m.replicatefrom)

lower_upstream :
    (b : StandbyMember) (u : StandbyMember) (n : ℕ) → rank b < n → some b ≡ some u → rank u < n
lower_upstream b u n l h = subst (λ o. rank (elim o [ none ↦ b | some x ↦ x ]) < n) h l

rank_falls : (m u : StandbyMember) → upstream_of chain m ≡ some u → rank u < rank m
unfolding get_item same text_eq lower
rank_falls m u h = elim (Bool-cases (same (codes "e") (or_empty m.replicatefrom))) [
  | inl p ↦ rw p (lower_upstream e u 3 (omega arith) (rw p at h))
  | inr p ↦ elim (Bool-cases (same (codes "c") (or_empty m.replicatefrom))) [
    | inl q ↦ rw (p, q) (lower_upstream c u 2 (omega arith) (rw (p, q) at h))
    | inr q ↦ elim (Bool-cases (same (codes "d") (or_empty m.replicatefrom))) [
      | inl r ↦ rw (p, q, r) (lower_upstream d u 1 (omega arith) (rw (p, q, r) at h))
      | inr r ↦ cc
    ]
  ]
]

should_cascade_ends_example : has_answer (should_cascade 3 chain [] e) ≡ true
unfolding same text_eq lower
should_cascade_ends_example = should_cascade_ends 3 chain [] rank e rank_falls (omega arith)

abbrev settings : Bool → Settings
settings quorum_commit = record {
  is_quorum_commit_mode = quorum_commit;
  synchronous_node_count = pos 1;
  maximum_lag_on_syncnode = pos 0;
  supports_multiple_sync = true;
  supports_quorum_commit = true;
}

abbrev sync : SyncState
sync = record { version = none; leader = some (codes "x"); sync_standby = none; quorum = pos 0 }

abbrev replica : Text → ℕ → Replica
replica name lsn = record {
  pid = 7;
  application_name = name;
  sync_state = codes "quorum";
  lsn = lsn;
  nofailover = false;
  sync_priority = pos 1;
}

abbrev replicas : List Replica
replicas = replica (codes "b") 20 ∷ replica (codes "c") 5 ∷ []

current_state-Subset_example :
    Subset
      (current_state
        (settings true)
        sync
        init_handler
        (codes "ANY 1 (b,c)")
        10
        replicas).0.sync_confirmed
      (current_state (settings true) sync init_handler (codes "ANY 1 (b,c)") 10 replicas).0.active
current_state-Subset_example =
    current_state-Subset (settings true) sync init_handler (codes "ANY 1 (b,c)") 10 replicas

current_state-le_example :
    pos (len (current_state (settings false) sync init_handler (codes "b") 10 replicas).0.active)
    ≤ℤ pos 1
current_state-le_example =
    current_state-le (settings false) sync init_handler (codes "b") 10 replicas refl (omega arith)

init_handler-IsListed : IsListed init_handler
unfolding has_item
init_handler-IsListed w h = cc

current_state-IsListed_example :
    IsListed (current_state (settings true) sync init_handler (codes "ANY 1 (b,c)") 10 replicas).1
current_state-IsListed_example =
    current_state-IsListed (settings true) sync init_handler (codes "ANY 1 (b,c)") 10 replicas
      init_handler-IsListed

-- `b` is listed, and has reached the position 10.
abbrev waiting : SyncHandler
waiting = record init_handler {
  ssn_data = record (init_handler.ssn_data) { members = codes "b" ∷ codes "c" ∷ [] };
  primary_flush_lsn = 10;
}

b_is_ready :
    has_item
      (process_replica_readiness (settings true) sync waiting replicas).ready_replicas
      (codes "b")
    ≡ true
unfolding process_replica_readiness process_replica becomes_ready has_item set_item contains same
    text_eq lower
b_is_ready = refl

process_replica_readiness-reached_example :
    (has_item waiting.ready_replicas (codes "b") || reached 10 (codes "b") replicas) ≡ true
process_replica_readiness-reached_example =
    process_replica_readiness-reached (settings true) sync waiting replicas (codes "b") refl
      b_is_ready
