-- ===== src/Sync/Replicas.antt =====
-- `_ReplicaList` of patroni/postgresql/sync.py: the replicas that may be synchronous.
pub mod Cascade
use patroni.Base.{
  ℕ, zero, suc, Bool, true, false, not, ◌&&◌, ◌||◌, Option, none, some, List, [], ◌∷◌, map, foldl,
  Text, text_eq, text_lt, ℤ, ltb_ℤ, eqb_ℤ, ltb, ◌==◌, select, if◌then◌else◌,
}
use patroni.Collections.CaseInsensitiveSet.{same}
use patroni.Collections.CaseInsensitiveDict.{
  CaseInsensitiveDict, get_item, has_item, from_items, values,
}
use patroni.Dcs.SyncState.{truthy, or_empty}

-- A member of the cluster, by what is read here.
pub record StandbyMember : Type 0 where
  pub name : Text
  pub is_running : Bool
  pub nosync : Bool
  pub nofailover : Bool
  pub sync_priority : ℤ
  pub replicatefrom : Option Text

-- A row of `pg_stat_replication`; `lsn` is the column that `synchronous_commit` selects.
pub record Row : Type 0 where
  pub pid : ℕ
  pub application_name : Text
  pub sync_state : Text
  pub lsn : Option ℕ

-- `_Replica`
pub record Replica : Type 0 where
  pub pid : ℕ
  pub application_name : Text
  pub sync_state : Text
  pub lsn : ℕ
  pub nofailover : Bool
  pub sync_priority : ℤ

-- `_should_cascade`, on fuel: the depth of recursion. `none` where it is not enough.
unfoldable pub should_cascade :
    ℕ → CaseInsensitiveDict StandbyMember → CaseInsensitiveDict Row → StandbyMember → Option Bool
should_cascade zero members replication member = none
should_cascade (suc n) members replication member =
    elim (get_item members (or_empty member.replicatefrom)) [
      | none ↦ some false
      | some upstream ↦
          let further = should_cascade n members replication upstream in
          if not (truthy member.replicatefrom)
          then some false
          else if not (truthy upstream.replicatefrom)
          then some (has_item replication upstream.name)
          else further
    ]

module _ {A : Type 0} where
  put_key : List (Text × A) → Text → A → List (Text × A)
  put_key [] key value = (key, value) ∷ []
  put_key ((k, v) ∷ d) key value =
      let rest = (k, v) ∷ put_key d key value in if text_eq k key then (k, value) ∷ d else rest

  -- `{key: value for ...}`: a later value replaces an earlier one of the same key.
  as_dict : List (Text × A) → List (Text × A)
  unfolding put_key
  as_dict = foldl (λ d entry. put_key d entry.0 entry.1) []

unfoldable pub eligible_members : Text → List StandbyMember → CaseInsensitiveDict StandbyMember
unfolding as_dict
eligible_members my_name ms = from_items (
    as_dict (
      map (λ m. (m.name, m))
        (select (λ m. m.is_running && not m.nosync && not (same m.name my_name)) ms)))

has_lsn : Row → Bool
has_lsn row = elim row.lsn [ none ↦ false | some _ ↦ true ]

unfoldable pub replication_rows :
    CaseInsensitiveDict StandbyMember → List Row → CaseInsensitiveDict Row
unfolding has_lsn as_dict
replication_rows members rows = from_items (
    as_dict (
      map (λ r. (r.application_name, r))
        (select (λ r. has_lsn r && has_item members r.application_name) rows)))

-- A row as a replica; `some none` where it is left out, `none` where the recursion does not end.
as_replica :
    Row → Option ℕ → Option StandbyMember → (StandbyMember → Option Bool) → Option (Option Replica)
as_replica row none m cascades = some none
as_replica row (some lsn) none cascades = some none
as_replica row (some lsn) (some m) cascades = elim (cascades m) [
  | none ↦ none
  | some true ↦ some none
  | some false ↦ some (
      some (record {
        pid = row.pid;
        application_name = row.application_name;
        sync_state = row.sync_state;
        lsn = lsn;
        nofailover = m.nofailover;
        sync_priority = m.sync_priority;
      }))
]

collect_replicas :
    CaseInsensitiveDict StandbyMember
    → (StandbyMember → Option Bool)
    → List Row
    → Option (List Replica)
unfolding as_replica
collect_replicas members cascades [] = some []
collect_replicas members cascades (row ∷ rows) =
    elim (as_replica row row.lsn (get_item members row.application_name) cascades) [
      | none ↦ none
      | some none ↦ collect_replicas members cascades rows
      | some (some r) ↦ elim (collect_replicas members cascades rows) [
        | none ↦ none
        | some rs ↦ some (r ∷ rs)
      ]
    ]

-- The order of `(sync_priority, sync_state, lsn)`.
unfoldable pub key_lt : Replica → Replica → Bool
key_lt a b =
    ltb_ℤ a.sync_priority b.sync_priority
    || eqb_ℤ a.sync_priority b.sync_priority
      && (text_lt a.sync_state b.sync_state || text_eq a.sync_state b.sync_state && ltb a.lsn b.lsn)

unfoldable pub insert_replica : Replica → List Replica → List Replica
insert_replica r [] = r ∷ []
insert_replica r (s ∷ ss) =
    let rest = s ∷ insert_replica r ss in if key_lt r s then rest else r ∷ s ∷ ss

-- `sort(key=..., reverse=True)`, which is stable.
unfoldable pub sort_replicas : List Replica → List Replica
unfolding insert_replica
sort_replicas [] = []
sort_replicas (r ∷ rs) = insert_replica r (sort_replicas rs)

-- `_ReplicaList.__init__`: the sorted replicas.
unfoldable pub replica_list : ℕ → Text → List StandbyMember → List Row → Option (List Replica)
unfolding collect_replicas
replica_list fuel my_name ms rows =
    let members = eligible_members my_name ms in
    let replication = replication_rows members rows in
    elim (collect_replicas members (should_cascade fuel members replication) (values replication)) [
      | none ↦ none
      | some rs ↦ some (sort_replicas rs)
    ]

greatest_lsn : ℕ → List Replica → ℕ
greatest_lsn n [] = n
greatest_lsn n (r ∷ rs) = greatest_lsn (if ltb n r.lsn then r.lsn else n) rs

-- `max_lsn`; a single replica, or none, is compared with the node's own position.
unfoldable pub max_lsn : ℕ → List Replica → ℕ
unfolding greatest_lsn
max_lsn last_operation [] = last_operation
max_lsn last_operation (r ∷ []) = last_operation
max_lsn last_operation (r ∷ s ∷ rs) = greatest_lsn r.lsn (s ∷ rs)
