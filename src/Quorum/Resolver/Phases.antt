-- ===== src/Quorum/Resolver/Phases.antt =====
-- The phases of `QuorumStateResolver` of patroni/quorum.py, and the iteration over them.
use patroni.Base.{
  suc, true, false, not, ◌&&◌, ◌||◌, none, List, [], Text, ℤ, pos, negsuc, ◌+ℤ◌, ◌-ℤ◌, ◌-◌, ltb_ℤ,
  eqb_ℤ, max_ℤ, min_ℤ, null, if◌then◌else◌, take, sorted, reverse, foldl, length,
}
use patroni.Collections.CaseInsensitiveSet.{
  CaseInsensitiveSet, len, eq, lt, init, union, inter, diff, discard,
}
use patroni.Quorum.Run.{M, pure, ◌>>=◌, ◌>>◌, get, when, assert}
use patroni.Quorum.Resolver.Updates.{quorum_update, sync_update}

-- `xs[:n]`
unfoldable pub slice_to : List Text → ℤ → List Text
slice_to xs (pos n) = take n xs
slice_to xs (negsuc n) = take (length xs - suc n) xs

abbrev pub size : CaseInsensitiveSet → ℤ
size s = pos (len s)

-- `a -= b` and `a &= b`
unfoldable pub isub : CaseInsensitiveSet → CaseInsensitiveSet → CaseInsensitiveSet
isub a b = foldl discard a b

unfoldable pub iand : CaseInsensitiveSet → CaseInsensitiveSet → CaseInsensitiveSet
unfolding isub
iand a b = isub a (diff a b)

-- Case 1 of `__handle_non_steady_cases`: `sync` is a proper subset of `voters`.
unfoldable pub grow_sync : M (Unit {0})
grow_sync = do
  s ← get
  let remove_from_voters = diff s.voters (union s.sync s.active)
  when (not (null remove_from_voters)) (
      quorum_update (size s.voters -ℤ size remove_from_voters -ℤ s.numsync)
        (init (diff s.voters remove_from_voters)) none (null (diff s.sync s.active)))
  s ← get
  let add_to_sync = diff (inter s.voters s.active) s.sync
  when (not (null add_to_sync)) (sync_update s.numsync (init (union s.sync add_to_sync)))

-- Case 2: `sync` is a proper superset of `voters`.
unfoldable pub drop_dead_sync : M (Unit {0})
drop_dead_sync = do
  s ← get
  let remove_from_sync = diff s.sync s.active
  let sync = init (diff s.sync remove_from_sync)
  when
      (not (null remove_from_sync)
        && not (null sync)
        && (null s.voters || not (null (inter sync s.voters))))
      (sync_update (min_ℤ s.numsync (size s.sync -ℤ size remove_from_sync)) sync)

unfoldable pub grow_voters : M (Unit {0})
grow_voters = do
  s ← get
  let add_to_voters = inter (diff s.sync s.voters) s.active
  let voters = init (union s.voters add_to_voters)
  when (not (null add_to_voters)) (quorum_update (size voters -ℤ s.numsync) voters none true)

unfoldable pub trim_sync : M (Unit {0})
trim_sync = do
  s ← get
  let remove_from_sync = diff s.sync s.voters
  when (not (null remove_from_sync)) (
      sync_update (min_ℤ s.numsync (size s.sync -ℤ size remove_from_sync))
        (init (diff s.sync remove_from_sync)))

-- Cases 3 and 4: the replication factor or the quorum is bigger than needed.
unfoldable pub reduce_margin : M (Unit {0})
reduce_margin = do
  s ← get
  let nodes = size (union s.voters s.sync)
  if ltb_ℤ (pos 0) (s.quorum +ℤ min_ℤ s.numsync s.numsync_confirmed -ℤ nodes)
      then if ltb_ℤ s.sync_wanted s.numsync
        then sync_update (max_ℤ s.sync_wanted (size s.voters -ℤ s.quorum)) s.sync
        else quorum_update (size s.sync -ℤ s.numsync) s.voters none true
      else when
          (eqb_ℤ s.numsync s.sync_wanted
            && ltb_ℤ (pos 0) (s.quorum +ℤ s.numsync -ℤ nodes)
            && ltb_ℤ s.numsync_confirmed s.numsync)
          (quorum_update (size s.sync -ℤ s.numsync) s.voters none true)

unfoldable pub handle_non_steady_cases : M (Unit {0})
handle_non_steady_cases = do
  s ← get
  if lt s.sync s.voters
      then grow_sync
      else if lt s.voters s.sync
      then (do drop_dead_sync; grow_voters; trim_sync)
      else pure tt
  s ← get
  assert (eq s.voters s.sync)
  reduce_margin

-- The two halves of the second branch of `__remove_gone_nodes`; the first returns `to_remove`.
unfoldable pub remove_by_quorum : CaseInsensitiveSet → M CaseInsensitiveSet
remove_by_quorum to_remove = do
  s ← get
  if eqb_ℤ s.quorum (pos 0) then pure to_remove else do
    let remove = init (slice_to (reverse (sorted to_remove)) s.quorum)
    let sync = init (diff s.sync remove)
    let wanted = if ltb_ℤ s.numsync s.sync_wanted then s.sync_wanted else s.numsync
    sync_update (min_ℤ wanted (size sync)) sync
    s ← get
    let voters = init (diff s.voters remove)
    let to_remove = iand to_remove s.sync
    quorum_update (size voters -ℤ s.numsync) voters none (null to_remove)
    pure to_remove

unfoldable pub remove_by_numsync : CaseInsensitiveSet → M (Unit {0})
remove_by_numsync to_remove = do
  s ← get
  assert (eqb_ℤ s.quorum (pos 0))
  let numsync = s.numsync -ℤ size to_remove
  let sync = init (diff s.sync to_remove)
  let voters = init (diff s.voters to_remove)
  let sync_decrease = numsync -ℤ min_ℤ s.sync_wanted (size sync)
  let quorum =
      if eqb_ℤ sync_decrease (pos 0) then pos 0 else min_ℤ sync_decrease (size voters -ℤ pos 1)
  quorum_update quorum voters none false
  sync_update numsync sync

unfoldable pub remove_gone_nodes : M (Unit {0})
remove_gone_nodes = do
  s ← get
  let to_remove = diff s.sync s.active
  if null to_remove
      then pure tt
      else if eq s.sync to_remove
      then (do quorum_update (pos 0) [] none false; sync_update (pos 0) [])
      else (do rest ← remove_by_quorum to_remove; when (not (null rest)) (remove_by_numsync rest))

-- The two halves of `__add_new_nodes`; the first returns what is left of `to_add`.
unfoldable pub add_up_to_factor : ℤ → CaseInsensitiveSet → M CaseInsensitiveSet
add_up_to_factor sync_wanted to_add = do
  s ← get
  let wanted = sync_wanted -ℤ s.numsync
  if not (ltb_ℤ (pos 0) wanted) then pure to_add else do
    let add = if null s.sync then to_add else init (slice_to (sorted to_add) wanted)
    let increase_numsync_by = if null s.sync then wanted else size add
    sync_update (s.numsync +ℤ increase_numsync_by) (init (union s.sync add))
    s ← get
    let voters = init (union s.voters add)
    quorum_update (size voters -ℤ sync_wanted) voters none true
    s ← get
    pure (isub to_add s.sync)

unfoldable pub add_rest : ℤ → CaseInsensitiveSet → M (Unit {0})
add_rest sync_wanted to_add = do
  s ← get
  let voters = init (union s.voters to_add)
  quorum_update (size voters -ℤ sync_wanted) voters none (ltb_ℤ s.numsync_confirmed sync_wanted)
  s ← get
  sync_update sync_wanted (init (union s.sync to_add))

unfoldable pub add_new_nodes : M (Unit {0})
add_new_nodes = do
  s ← get
  let to_add = diff s.active s.sync
  let sync_wanted = min_ℤ s.sync_wanted (size (union s.sync to_add))
  when (not (null to_add)) do
    rest ← add_up_to_factor sync_wanted to_add
    when (not (null rest)) (add_rest sync_wanted rest)

unfoldable pub handle_replication_factor_change : M (Unit {0})
handle_replication_factor_change = do
  s ← get
  let sync_increase = min_ℤ s.sync_wanted (size s.sync) -ℤ s.numsync
  if ltb_ℤ (pos 0) sync_increase
      then (do
        sync_update (s.numsync +ℤ sync_increase) s.sync
        s ← get
        quorum_update (size s.voters -ℤ s.numsync) s.voters none true)
      else when (ltb_ℤ sync_increase (pos 0)) do
        when (ltb_ℤ (s.quorum -ℤ sync_increase) (size s.voters)) (
            quorum_update (size s.voters -ℤ s.numsync -ℤ sync_increase) s.voters none
              (ltb_ℤ s.numsync_confirmed s.sync_wanted))
        s ← get
        sync_update (s.numsync +ℤ sync_increase) s.sync
