-- ===== src/Ha/Replication.antt =====
-- `_process_multisync_replication` of patroni/ha.py, with `_maybe_enable_synchronous_mode`,
-- `_handle_synchronous_strict_mode` and the DCS's `write_sync_state`: how the leader changes `/sync` and
-- `synchronous_standby_names`, in which order.
pub mod Order
mod Examples
use patroni.Base.{
  ℕ, Bool, true, false, not, ◌&&◌, ◌||◌, Option, none, some, List, [], ◌∷◌, ◌++◌, Text, ℤ, pos,
  ltb_ℤ, eqb_ℤ, max_ℤ, ◌-ℤ◌, null, ◌==◌, if◌then◌else◌,
}
use patroni.Collections.CaseInsensitiveSet.{CaseInsensitiveSet, len, init, eq, inter}
use patroni.Dcs.SyncState
use patroni.Dcs.SyncState.{SyncState, is_empty, from_node, sync_state}
use patroni.Sync.Names.{SyncType}
use patroni.Sync.Handler.{CurrentState}
use patroni.Ha.State.{Ha, quorum_commit_mode_is_active}
use patroni.Ha.Race.{opt_eq}

-- What is changed: the `/sync` key, or `synchronous_standby_names`, the latter to names and a number.
pub data Change : Type 0 where
  wrote : SyncState → Change
  set_names : CaseInsensitiveSet → Option ℤ → Change

-- The calls of `write_sync_state`.
pub data KeyWrite : Type 0 where
  enable take_over correct shrink assign : KeyWrite

-- The version under which the DCS writes the key; `none` where it does not write it.
abbrev pub Dcs : Type 0
Dcs = KeyWrite → Option (Option ℕ)

unfoldable pub write_sync_state : Dcs → KeyWrite → Text → Option (List Text) → Option SyncState
write_sync_state dcs call leader names = elim (dcs call) [
  | none ↦ none
  | some version ↦ some (from_node version (some (sync_state (some leader) names (some (pos 0)))))
]

-- `if not sync: return`
unfoldable pub written : Option SyncState → (SyncState → List Change) → List Change
written none k = []
written (some sync) k = wrote sync ∷ k sync

-- `_maybe_enable_synchronous_mode`
unfoldable pub maybe_enable : Dcs → Ha → (SyncState → List Change) → List Change
maybe_enable dcs ha k =
    let sync = ha.cluster.sync in
    if is_empty sync then written (write_sync_state dcs enable ha.name none) k else k sync

-- The key has the name of another leader.
unfoldable pub claim :
    Dcs → Ha → SyncState → (SyncState → CaseInsensitiveSet → List Change) → List Change
claim dcs ha sync k =
    if not (opt_eq (some ha.name) sync.leader)
    then written (write_sync_state dcs take_over ha.name none) (λ s. k s [])
    else k sync (init (SyncState.voters sync))

-- The key does not name the nodes that are known to be synchronous.
unfoldable pub amend :
    Dcs
    → Ha
    → CurrentState
    → SyncState
    → CaseInsensitiveSet
    → (SyncState → CaseInsensitiveSet → List Change)
    → List Change
amend dcs ha state sync voters k =
    if eq state.active voters && not (eq voters state.sync_confirmed)
    then written (write_sync_state dcs correct ha.name (some state.sync_confirmed))
        (λ s. k s (init (SyncState.voters s)))
    else k sync voters

unfoldable pub is_sync_type : SyncType → SyncType → Bool
is_sync_type SyncType.priority SyncType.priority = true
is_sync_type SyncType.quorum SyncType.quorum = true
is_sync_type SyncType.off SyncType.off = true
is_sync_type _ _ = false

-- `_handle_synchronous_strict_mode`: what is set, and whether the strict mode is active.
unfoldable pub handle_synchronous_strict_mode : Ha → SyncState → CurrentState → List Change × Bool
handle_synchronous_strict_mode ha dcs_state state =
    let active = quorum_commit_mode_is_active ha in
    let quorum = if active then dcs_state.quorum else pos 0 in
    let voters = init (SyncState.voters dcs_state) in
    let numsync = max_ℤ ha.min_synchronous_nodes (pos (len voters) -ℤ quorum) in
    if ltb_ℤ (pos (len state.active)) ha.min_synchronous_nodes
    then (
      if not (eq voters state.sync)
            || not (eqb_ℤ numsync (pos state.numsync))
            || not (
                is_sync_type (if active then SyncType.quorum else SyncType.priority)
                  state.sync_type)
          then set_names voters (some numsync) ∷ []
          else [],
      true,
    )
    else (
      if eqb_ℤ ha.min_synchronous_nodes (pos 0)
            && null state.active
            && null (SyncState.voters dcs_state)
            && (not (null state.sync) || not (state.numsync == 0))
          then set_names [] none ∷ []
          else [],
      false,
    )

-- After `synchronous_standby_names` is set; `later` is the state that is read then.
unfoldable pub assign_synchronous :
    Dcs → Ha → CurrentState → CurrentState → CaseInsensitiveSet → List Change
assign_synchronous dcs ha state later sync_common =
    let allow_promote =
      if not (null state.active) && not (eq state.sync_confirmed state.active)
      then later.sync_confirmed
      else state.sync_confirmed in
    if not (null allow_promote) && not (eq allow_promote sync_common)
    then written (write_sync_state dcs assign ha.name (some allow_promote)) (λ s. [])
    else []

unfoldable pub change_names :
    Dcs → Ha → CurrentState → CurrentState → CaseInsensitiveSet → List Change
change_names dcs ha state later sync_common =
    set_names state.active none ∷ assign_synchronous dcs ha state later sync_common

-- The key is reduced to the nodes that stay, before `synchronous_standby_names` is changed.
unfoldable pub move : Dcs → Ha → CurrentState → CurrentState → CaseInsensitiveSet → List Change
move dcs ha state later voters =
    let sync_common = inter voters state.sync_confirmed in
    if not (eq sync_common voters)
    then written (write_sync_state dcs shrink ha.name (some sync_common))
        (λ s. change_names dcs ha state later sync_common)
    else change_names dcs ha state later sync_common

unfoldable pub settle : Dcs → Ha → CurrentState → CurrentState → CaseInsensitiveSet → List Change
settle dcs ha state later voters =
    if eq state.active voters && eq voters state.sync && state.numsync == len state.active
    then if not (is_sync_type state.sync_type SyncType.priority)
      then set_names state.active none ∷ []
      else []
    else move dcs ha state later voters

unfoldable pub unless_strict : List Change × Bool → List Change → List Change
unless_strict (changes, strict) rest = changes ++ (if strict then [] else rest)

unfoldable pub process_multisync_replication : Dcs → Ha → CurrentState → CurrentState → List Change
process_multisync_replication dcs ha state later = maybe_enable dcs ha λ enabled.
    claim dcs ha enabled λ claimed voters. amend dcs ha state claimed voters λ sync voters'.
      unless_strict (handle_synchronous_strict_mode ha sync state)
        (settle dcs ha state later voters')
