-- ===== src/Quorum/State.antt =====
-- The data of patroni/quorum.py: what is published, the resolver's fields, the transitions.
use patroni.Base.{
  not, ◌&&◌, ◌||◌, List, [], ◌∷◌, Text, ℤ, pos, ◌+ℤ◌, leb_ℤ, min_ℤ, null, length, if◌then◌else◌,
}
use patroni.Collections.CaseInsensitiveSet.{CaseInsensitiveSet, len, init, union, issubset}

-- The messages of `QuorumError`, and the `AssertionError` of an `assert`.
pub data Error : Type 0 where
  negative_quorum quorum_too_big negative_sync sync_too_big no_overlap mismatched_sets : Error
  assertion_error : Error

pub data Result {ℓ} (A : Type ℓ) : Type ℓ where
  ok : A → Result A
  err : Error → Result A

pub data TransitionType : Type 0 where
  sync_transition quorum_transition restart_transition : TransitionType

pub record Transition : Type 0 where
  pub transition_type : TransitionType
  pub leader : Text
  pub num : ℤ
  pub names : CaseInsensitiveSet

-- The `/sync` key and `synchronous_standby_names`.
pub record Published : Type 0 where
  pub leader : Text
  pub quorum : ℤ
  pub voters : CaseInsensitiveSet
  pub numsync : ℤ
  pub sync : CaseInsensitiveSet

pub record Resolver : Type 0 where
  pub state : Published
  pub open state use *
  pub numsync_confirmed : ℤ
  pub active : CaseInsensitiveSet
  pub sync_wanted : ℤ
  pub leader_wanted : Text

-- `__init__`
unfoldable pub init_resolver :
    Text → ℤ → List Text → ℤ → List Text → ℤ → List Text → ℤ → Text → Resolver
init_resolver leader quorum voters numsync sync numsync_confirmed active sync_wanted leader_wanted =
    record {
      state = record {
        leader = leader;
        quorum = quorum;
        voters = init voters;
        numsync = min_ℤ numsync (pos (length sync));
        sync = init sync;
      };
      numsync_confirmed = numsync_confirmed;
      active = init active;
      sync_wanted = sync_wanted;
      leader_wanted = leader_wanted;
    }

-- `CaseInsensitiveSet(a | CaseInsensitiveSet([name]))`
abbrev pub with_name : CaseInsensitiveSet → Text → CaseInsensitiveSet
with_name a name = init (union a (init (name ∷ [])))

-- `check_invariants`, on what is published and the wanted leader.
unfoldable pub check_invariants : Text → Published → Result (Unit {0})
check_invariants leader_wanted p =
    let voters = with_name p.voters p.leader in
    let sync = with_name p.sync leader_wanted in
    if not (null p.voters)
      && not (leb_ℤ (pos (len (union voters sync))) (p.quorum +ℤ p.numsync +ℤ pos 1))
    then err no_overlap
    else if not (issubset voters sync || issubset sync voters)
    then err mismatched_sets
    else ok tt
