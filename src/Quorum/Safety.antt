-- ===== src/Quorum/Safety.antt =====
-- What an observer of `/sync` and `synchronous_standby_names` sees while the transitions are made.
pub mod Phases
pub mod Merge
use patroni.Base.{
  ◌≡◌, refl, sym, ◌∙◌, ap, Bool, true, false, List, [], ◌∷◌, ◌++◌, Text, if◌then◌else◌, arith,
  Option, ℤ, text_eq_iff, ltb_ℤ, pos,
}
use patroni.Collections.CaseInsensitiveSet.{CaseInsensitiveSet}
use patroni.Quorum.State.{
  Error, negative_quorum, quorum_too_big, Result, ok, err, sync_transition, quorum_transition,
  restart_transition, TransitionType, Transition, Published, Resolver, check_invariants,
}
use patroni.Quorum.Run.{M, pure, raise, get, continue, ◌>>=◌}
use patroni.Quorum.Resolver.Updates.{quorum_update, sync_update, publish_quorum, adjust}

abbrev pub apply_as : TransitionType → Transition → Published → Published
apply_as sync_transition t p = record p { numsync = t.num; sync = t.names }
apply_as quorum_transition t p = record p { leader = t.leader; quorum = t.num; voters = t.names }
apply_as restart_transition t p = p

-- The caller makes one transition.
abbrev pub apply : Published → Transition → Published
apply p t = apply_as t.transition_type t p

abbrev pub replay : Published → List Transition → Published
replay p [] = p
replay p (t ∷ ts) = replay (apply p t) ts

abbrev pub CheckedAs : TransitionType → Text → Published → Type 0
CheckedAs restart_transition wanted p = Unit {0}
CheckedAs _ wanted p = check_invariants wanted p ≡ ok tt

-- After each transition but `restart`, what is published passes `check_invariants`.
abbrev pub AllChecked : Text → Published → List Transition → Type 0
AllChecked wanted p [] = Unit {0}
AllChecked wanted p (t ∷ ts) =
    CheckedAs t.transition_type wanted (apply p t) × AllChecked wanted (apply p t) ts

pub replay-append :
    (ts us : List Transition) (p : Published) → replay p (ts ++ us) ≡ replay (replay p ts) us
replay-append [] us p = refl
replay-append (t ∷ ts) us p = replay-append ts us (apply p t)

pub AllChecked-append :
    (ts us : List Transition) (w : Text) (p : Published)
    → AllChecked w p ts
    → AllChecked w (replay p ts) us
    → AllChecked w p (ts ++ us)
AllChecked-append [] us w p a b = b
AllChecked-append (t ∷ ts) us w p a b = (a.0, AllChecked-append ts us w (apply p t) a.1 b)

-- The resolver's fields are what its transitions, made one by one, publish, and each is checked.
pub record Follows {A : Type 0} (s : Resolver) (r : Result A) (s' : Resolver)
    (out : List Transition) : Type 0 where
  pub wanted : s'.leader_wanted ≡ s.leader_wanted
  pub checked : AllChecked s.leader_wanted s.state out
  pub published : (a : A) → r ≡ ok a → replay s.state out ≡ s'.state

pub record IsSound {A : Type 0} (m : M A) : Type 0 where
  pub at : (s : Resolver) → Follows s (m s).0 (m s).1 (m s).2

module _ {A : Type 0} where
  pub IsSound-pure : (a : A) → IsSound (pure a)
  unfolding pure
  IsSound-pure a = record {
    at = λ s. record { wanted = refl; checked = tt; published = λ _ _. refl };
  }

  pub IsSound-raise : (e : Error) → IsSound (raise {A = A} e)
  unfolding raise
  IsSound-raise e = record {
    at = λ s. record { wanted = refl; checked = tt; published = λ _ _. refl };
  }

  pub IsSound-if : (b : Bool) (m n : M A) → IsSound m → IsSound n → IsSound (if b then m else n)
  IsSound-if true m n hm hn = hm
  IsSound-if false m n hm hn = hn

pub IsSound-get : IsSound get
unfolding get
IsSound-get = record { at = λ s. record { wanted = refl; checked = tt; published = λ _ _. refl } }

module _ {A B : Type 0} where
  pub continue-Follows :
      (s : Resolver) (r : Result A) (s' : Resolver) (out : List Transition) (f : A → M B)
      → Follows s r s' out
      → ((a : A) → IsSound (f a))
      → let q = continue r s' out f in Follows s q.0 q.1 q.2
  continue-Follows s (err e) s' out f h k = record {
    wanted = h.wanted;
    checked = h.checked;
    published = λ b p. cc;
  }
  continue-Follows s (ok a) s' out f h k =
      let g = (k a).at s' in
      let e = h.published a refl in
      record {
        wanted = g.wanted ∙ h.wanted;
        checked =
            AllChecked-append out (f a s').2 s.leader_wanted s.state h.checked
              (rw (e, ← h.wanted) g.checked);
        published = λ b p. replay-append out (f a s').2 s.state ∙ rw e (g.published b p);
      }

  pub IsSound-bind :
      (m : M A) (f : A → M B) → IsSound m → ((a : A) → IsSound (f a)) → IsSound (m >>= f)
  unfolding ◌>>=◌
  IsSound-bind m f hm hf = record {
    at = λ s. continue-Follows s (m s).0 (m s).1 (m s).2 f (hm.at s) hf;
  }

publish_quorum-IsSound :
    (leader : Text) (quorum : ℤ) (voters : CaseInsensitiveSet)
    → IsSound (publish_quorum (leader, quorum, voters))
unfolding publish_quorum
publish_quorum-IsSound leader quorum voters = record {
  at = λ s. record {
    wanted = ground arith;
    checked = ground arith;
    published = λ a h. ground (arith, text_eq_iff leader s.leader);
  };
}

abbrev pub FollowsRun : {A : Type 0} → Resolver → Result A × Resolver × List Transition → Type 0
FollowsRun s r = Follows s r.0 r.1 r.2

FollowsRun-if :
    {A : Type 0} (b : Bool) (s : Resolver) (q r : Result A × Resolver × List Transition)
    → FollowsRun s q
    → FollowsRun s r
    → FollowsRun s (if b then q else r)
FollowsRun-if true s q r hq hr = hq
FollowsRun-if false s q r hq hr = hr

pub quorum_update-IsSound :
    (quorum : ℤ) (voters : CaseInsensitiveSet) (leader : Option Text) (adjust_quorum : Bool)
    → IsSound (quorum_update quorum voters leader adjust_quorum)
unfolding quorum_update
quorum_update-IsSound quorum voters leader adjust_quorum = record {
  at = λ s.
      let p = adjust s quorum voters leader adjust_quorum in
      FollowsRun-if _ s _ _ ((IsSound-raise negative_quorum).at s) (
        FollowsRun-if _ s _ _ ((IsSound-raise quorum_too_big).at s)
          ((publish_quorum-IsSound p.0 p.1 p.2).at s));
}

pub sync_update-IsSound :
    (numsync : ℤ) (sync : CaseInsensitiveSet) → IsSound (sync_update numsync sync)
unfolding sync_update raise
sync_update-IsSound numsync sync = record {
  at = λ s. record {
    wanted = ground arith;
    checked = ground arith;
    published = λ a h. ground arith;
  };
}

pub ruleset sound_rules = (
  IsSound-pure, IsSound-raise, IsSound-get, IsSound-if, IsSound-bind, quorum_update-IsSound,
  sync_update-IsSound,
)
