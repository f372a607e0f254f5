-- ===== src/Lifecycle/Apply.antt =====
-- What a list of hooks does, apart from the loops that apply it.
use docker_go_sdk.Common.{
  String, ◌≡◌, refl, ap, ◌↔◌, Option, none, some, List, [], ◌∷◌, ◌++◌, append-nil, All,
}
use docker_go_sdk.GoError.{Error, cons, wrapped, present, join}
use docker_go_sdk.GoError.Laws.{IsNone, join-eq-none_iff}
use docker_go_sdk.Lifecycle.{
  Hook, LifecycleHooks, append_error, and_then, apply_lifecycle_hooks, apply_lifecycle_hooks_from,
  apply_container_hooks, apply_container_hooks_from, apply_definition_hooks,
}

module _ {S : Type 0} where
  -- The state after the hooks have run one after the other.
  abbrev pub state_after : List (Hook S) → S → S
  state_after [] s = s
  state_after (hook ∷ hooks) s = state_after hooks (hook s).1

  -- What each hook returns, in the state that those before it leave.
  abbrev pub outcomes : List (Hook S) → S → List (Option Error)
  outcomes [] s = []
  outcomes (hook ∷ hooks) s = (hook s).0 ∷ outcomes hooks (hook s).1

present-append_error :
    (errs : List (Option Error)) (e : Option Error) (rest : List (Option Error))
    → present (append_error errs e ++ rest) ≡ present (errs ++ e ∷ rest)
unfolding present
present-append_error [] none rest = refl
present-append_error [] (some e) rest = refl
present-append_error (none ∷ errs) none rest = present-append_error errs none rest
present-append_error (none ∷ errs) (some x) rest = present-append_error errs (some x) rest
present-append_error (some y ∷ errs) none rest = ap (cons y) (present-append_error errs none rest)
present-append_error (some y ∷ errs) (some x) rest =
    ap (cons y) (present-append_error errs (some x) rest)

join-append_error :
    (errs : List (Option Error)) (e : Option Error) (rest : List (Option Error))
    → join (append_error errs e ++ rest) ≡ join (errs ++ e ∷ rest)
unfolding join
join-append_error errs e rest = rw (present-append_error errs e rest)

module _ {S : Type 0} where
  apply_from_lem :
      (errs : List (Option Error)) (hooks : List (Hook S)) (s : S)
      → apply_container_hooks_from errs hooks s
        ≡ (join (errs ++ outcomes hooks s), state_after hooks s)
  unfolding apply_container_hooks_from
  apply_from_lem errs [] s = rw (append-nil errs)
  apply_from_lem errs (hook ∷ hooks) s = rw (
    apply_from_lem (append_error errs (hook s).0) hooks (hook s).1,
    join-append_error errs (hook s).0 (outcomes hooks (hook s).1),
  )

  -- Every container hook runs, in order, also after one has failed, and the errors are joined.
  pub apply_container_hooks_lem :
      (hooks : List (Hook S)) (s : S)
      → apply_container_hooks hooks s ≡ (join (outcomes hooks s), state_after hooks s)
  unfolding apply_container_hooks
  apply_container_hooks_lem hooks s = apply_from_lem [] hooks s

  -- The container hooks of a phase succeed exactly when each of them does.
  pub apply_container_hooks-eq-none_iff :
      (hooks : List (Hook S)) (s : S)
      → ((apply_container_hooks hooks s).0 ≡ none) ↔ All IsNone (outcomes hooks s)
  apply_container_hooks-eq-none_iff hooks s =
      rw (apply_container_hooks_lem hooks s) (join-eq-none_iff (outcomes hooks s))

  -- Where every definition hook succeeds, all of them run.
  pub apply_definition_hooks_succeed :
      (hooks : List (Hook S)) (s : S)
      → All IsNone (outcomes hooks s)
      → apply_definition_hooks hooks s ≡ (none, state_after hooks s)
  unfolding apply_definition_hooks
  apply_definition_hooks_succeed [] s h = refl
  apply_definition_hooks_succeed (hook ∷ hooks) s (okay, h) =
      rw okay (apply_definition_hooks_succeed hooks (hook s).1 h)

  and_then_inv :
      (text : String) (first : Option Error × S) (rest : Hook S) (s : S)
      → and_then (wrapped text first.0, first.1) rest ≡ (none, s)
      → rest first.1 ≡ (none, s)
  and_then_inv text (none, s0) rest s h = h
  and_then_inv text (some e, s0) rest s h = absurd (cc h)

  -- Where the definition hooks report no error, all of them have run.
  pub apply_definition_hooks_inv :
      (hooks : List (Hook S)) (s s' : S)
      → apply_definition_hooks hooks s ≡ (none, s')
      → state_after hooks s ≡ s'
  unfolding apply_definition_hooks
  apply_definition_hooks_inv [] s s' h = cc h
  apply_definition_hooks_inv (hook ∷ hooks) s s' h =
      apply_definition_hooks_inv hooks (hook s).1 s'
        (and_then_inv "apply definition hook: " (hook s) (apply_definition_hooks hooks) s' h)

  and_then-IsNone :
      (text : String) (first : Option Error × S) (rest : Hook S) (s : S)
      → and_then (wrapped text first.0, first.1) rest ≡ (none, s)
      → first.0 ≡ none
  and_then-IsNone text (none, s0) rest s h = refl
  and_then-IsNone text (some e, s0) rest s h = absurd (cc h)

  -- And each of them has returned no error, in the state that those before it leave.
  pub apply_definition_hooks-IsNone :
      (hooks : List (Hook S)) (s s' : S)
      → apply_definition_hooks hooks s ≡ (none, s')
      → All IsNone (outcomes hooks s)
  unfolding apply_definition_hooks
  apply_definition_hooks-IsNone [] s s' h = tt
  apply_definition_hooks-IsNone (hook ∷ hooks) s s' h =
      let text : String = "apply definition hook: " in
      (
        and_then-IsNone text (hook s) (apply_definition_hooks hooks) s' h,
        apply_definition_hooks-IsNone hooks (hook s).1 s'
            (and_then_inv text (hook s) (apply_definition_hooks hooks) s' h),
      )

abbrev joined_pair : {T : Type 0} → Option Error × T → Option Error × T
joined_pair (e, t) = (join (append_error [] e), t)

joined_inv : {T : Type 0} (r : Option Error × T) (t : T) → joined_pair r ≡ (none, t) → r ≡ (none, t)
unfolding join present
joined_inv (none, s) t h = h
joined_inv (some e, s) t h = absurd (cc h)

-- The phase of a single value of hooks reports no error only if its hooks do not.
pub apply_lifecycle_hooks_single :
    {D S T : Type 0} (hook : LifecycleHooks D S → Hook T) (hooks : LifecycleHooks D S) (t t' : T)
    → apply_lifecycle_hooks hook (hooks ∷ []) t ≡ (none, t')
    → hook hooks t ≡ (none, t')
unfolding apply_lifecycle_hooks apply_lifecycle_hooks_from
apply_lifecycle_hooks_single hook hooks t t' h = joined_inv (hook hooks t) t' h
