-- ===== src/Lifecycle.antt =====
-- container/lifecycle.go: the lifecycle hooks, how they are combined and how they are applied.
-- A hook is a Go function over what it may change, a state of type `S` (`D` for the hooks that
-- receive the definition), and returns an `error`. The context argument is not modelled.
pub mod Combine
pub mod Apply
pub mod Keeps
mod Tests
use docker_go_sdk.Common.{String, Option, none, some, List, [], ◌∷◌, ◌++◌}
use docker_go_sdk.GoError.{Error, wrapped, join}
use mathlib.Core.List.{foldl}

abbrev pub Hook : Type 0 → Type 0
Hook S = S → Option Error × S

pub record LifecycleHooks (D S : Type 0) : Type 0 where
  pub pre_creates : List (Hook D)
  pub post_creates : List (Hook S)
  pub pre_starts : List (Hook S)
  pub post_starts : List (Hook S)
  pub post_readies : List (Hook S)
  pub pre_stops : List (Hook S)
  pub post_stops : List (Hook S)
  pub pre_terminates : List (Hook S)
  pub post_terminates : List (Hook S)

module _ {D S : Type 0} where
  abbrev pub no_hooks : LifecycleHooks D S
  no_hooks = record {
    pre_creates = [];
    post_creates = [];
    pre_starts = [];
    post_starts = [];
    post_readies = [];
    pre_stops = [];
    post_stops = [];
    pre_terminates = [];
    post_terminates = [];
  }

  -- The body of the first loop of `combineContainerHooks`: the fields whose name begins with
  -- "Pre".
  append_pre : LifecycleHooks D S → LifecycleHooks D S → LifecycleHooks D S
  append_pre hooks added = record hooks {
    pre_creates = hooks.pre_creates ++ added.pre_creates;
    pre_starts = hooks.pre_starts ++ added.pre_starts;
    pre_stops = hooks.pre_stops ++ added.pre_stops;
    pre_terminates = hooks.pre_terminates ++ added.pre_terminates;
  }

  -- The body of the last loop: the fields whose name begins with "Post".
  append_post : LifecycleHooks D S → LifecycleHooks D S → LifecycleHooks D S
  append_post hooks added = record hooks {
    post_creates = hooks.post_creates ++ added.post_creates;
    post_starts = hooks.post_starts ++ added.post_starts;
    post_readies = hooks.post_readies ++ added.post_readies;
    post_stops = hooks.post_stops ++ added.post_stops;
    post_terminates = hooks.post_terminates ++ added.post_terminates;
  }

  -- The body of the second loop: every field.
  append_all : LifecycleHooks D S → LifecycleHooks D S → LifecycleHooks D S
  unfolding append_pre append_post
  append_all hooks added = append_post (append_pre hooks added) added

  -- The first argument is the package variable `defaultPullHook`.
  unfoldable pub combine_container_hooks :
      List (Hook D) → List (LifecycleHooks D S) → List (LifecycleHooks D S) → LifecycleHooks D S
  unfolding append_pre append_all append_post
  combine_container_hooks pull_hook default_hooks user_hooks =
      let hooks = foldl append_pre no_hooks default_hooks in
      let hooks' = foldl append_all hooks user_hooks in
      let hooks'' = foldl append_post hooks' default_hooks in
      record hooks'' { pre_creates = hooks''.pre_creates ++ pull_hook }

-- `if err != nil { errs = append(errs, err) }`
abbrev pub append_error : List (Option Error) → Option Error → List (Option Error)
append_error errs none = errs
append_error errs (some e) = errs ++ some e ∷ []

module _ {S : Type 0} where
  -- The loop of `applyContainerHooks`: every hook runs, whatever the others return.
  apply_container_hooks_from : List (Option Error) → List (Hook S) → Hook S
  apply_container_hooks_from errs [] s = (join errs, s)
  apply_container_hooks_from errs (hook ∷ hooks) s =
      let (e, s') = hook s in apply_container_hooks_from (append_error errs e) hooks s'

  unfoldable pub apply_container_hooks : List (Hook S) → Hook S
  unfolding apply_container_hooks_from
  apply_container_hooks hooks = apply_container_hooks_from [] hooks

  -- Go on with the rest where there is no error, and return the error otherwise.
  abbrev pub and_then : Option Error × S → Hook S → Option Error × S
  and_then (none, s) rest = rest s
  and_then (some e, s) rest = (some e, s)

  -- The first error ends the loop.
  unfoldable pub apply_definition_hooks : List (Hook S) → Hook S
  apply_definition_hooks [] s = (none, s)
  apply_definition_hooks (hook ∷ hooks) s =
      let (e, s') = hook s in
      and_then (wrapped "apply definition hook: " e, s') (apply_definition_hooks hooks)

abbrev print_on_error : {T : Type 0} → (T → T) → Option Error × T → Option Error × T
print_on_error print_logs (none, s) = (none, s)
print_on_error print_logs (some e, s) = (some e, print_logs s)

module _ {D S T : Type 0} (hook : LifecycleHooks D S → Hook T) where
  -- The loop of both `applyLifecycleHooks`.
  apply_lifecycle_hooks_from : List (Option Error) → List (LifecycleHooks D S) → Hook T
  apply_lifecycle_hooks_from errs [] s = (join errs, s)
  apply_lifecycle_hooks_from errs (hooks ∷ rest) s =
      let (e, s') = hook hooks s in apply_lifecycle_hooks_from (append_error errs e) rest s'

  -- `(def *Definition) applyLifecycleHooks`; a nil slice and an empty one behave alike.
  unfoldable pub apply_lifecycle_hooks : List (LifecycleHooks D S) → Hook T
  unfolding apply_lifecycle_hooks_from
  apply_lifecycle_hooks all = apply_lifecycle_hooks_from [] all

  -- `(c *Container) applyLifecycleHooks` with `logError`: the container's logs are printed on an
  -- error.
  unfoldable pub apply_lifecycle_hooks_logged : (T → T) → List (LifecycleHooks D S) → Hook T
  unfolding apply_lifecycle_hooks
  apply_lifecycle_hooks_logged print_logs all s =
      print_on_error print_logs (apply_lifecycle_hooks all s)
