-- ===== src/Lifecycle/Keeps.antt =====
-- What every hook of a phase leaves alone, the phase leaves alone.
use docker_go_sdk.Common.{◌≡◌, refl, ◌∙◌, Option, none, some, List, [], ◌∷◌, All}
use docker_go_sdk.GoError.{Error}
use docker_go_sdk.Lifecycle.{
  Hook, LifecycleHooks, append_error, apply_container_hooks, apply_container_hooks_from,
  apply_lifecycle_hooks, apply_lifecycle_hooks_from, apply_lifecycle_hooks_logged, print_on_error,
}

-- The hook does not change what `view` reads.
abbrev pub Keeps {ℓ} : {S : Type 0} {A : Type ℓ} → (S → A) → Hook S → Type ℓ
Keeps {S} view hook = (s : S) → view (hook s).1 ≡ view s

module _ {ℓ} {S : Type 0} {A : Type ℓ} (view : S → A) where
  print_on_error-view :
      (print_logs : S → S)
      → ((s : S) → view (print_logs s) ≡ view s)
      → (r : Option Error × S) → view (print_on_error print_logs r).1 ≡ view r.1
  print_on_error-view print_logs quiet (none, s) = refl
  print_on_error-view print_logs quiet (some e, s) = quiet s

  from-Keeps :
      (errs : List (Option Error)) (hooks : List (Hook S))
      → All (Keeps view) hooks
      → Keeps view (apply_container_hooks_from errs hooks)
  unfolding apply_container_hooks_from
  from-Keeps errs [] h s = refl
  from-Keeps errs (hook ∷ hooks) (k, h) s =
      from-Keeps (append_error errs (hook s).0) hooks h (hook s).1 ∙ k s

  pub apply_container_hooks-Keeps :
      (hooks : List (Hook S)) → All (Keeps view) hooks → Keeps view (apply_container_hooks hooks)
  unfolding apply_container_hooks
  apply_container_hooks-Keeps hooks h = from-Keeps [] hooks h

  module _ {D T : Type 0} (hook : LifecycleHooks D T → Hook S) where
    lifecycle_from-Keeps :
        (errs : List (Option Error)) (all : List (LifecycleHooks D T))
        → All (λ hooks. Keeps view (hook hooks)) all
        → Keeps view (apply_lifecycle_hooks_from hook errs all)
    unfolding apply_lifecycle_hooks_from
    lifecycle_from-Keeps errs [] h s = refl
    lifecycle_from-Keeps errs (hooks ∷ all) (k, h) s =
        lifecycle_from-Keeps (append_error errs (hook hooks s).0) all h (hook hooks s).1 ∙ k s

    pub apply_lifecycle_hooks-Keeps :
        (all : List (LifecycleHooks D T))
        → All (λ hooks. Keeps view (hook hooks)) all
        → Keeps view (apply_lifecycle_hooks hook all)
    unfolding apply_lifecycle_hooks
    apply_lifecycle_hooks-Keeps all h = lifecycle_from-Keeps [] all h

    pub apply_lifecycle_hooks_logged-Keeps :
        (print_logs : S → S) (all : List (LifecycleHooks D T))
        → ((s : S) → view (print_logs s) ≡ view s)
        → All (λ hooks. Keeps view (hook hooks)) all
        → Keeps view (apply_lifecycle_hooks_logged hook print_logs all)
    unfolding apply_lifecycle_hooks_logged
    apply_lifecycle_hooks_logged-Keeps print_logs all quiet h s =
        print_on_error-view print_logs quiet (apply_lifecycle_hooks hook all s)
        ∙ apply_lifecycle_hooks-Keeps all h s
