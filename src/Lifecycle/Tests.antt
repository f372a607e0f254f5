-- ===== src/Lifecycle/Tests.antt =====
-- Runs of the hooks, and each law of the lifecycle at one of them.
use docker_go_sdk.Common.{ℕ, suc, ◌≡◌, refl, none, some, [], ◌∷◌}
use docker_go_sdk.GoError.{new, join, joined, nil, cons}
use docker_go_sdk.Lifecycle.{
  Hook, LifecycleHooks, no_hooks, combine_container_hooks, apply_container_hooks,
}
use docker_go_sdk.Lifecycle.Apply.{state_after, outcomes, apply_container_hooks_lem}
use docker_go_sdk.Lifecycle.Combine.{ordered, combine_container_hooks-eq-ordered}

abbrev tick : Hook ℕ
tick s = (none, suc s)

abbrev broken : Hook ℕ
broken s = (some (new "broken"), suc s)

abbrev default_hooks : LifecycleHooks ℕ ℕ
default_hooks = record no_hooks { pre_starts = tick ∷ []; post_starts = tick ∷ [] }

abbrev user_hooks : LifecycleHooks ℕ ℕ
user_hooks = record no_hooks { pre_starts = broken ∷ []; post_starts = broken ∷ [] }

combine_test :
    (combine_container_hooks (tick ∷ []) (default_hooks ∷ []) (user_hooks ∷ [])).post_starts
    ≡ broken ∷ tick ∷ []
unfolding combine_container_hooks
combine_test = refl

apply_test :
    apply_container_hooks (broken ∷ tick ∷ []) 0 ≡ (some (joined (cons (new "broken") nil)), 2)
unfolding apply_container_hooks join
apply_test = refl

combine_container_hooks_example :
    combine_container_hooks (tick ∷ []) (default_hooks ∷ []) (user_hooks ∷ [])
    ≡ ordered (default_hooks ∷ []) (user_hooks ∷ []) (tick ∷ [])
combine_container_hooks_example =
    combine_container_hooks-eq-ordered (tick ∷ []) (default_hooks ∷ []) (user_hooks ∷ [])

apply_container_hooks_example :
    apply_container_hooks (broken ∷ tick ∷ []) 0
    ≡ (join (outcomes (broken ∷ tick ∷ []) 0), state_after (broken ∷ tick ∷ []) 0)
apply_container_hooks_example = apply_container_hooks_lem (broken ∷ tick ∷ []) 0
