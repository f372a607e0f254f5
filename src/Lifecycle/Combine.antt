-- ===== src/Lifecycle/Combine.antt =====
-- The order in which `combineContainerHooks` puts the hooks.
use mathlib.Core.List.{foldl}
use docker_go_sdk.Common.{◌≡◌, refl, sym, ◌∙◌, List, [], ◌∷◌, ◌++◌, append_assoc, append-nil}
use docker_go_sdk.Lifecycle.{
  Hook, LifecycleHooks, no_hooks, append_pre, append_all, append_post, combine_container_hooks,
}

-- The hooks of one field, over all the values, in order.
abbrev pub gather {ℓ κ} : {A : Type ℓ} {B : Type κ} → (A → List B) → List A → List B
gather field [] = []
gather field (x ∷ xs) = field x ++ gather field xs

module _ {D S B : Type 0} (field : LifecycleHooks D S → List B)
    (append : LifecycleHooks D S → LifecycleHooks D S → LifecycleHooks D S) where
  foldl-gather :
      ((h a : LifecycleHooks D S) → field (append h a) ≡ field h ++ field a)
      → (h : LifecycleHooks D S) (all : List (LifecycleHooks D S))
      → field (foldl append h all) ≡ field h ++ gather field all
  foldl-gather step h [] = sym (append-nil (field h))
  foldl-gather step h (a ∷ all) =
      rw (foldl-gather step (append h a) all, step h a)
        (append_assoc (field h) (field a) (gather field all))

  foldl-keeps :
      ((h a : LifecycleHooks D S) → field (append h a) ≡ field h)
      → (h : LifecycleHooks D S) (all : List (LifecycleHooks D S))
      → field (foldl append h all) ≡ field h
  foldl-keeps step h [] = refl
  foldl-keeps step h (a ∷ all) = foldl-keeps step (append h a) all ∙ step h a

module _ {D S B : Type 0} (field : LifecycleHooks D S → List B) (empty : field no_hooks ≡ []) where
  -- A field that the first two loops fill.
  pre_field :
      ((h a : LifecycleHooks D S) → field (append_pre h a) ≡ field h ++ field a)
      → ((h a : LifecycleHooks D S) → field (append_all h a) ≡ field h ++ field a)
      → ((h a : LifecycleHooks D S) → field (append_post h a) ≡ field h)
      → (ds us : List (LifecycleHooks D S))
      → field (foldl append_post (foldl append_all (foldl append_pre no_hooks ds) us) ds)
        ≡ gather field ds ++ gather field us
  pre_field pre all post ds us = rw (
    foldl-keeps field append_post post (foldl append_all (foldl append_pre no_hooks ds) us) ds,
    foldl-gather field append_all all (foldl append_pre no_hooks ds) us,
    foldl-gather field append_pre pre no_hooks ds,
    empty,
  )

  -- A field that the last two loops fill.
  post_field :
      ((h a : LifecycleHooks D S) → field (append_pre h a) ≡ field h)
      → ((h a : LifecycleHooks D S) → field (append_all h a) ≡ field h ++ field a)
      → ((h a : LifecycleHooks D S) → field (append_post h a) ≡ field h ++ field a)
      → (ds us : List (LifecycleHooks D S))
      → field (foldl append_post (foldl append_all (foldl append_pre no_hooks ds) us) ds)
        ≡ gather field us ++ gather field ds
  post_field pre all post ds us = rw (
    foldl-gather field append_post post (foldl append_all (foldl append_pre no_hooks ds) us) ds,
    foldl-gather field append_all all (foldl append_pre no_hooks ds) us,
    foldl-keeps field append_pre pre no_hooks ds,
    empty,
  )

-- The combined hooks as the source describes them, one phase at a time.
module _ {D S : Type 0} (ds us : List (LifecycleHooks D S)) where
  abbrev pub default_first : {B : Type 0} → (LifecycleHooks D S → List B) → List B
  default_first field = gather field ds ++ gather field us

  abbrev pub user_first : {B : Type 0} → (LifecycleHooks D S → List B) → List B
  user_first field = gather field us ++ gather field ds

  abbrev pub ordered : List (Hook D) → LifecycleHooks D S
  ordered pull_hook = record {
    pre_creates = default_first (λ h. h.pre_creates) ++ pull_hook;
    post_creates = user_first (λ h. h.post_creates);
    pre_starts = default_first (λ h. h.pre_starts);
    post_starts = user_first (λ h. h.post_starts);
    post_readies = user_first (λ h. h.post_readies);
    pre_stops = default_first (λ h. h.pre_stops);
    post_stops = user_first (λ h. h.post_stops);
    pre_terminates = default_first (λ h. h.pre_terminates);
    post_terminates = user_first (λ h. h.post_terminates);
  }

-- The combined hooks hold, in each phase whose name begins with "Pre", the default hooks and then
-- the user's, and in each phase whose name begins with "Post" the user's hooks and then the
-- default ones, each in the order of the given values; the pull hook comes last of all the
-- pre-create hooks.
pub combine_container_hooks-eq-ordered :
    {D S : Type 0} (pull_hook : List (Hook D)) (ds us : List (LifecycleHooks D S))
    → combine_container_hooks pull_hook ds us ≡ ordered ds us pull_hook
unfolding combine_container_hooks
combine_container_hooks-eq-ordered {D} {S} pull_hook ds us = λ i. record {
  pre_creates =
      pre_field (λ (h : LifecycleHooks D S). h.pre_creates) refl (λ h a. refl) (λ h a. refl)
        (λ h a. refl) ds us i
      ++ pull_hook;
  post_creates =
      post_field (λ (h : LifecycleHooks D S). h.post_creates) refl (λ h a. refl) (λ h a. refl)
        (λ h a. refl) ds us i;
  pre_starts =
      pre_field (λ (h : LifecycleHooks D S). h.pre_starts) refl (λ h a. refl) (λ h a. refl)
        (λ h a. refl) ds us i;
  post_starts =
      post_field (λ (h : LifecycleHooks D S). h.post_starts) refl (λ h a. refl) (λ h a. refl)
        (λ h a. refl) ds us i;
  post_readies =
      post_field (λ (h : LifecycleHooks D S). h.post_readies) refl (λ h a. refl) (λ h a. refl)
        (λ h a. refl) ds us i;
  pre_stops =
      pre_field (λ (h : LifecycleHooks D S). h.pre_stops) refl (λ h a. refl) (λ h a. refl)
        (λ h a. refl) ds us i;
  post_stops =
      post_field (λ (h : LifecycleHooks D S). h.post_stops) refl (λ h a. refl) (λ h a. refl)
        (λ h a. refl) ds us i;
  pre_terminates =
      pre_field (λ (h : LifecycleHooks D S). h.pre_terminates) refl (λ h a. refl) (λ h a. refl)
        (λ h a. refl) ds us i;
  post_terminates =
      post_field (λ (h : LifecycleHooks D S). h.post_terminates) refl (λ h a. refl) (λ h a. refl)
        (λ h a. refl) ds us i;
}
