-- ===== src/Container/Operations/Journal.antt =====
-- A journal of the daemon's calls, and what a container's operations write into it.
use docker_go_sdk.Common.{String, ◌≡◌, Bool, List, [], ◌∷◌, ◌++◌, All, All-map}
use docker_go_sdk.Common.Int.{ℤ}
use docker_go_sdk.Lifecycle.{Hook, LifecycleHooks, apply_container_hooks}
use docker_go_sdk.Lifecycle.Keeps.{
  Keeps, apply_container_hooks-Keeps, apply_lifecycle_hooks-Keeps,
  apply_lifecycle_hooks_logged-Keeps,
}
use docker_go_sdk.Container.Operations.{
  Daemon, State, Container, apply_phase, apply_phase_logged, on_world,
}

pub data Event : Type 0 where
  started : String → Event
  stopped : String → ℤ → Event
  removed : String → Bool → Bool → Event
  volume_removed : String → Bool → Event

-- The world keeps a journal: each call appends its event, whether it succeeds or not, and the
-- logger and `Close` write nothing into it.
pub record Journal {W : Type 0} (d : Daemon W) : Type 0 where
  pub journal : W → List Event
  pub journal-start :
      (id : String) (w : W) → journal (d.container_start id w).1 ≡ journal w ++ started id ∷ []
  pub journal-stop :
      (id : String) (timeout : ℤ) (w : W)
      → journal (d.container_stop id timeout w).1 ≡ journal w ++ stopped id timeout ∷ []
  pub journal-remove :
      (id : String) (volumes force : Bool) (w : W)
      → journal (d.container_remove id volumes force w).1
        ≡ journal w ++ removed id volumes force ∷ []
  pub journal-volume_remove :
      (name : String) (force : Bool) (w : W)
      → journal (d.volume_remove name force w).1 ≡ journal w ++ volume_removed name force ∷ []
  pub journal-close : (w : W) → journal (d.close w) ≡ journal w
  pub journal-print_logs : (id : String) (w : W) → journal (d.print_logs id w) ≡ journal w

-- Every hook of the phase, in each of the container's values, leaves the view alone.
abbrev pub PhaseKeeps {ℓ} :
    {D W : Type 0} {A : Type ℓ}
    → (State W → A)
    → (LifecycleHooks D (State W) → List (Hook (State W)))
    → Container D W
    → Type ℓ
PhaseKeeps view phase c = All (λ hooks. All (Keeps view) (phase hooks)) c.lifecycle_hooks

module _ {ℓ} {D W : Type 0} {A : Type ℓ} (d : Daemon W) (c : Container D W)
    (view : State W → A) where
  pub apply_phase-Keeps :
      (phase : LifecycleHooks D (State W) → List (Hook (State W)))
      → PhaseKeeps view phase c
      → Keeps view (apply_phase d c phase)
  unfolding apply_phase
  apply_phase-Keeps phase h =
      apply_lifecycle_hooks-Keeps view (λ hooks. apply_container_hooks (phase hooks))
        c.lifecycle_hooks
        (All-map _ _ (λ hooks. apply_container_hooks-Keeps view (phase hooks)) c.lifecycle_hooks h)

  pub apply_phase_logged-Keeps :
      (phase : LifecycleHooks D (State W) → List (Hook (State W)))
      → ((s : State W) → view (on_world (d.print_logs c.container_id) s) ≡ view s)
      → PhaseKeeps view phase c
      → Keeps view (apply_phase_logged d c phase)
  unfolding apply_phase_logged
  apply_phase_logged-Keeps phase quiet h =
      apply_lifecycle_hooks_logged-Keeps view (λ hooks. apply_container_hooks (phase hooks))
        (on_world (d.print_logs c.container_id)) c.lifecycle_hooks quiet
        (All-map _ _ (λ hooks. apply_container_hooks-Keeps view (phase hooks)) c.lifecycle_hooks h)
