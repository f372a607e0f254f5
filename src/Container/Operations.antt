-- ===== src/Container/Operations.antt =====
-- container/container.start.go, container.stop.go, container.terminate.go and the hooks of
-- container/lifecycle.start.go, lifecycle.stop.go and lifecycle.terminate.go.
-- The daemon, the network behind it and all else that a hook may change is a world of type `W`.
pub mod Journal
pub mod Flag
pub mod Terminate
mod Tests
use Prim.Native.String
use mathlib.Core.List.{foldl}
use docker_go_sdk.Common.{
  ℕ, ◌*◌, ◌^◌, String, Bool, true, false, Option, none, some, List, [], ◌∷◌, ◌++◌, if◌then◌else◌,
}
use docker_go_sdk.Common.Int.{ℤ, pos, trunc_div}
use docker_go_sdk.GoError.{Error, wrap, wrapped, join}
use docker_go_sdk.Lifecycle.{
  Hook, LifecycleHooks, append_error, and_then, apply_container_hooks, apply_lifecycle_hooks,
  apply_lifecycle_hooks_logged,
}
use docker_go_sdk.Container.Cleanup.{Errdefs, is_cleanup_safe}

-- The calls of the Docker client: each returns an `error` and the world that it leaves.
pub record Daemon (W : Type 0) : Type 0 where
  pub container_start : String → Hook W
  -- the time-out in seconds
  pub container_stop : String → ℤ → Hook W
  -- `RemoveVolumes` and `Force`
  pub container_remove : String → Bool → Bool → Hook W
  -- `Force`
  pub volume_remove : String → Bool → Hook W
  -- `Close`, whose error is dropped
  pub close : W → W
  -- `printLogs`, which reads the container's logs and writes them to the logger
  pub print_logs : String → W → W

-- What a container's hook can change: the world, and `isRunning` through `Running`.
pub record State (W : Type 0) : Type 0 where
  pub world : W
  pub is_running : Bool

-- The fields of `Container` that no operation changes; `D` is the definition's type.
pub record Container (D W : Type 0) : Type 0 where
  pub container_id : String
  pub short_id : String
  pub image : String
  pub exposed_ports : List String
  pub lifecycle_hooks : List (LifecycleHooks D (State W))

-- `time.Second * 10`, in nanoseconds.
abbrev pub ten_seconds : ℤ
ten_seconds = pos (10 * 10 ^ 9)

pub record StopOptions : Type 0 where
  pub stop_timeout : ℤ

abbrev pub StopOption : Type 0
StopOption = StopOptions → StopOptions

-- `StopTimeout`
abbrev pub with_stop_timeout : ℤ → StopOption
with_stop_timeout timeout c = record c { stop_timeout = timeout }

unfoldable pub new_stop_options : List StopOption → StopOptions
new_stop_options opts =
    foldl (λ options opt. opt options) (record { stop_timeout = ten_seconds }) opts

pub record TerminateOptions : Type 0 where
  pub stop_timeout : ℤ
  pub volumes : List String

abbrev pub TerminateOption : Type 0
TerminateOption = TerminateOptions → TerminateOptions

-- `TerminateTimeout`
abbrev pub terminate_timeout : ℤ → TerminateOption
terminate_timeout timeout c = record c { stop_timeout = timeout }

-- `RemoveVolumes`
abbrev pub remove_volumes : List String → TerminateOption
remove_volumes volumes c = record c { volumes = volumes }

unfoldable pub new_terminate_options : List TerminateOption → TerminateOptions
unfolding new_stop_options
new_terminate_options opts =
    let stop_options = new_stop_options [] in
    foldl (λ options opt. opt options)
      (record { stop_timeout = stop_options.stop_timeout; volumes = [] }) opts

-- `int(d.Seconds())`. Go goes through a `float64`, which gives the same number for durations below
-- 2 ^ 22 seconds.
unfoldable pub whole_seconds : ℤ → ℤ
whole_seconds d = trunc_div d (10 ^ 9)

infixl 5 ◌>>◌
-- The second step runs if the first returns no error.
abbrev pub ◌>>◌ : {S : Type 0} → Hook S → Hook S → Hook S
◌>>◌ first second s = and_then (first s) second

-- `if err := step; err != nil { return fmt.Errorf("…%w", err) }`
abbrev pub returning : {S : Type 0} → String → Hook S → Hook S
returning text step s = let (e, s') = step s in (wrapped text e, s')

-- A step whose end runs the deferred action, whatever it returns.
abbrev pub deferring : {S : Type 0} → (S → S) → Hook S → Hook S
deferring action step s = let (e, s') = step s in (e, action s')

module _ {W : Type 0} where
  -- A call of the client.
  abbrev pub call : Hook W → Hook (State W)
  call op s = let (e, w) = op s.world in (e, record s { world = w })

  abbrev pub on_world : (W → W) → State W → State W
  on_world f s = record s { world = f s.world }

  -- `c.isRunning = b`
  abbrev pub set_running : Bool → Hook (State W)
  set_running b s = (none, record s { is_running = b })

module _ {D W : Type 0} (d : Daemon W) (c : Container D W) where
  -- A phase of the container's hooks, without and with the logs printed on an error.
  unfoldable pub apply_phase : (LifecycleHooks D (State W) → List (Hook (State W))) → Hook (State W)
  apply_phase phase =
      apply_lifecycle_hooks (λ hooks. apply_container_hooks (phase hooks)) c.lifecycle_hooks

  unfoldable pub apply_phase_logged :
      (LifecycleHooks D (State W) → List (Hook (State W))) → Hook (State W)
  apply_phase_logged phase =
      apply_lifecycle_hooks_logged (λ hooks. apply_container_hooks (phase hooks))
        (on_world (d.print_logs c.container_id)) c.lifecycle_hooks

  unfoldable pub created_hook : Hook (State W)
  created_hook = apply_phase (λ hooks. hooks.post_creates)

  unfoldable pub starting_hook : Hook (State W)
  starting_hook = apply_phase_logged (λ hooks. hooks.pre_starts)

  unfoldable pub started_hook : Hook (State W)
  started_hook = apply_phase_logged (λ hooks. hooks.post_starts)

  unfoldable pub readied_hook : Hook (State W)
  readied_hook = apply_phase_logged (λ hooks. hooks.post_readies)

  pub stopping_hook : Hook (State W)
  stopping_hook = apply_phase (λ hooks. hooks.pre_stops)

  pub stopped_hook : Hook (State W)
  stopped_hook = apply_phase (λ hooks. hooks.post_stops)

  pub terminating_hook : Hook (State W)
  terminating_hook = apply_phase (λ hooks. hooks.pre_terminates)

  pub terminated_hook : Hook (State W)
  terminated_hook = apply_phase (λ hooks. hooks.post_terminates)

  unfoldable pub start : Hook (State W)
  start = do
    returning "starting hook: " starting_hook
    returning "container start: " (call (d.container_start c.container_id))
    deferring (on_world d.close) do
      returning "started hook: " started_hook
      set_running true
      returning "readied hook: " readied_hook

  pub stop : List StopOption → Hook (State W)
  stop opts =
      let options = new_stop_options opts in
      do
        returning "stopping hook: " stopping_hook
        returning "container stop: "
            (call (d.container_stop c.container_id (whole_seconds options.stop_timeout)))
        set_running false
        returning "stopped hook: " stopped_hook

  -- The loop of `Cleanup`.
  cleanup_from : List (Option Error) → List String → Hook (State W)
  cleanup_from errs [] s = (join errs, s)
  cleanup_from errs (volume ∷ volumes) s =
      let (e, s') = call (d.volume_remove volume true) s in
      let text = String.◌++◌ "volume remove \"" (String.◌++◌ volume "\": ") in
      cleanup_from (append_error errs (wrapped text e)) volumes s'

  -- `(o *TerminateOptions) Cleanup`
  pub cleanup : List String → Hook (State W)
  unfolding cleanup_from
  cleanup volumes = cleanup_from [] volumes

  -- What `Terminate` does once the container has stopped.
  pub remove_stopped : List String → Hook (State W)
  remove_stopped volumes s =
      let (e, s1) = terminating_hook s in
      let (e', s2) = call (d.container_remove c.container_id true true) s1 in
      let (e'', s3) = terminated_hook s2 in
      let (left, s4) = cleanup volumes (record s3 { is_running = false }) in
      (join (append_error (e ∷ e' ∷ e'' ∷ []) left), s4)

  module _ (defs : Errdefs) where
    -- `(c *Container) Terminate`
    pub terminate_container : List TerminateOption → Hook (State W)
    terminate_container opts s =
        let options = new_terminate_options opts in
        let (e, s') = stop (with_stop_timeout options.stop_timeout ∷ []) s in
        if is_cleanup_safe defs e
        then remove_stopped options.volumes s'
        else (wrapped "stop: " e, s')

-- The function `Terminate`; `none` is a nil container.
pub terminate :
    {D W : Type 0}
    → Daemon W
    → Errdefs
    → Option (Container D W)
    → List TerminateOption
    → Hook (State W)
terminate d defs none opts s = (none, s)
terminate d defs (some c) opts s =
    let (e, s') = terminate_container d c defs opts s in
    if is_cleanup_safe defs e then (none, s') else (wrapped "terminate: " e, s')
