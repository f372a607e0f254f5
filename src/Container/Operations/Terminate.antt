-- ===== src/Container/Operations/Terminate.antt =====
-- What a termination does to the daemon and to the container, whatever its hooks return.
use mathlib.Core.List.{map}
use docker_go_sdk.Common.{
  String, ◌≡◌, refl, sym, ap, ◌∙◌, true, false, Option, none, some, List, [], ◌∷◌, ◌++◌,
  append_assoc, append-nil, arith,
}
use docker_go_sdk.GoError.{Error}
use docker_go_sdk.Lifecycle.Keeps.{Keeps}
use docker_go_sdk.Container.Cleanup.{Errdefs, is_cleanup_safe}
use docker_go_sdk.Container.Operations.{
  Daemon, State, Container, StopOption, with_stop_timeout, new_stop_options, TerminateOption,
  new_terminate_options, whole_seconds, call, stopping_hook, stopped_hook, terminating_hook,
  terminated_hook, stop, cleanup_from, cleanup, remove_stopped, terminate_container,
}
use docker_go_sdk.Container.Operations.Journal.{
  Event, stopped, removed, volume_removed, Journal, PhaseKeeps, apply_phase-Keeps,
}

module _ {D W : Type 0} (d : Daemon W) (c : Container D W) where
  cleanup_from-is_running :
      (volumes : List String) (errs : List (Option Error)) (s : State W)
      → (cleanup_from d c errs volumes s).1.is_running ≡ s.is_running
  unfolding cleanup_from
  cleanup_from-is_running [] errs s = refl
  cleanup_from-is_running (v ∷ volumes) errs s =
      cleanup_from-is_running volumes _ (call (d.volume_remove v true) s).1

  -- After the removal the container is marked as not running, whatever the hooks have set and
  -- whatever the removals of the container and of the volumes return.
  pub remove_stopped-is_running :
      (volumes : List String) (s : State W) → (remove_stopped d c volumes s).1.is_running ≡ false
  unfolding remove_stopped cleanup
  remove_stopped-is_running volumes s = cleanup_from-is_running volumes [] _

  -- The options that `Terminate` passes to `Stop`.
  abbrev pub stop_options : List TerminateOption → List StopOption
  stop_options opts = with_stop_timeout (new_terminate_options opts).stop_timeout ∷ []

  -- A termination that gets past the stop leaves the container marked as not running, whatever its
  -- hooks and the daemon return.
  pub terminate_container-is_running :
      (defs : Errdefs) (opts : List TerminateOption) (s : State W)
      → is_cleanup_safe defs (stop d c (stop_options opts) s).0 ≡ true
      → (terminate_container d c defs opts s).1.is_running ≡ false
  unfolding terminate_container
  terminate_container-is_running defs opts s h =
      rw h (remove_stopped-is_running (new_terminate_options opts).volumes _)

  module _ (j : Journal d) where
    abbrev pub log_of : State W → List Event
    log_of s = j.journal s.world

    abbrev pub volume_events : List String → List Event
    volume_events volumes = map (λ v. volume_removed v true) volumes

    cleanup_from-log :
        (volumes : List String) (errs : List (Option Error)) (s : State W)
        → log_of (cleanup_from d c errs volumes s).1 ≡ log_of s ++ volume_events volumes
    unfolding cleanup_from
    cleanup_from-log [] errs s = sym (append-nil (log_of s))
    cleanup_from-log (v ∷ volumes) errs s =
        cleanup_from-log volumes _ (call (d.volume_remove v true) s).1
        ∙ rw (j.journal-volume_remove v true s.world)
            (append_assoc (log_of s) (volume_removed v true ∷ []) (volume_events volumes))

    remove_stopped-log :
        (volumes : List String) (s : State W)
        → PhaseKeeps log_of (λ hooks. hooks.pre_terminates) c
        → PhaseKeeps log_of (λ hooks. hooks.post_terminates) c
        → log_of (remove_stopped d c volumes s).1
          ≡ log_of s ++ removed c.container_id true true ∷ volume_events volumes
    unfolding remove_stopped cleanup terminating_hook terminated_hook
    remove_stopped-log volumes s pre post =
        rw
          (
            cleanup_from-log volumes [] _,
            apply_phase-Keeps d c log_of (λ hooks. hooks.post_terminates) post _,
            j.journal-remove c.container_id true true _,
            apply_phase-Keeps d c log_of (λ hooks. hooks.pre_terminates) pre s,
          )
          (append_assoc (log_of s) (removed c.container_id true true ∷ []) (volume_events volumes))

    -- What `stop` asks of the daemon: nothing if a pre-stop hook fails, and one stop with the
    -- time-out in whole seconds otherwise.
    abbrev pub stop_events : List StopOption → State W → List Event
    stop_events opts s = elim (stopping_hook d c s).0 [
      | some e ↦ []
      | none ↦ stopped c.container_id (whole_seconds (new_stop_options opts).stop_timeout) ∷ []
    ]

    stop-log :
        (opts : List StopOption) (s : State W)
        → Keeps log_of (stopping_hook d c)
        → Keeps log_of (stopped_hook d c)
        → log_of (stop d c opts s).1 ≡ log_of s ++ stop_events opts s
    unfolding stop
    stop-log opts s pre post =
        let s1 = (stopping_hook d c s).1 in
        let timeout = whole_seconds (new_stop_options opts).stop_timeout in
        let (e, w) = d.container_stop c.container_id timeout s1.world in
        ground (
          arith,
          pre s,
          append-nil (log_of s),
          j.journal-stop c.container_id timeout s1.world,
          post (record s1 { world = w; is_running = false }),
        )

    -- From a container whose hooks write nothing into the journal: a termination that gets past the
    -- stop asks the daemon for the stop (unless a pre-stop hook failed), then for the removal of
    -- the container with its anonymous volumes and by force, and then for the removal of each
    -- given volume by force, in order, whatever hooks and calls fail on the way.
    pub terminate_container-log :
        (defs : Errdefs) (opts : List TerminateOption) (s : State W)
        → PhaseKeeps log_of (λ hooks. hooks.pre_stops) c
        → PhaseKeeps log_of (λ hooks. hooks.post_stops) c
        → PhaseKeeps log_of (λ hooks. hooks.pre_terminates) c
        → PhaseKeeps log_of (λ hooks. hooks.post_terminates) c
        → is_cleanup_safe defs (stop d c (stop_options opts) s).0 ≡ true
        → log_of (terminate_container d c defs opts s).1
          ≡ log_of s
            ++ stop_events (stop_options opts) s
            ++ removed c.container_id true true ∷ volume_events (new_terminate_options opts).volumes
    unfolding terminate_container stopping_hook stopped_hook
    terminate_container-log defs opts s pre_stop post_stop pre post safe =
        let volumes = (new_terminate_options opts).volumes in
        let stopping = apply_phase-Keeps d c log_of (λ hooks. hooks.pre_stops) pre_stop in
        let after = apply_phase-Keeps d c log_of (λ hooks. hooks.post_stops) post_stop in
        rw safe (
          remove_stopped-log volumes _ pre post
          ∙ ap (λ events. events ++ removed c.container_id true true ∷ volume_events volumes)
              (stop-log (stop_options opts) s stopping after))
