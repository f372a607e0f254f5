-- ===== src/Container/Operations/Tests.antt =====
-- A container whose daemon keeps a journal, and the laws of its operations.
use docker_go_sdk.Common.Int.{trunc_div}
use docker_go_sdk.GoError.{join}
use docker_go_sdk.Lifecycle.{
  apply_container_hooks, apply_lifecycle_hooks, apply_lifecycle_hooks_logged,
}
use docker_go_sdk.Container.Operations.{
  apply_phase, apply_phase_logged, cleanup, new_terminate_options, readied_hook, started_hook,
  starting_hook, stopped_hook, stopping_hook, terminated_hook, terminating_hook, whole_seconds,
}
use docker_go_sdk.Common.{ℕ, ◌≡◌, refl, true, false, none, some, List, [], ◌∷◌, ◌++◌}
use docker_go_sdk.Common.Int.{pos}
use docker_go_sdk.Lifecycle.{Hook, LifecycleHooks, no_hooks}
use docker_go_sdk.GoError.{new, error_is}
use docker_go_sdk.Container.Cleanup.{Errdefs, is_cleanup_safe}
use docker_go_sdk.Container.Operations.{
  Daemon, State, Container, start, stop, remove_stopped, terminate_container, remove_volumes,
}
use docker_go_sdk.Container.Operations.Flag.{start_events, start-is_running, start-log}
use docker_go_sdk.Container.Operations.Journal.{
  Event, started, stopped, removed, volume_removed, Journal,
}
use docker_go_sdk.Container.Operations.Terminate.{
  stop_options, stop_events, volume_events, terminate_container-is_running, terminate_container-log,
}

-- Every call succeeds, but for the removal of a volume.
abbrev daemon : Daemon (List Event)
daemon = record {
  container_start = λ id w. (none, w ++ started id ∷ []);
  container_stop = λ id timeout w. (none, w ++ stopped id timeout ∷ []);
  container_remove = λ id volumes force w. (none, w ++ removed id volumes force ∷ []);
  volume_remove = λ name force w. (some (new "in use"), w ++ volume_removed name force ∷ []);
  close = λ w. w;
  print_logs = λ id w. w;
}

abbrev journal_of : Journal daemon
journal_of = record {
  journal = λ w. w;
  journal-start = λ id w. refl;
  journal-stop = λ id timeout w. refl;
  journal-remove = λ id volumes force w. refl;
  journal-volume_remove = λ name force w. refl;
  journal-close = λ w. refl;
  journal-print_logs = λ id w. refl;
}

abbrev quiet : Hook (State (List Event))
quiet s = (none, s)

abbrev failing : Hook (State (List Event))
failing s = (some (new "hook"), s)

abbrev hooks : LifecycleHooks ℕ (State (List Event))
hooks = record no_hooks {
  pre_starts = quiet ∷ [];
  post_readies = quiet ∷ [];
  post_stops = quiet ∷ [];
  pre_terminates = failing ∷ [];
}

abbrev one_container : Container ℕ (List Event)
one_container = record {
  container_id = "c1";
  short_id = "c1";
  image = "nginx";
  exposed_ports = [];
  lifecycle_hooks = hooks ∷ [];
}

abbrev at_rest : State (List Event)
at_rest = record { world = []; is_running = false }

abbrev by_name : Errdefs
by_name = record {
  is_not_found = λ e. error_is e "not found";
  is_conflict = λ e. error_is e "conflict";
}

start_succeeds : (start daemon one_container at_rest).0 ≡ none
unfolding start starting_hook apply_phase_logged apply_lifecycle_hooks_logged join
    apply_container_hooks started_hook readied_hook
start_succeeds = refl

stop_succeeds : (stop daemon one_container [] at_rest).0 ≡ none
unfolding stop stopping_hook apply_phase apply_lifecycle_hooks join apply_container_hooks
    stopped_hook
stop_succeeds = refl

stop_is_safe :
    is_cleanup_safe by_name
      (stop daemon one_container
        (stop_options daemon one_container (remove_volumes ("v" ∷ []) ∷ []))
        at_rest).0
    ≡ true
unfolding stop is_cleanup_safe stopping_hook apply_phase apply_lifecycle_hooks join
    apply_container_hooks stopped_hook
stop_is_safe = refl

terminate_test :
    (terminate_container daemon one_container by_name
      (remove_volumes ("v" ∷ []) ∷ [])
      at_rest).1.world
    ≡ stopped "c1" (pos 10) ∷ removed "c1" true true ∷ volume_removed "v" true ∷ []
unfolding terminate_container is_cleanup_safe stop stopping_hook apply_phase apply_lifecycle_hooks
    join apply_container_hooks stopped_hook remove_stopped cleanup new_terminate_options
    terminated_hook terminating_hook whole_seconds trunc_div
terminate_test = refl

start-is_running_example : (start daemon one_container at_rest).1.is_running ≡ true
start-is_running_example =
    start-is_running daemon one_container at_rest ((λ s. refl, tt), tt) start_succeeds

start-log_example :
    (start daemon one_container at_rest).1.world
    ≡ [] ++ start_events daemon one_container journal_of at_rest
start-log_example =
    start-log daemon one_container journal_of at_rest ((λ s. refl, tt), tt) (tt, tt)
      ((λ s. refl, tt), tt)

terminate_container-is_running_example :
    (terminate_container daemon one_container by_name
      (remove_volumes ("v" ∷ []) ∷ [])
      at_rest).1.is_running
    ≡ false
terminate_container-is_running_example =
    terminate_container-is_running daemon one_container by_name (remove_volumes ("v" ∷ []) ∷ [])
      at_rest stop_is_safe

terminate_container-log_example :
    (terminate_container daemon one_container by_name
      (remove_volumes ("v" ∷ []) ∷ [])
      at_rest).1.world
    ≡ []
      ++ stop_events daemon one_container journal_of
          (stop_options daemon one_container (remove_volumes ("v" ∷ []) ∷ []))
          at_rest
      ++ removed "c1" true true ∷ volume_events daemon one_container journal_of ("v" ∷ [])
unfolding new_terminate_options
terminate_container-log_example =
    terminate_container-log daemon one_container journal_of by_name (remove_volumes ("v" ∷ []) ∷ [])
      at_rest (tt, tt) ((λ s. refl, tt), tt) ((λ s. refl, tt), tt) (tt, tt) stop_is_safe
