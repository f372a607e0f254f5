-- ===== src/Container/Operations/Flag.antt =====
-- The flag `isRunning` and the daemon's calls after `Start` and `Stop`.
use docker_go_sdk.Common.{
  ◌≡◌, refl, true, false, none, some, List, [], ◌∷◌, ◌++◌, append-nil, arith,
}
use docker_go_sdk.Lifecycle.Keeps.{Keeps}
use docker_go_sdk.Container.Operations.{
  Daemon, State, Container, StopOption, call, starting_hook, started_hook, readied_hook,
  stopping_hook, stopped_hook, start, stop, new_stop_options, whole_seconds,
}
use docker_go_sdk.Container.Operations.Journal.{
  Event, started, Journal, PhaseKeeps, apply_phase-Keeps, apply_phase_logged-Keeps,
}

module _ {D W : Type 0} (d : Daemon W) (c : Container D W) where
  -- A start that reports no error leaves the container marked as running, if the post-ready hooks
  -- leave the mark alone.
  pub start-is_running :
      (s : State W)
      → PhaseKeeps (λ t. t.is_running) (λ hooks. hooks.post_readies) c
      → (start d c s).0 ≡ none
      → (start d c s).1.is_running ≡ true
  unfolding start readied_hook
  start-is_running s h okay =
      let s1 = (starting_hook d c s).1 in
      let s2 = (call (d.container_start c.container_id) s1).1 in
      let s3 = (started_hook d c s2).1 in
      ground (
        arith,
        apply_phase_logged-Keeps d c (λ t. t.is_running) (λ hooks. hooks.post_readies) (λ t. refl) h
            (record s3 { is_running = true }),
      )

  -- A stop that reports no error leaves the container marked as not running, if the post-stop hooks
  -- leave the mark alone.
  pub stop-is_running :
      (opts : List StopOption) (s : State W)
      → PhaseKeeps (λ t. t.is_running) (λ hooks. hooks.post_stops) c
      → (stop d c opts s).0 ≡ none
      → (stop d c opts s).1.is_running ≡ false
  unfolding stop stopped_hook
  stop-is_running opts s h okay =
      let s1 = (stopping_hook d c s).1 in
      let timeout = whole_seconds (new_stop_options opts).stop_timeout in
      let s2 = (call (d.container_stop c.container_id timeout) s1).1 in
      ground (
        arith,
        apply_phase-Keeps d c (λ t. t.is_running) (λ hooks. hooks.post_stops) h
            (record s2 { is_running = false }),
      )

  module _ (j : Journal d) where
    -- What `start` asks of the daemon: nothing if a pre-start hook fails, and one start otherwise.
    abbrev pub start_events : State W → List Event
    start_events s = elim (starting_hook d c s).0 [
      | some e ↦ []
      | none ↦ started c.container_id ∷ []
    ]

    start_log_lem :
        (s : State W)
        → Keeps (λ t. j.journal t.world) (starting_hook d c)
        → Keeps (λ t. j.journal t.world) (started_hook d c)
        → Keeps (λ t. j.journal t.world) (readied_hook d c)
        → j.journal (start d c s).1.world ≡ j.journal s.world ++ start_events s
    unfolding start
    start_log_lem s pre post ready =
        let s1 = (starting_hook d c s).1 in
        let s2 = (call (d.container_start c.container_id) s1).1 in
        let s3 = (started_hook d c s2).1 in
        let s4 = (readied_hook d c (record s3 { is_running = true })).1 in
        ground (
          arith,
          pre s,
          append-nil (j.journal s.world),
          j.journal-start c.container_id s1.world,
          post s2,
          ready (record s3 { is_running = true }),
          j.journal-close s3.world,
          j.journal-close s4.world,
        )

    -- From a container whose hooks write nothing into the journal: a start asks the daemon once to
    -- start the container, or not at all if a pre-start hook fails.
    pub start-log :
        (s : State W)
        → PhaseKeeps (λ t. j.journal t.world) (λ hooks. hooks.pre_starts) c
        → PhaseKeeps (λ t. j.journal t.world) (λ hooks. hooks.post_starts) c
        → PhaseKeeps (λ t. j.journal t.world) (λ hooks. hooks.post_readies) c
        → j.journal (start d c s).1.world ≡ j.journal s.world ++ start_events s
    unfolding starting_hook started_hook readied_hook
    start-log s pre post ready =
        let quiet = λ (t : State W). j.journal-print_logs c.container_id t.world in
        start_log_lem s
          (apply_phase_logged-Keeps d c (λ t. j.journal t.world) (λ hooks. hooks.pre_starts) quiet
            pre)
          (apply_phase_logged-Keeps d c (λ t. j.journal t.world) (λ hooks. hooks.post_starts) quiet
            post)
          (apply_phase_logged-Keeps d c (λ t. j.journal t.world) (λ hooks. hooks.post_readies) quiet
            ready)
