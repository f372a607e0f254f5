-- ===== src/Wait/HostPort/Sound.antt =====
-- What has happened when a port wait returns without an error.
use docker_go_sdk.Common.{ℕ, String, ◌≡◌, refl, ◌⊎◌, inl, inr, true, Option, none, some, Bool-cases}
use docker_go_sdk.Container.Endpoints.{Port}
use docker_go_sdk.GoError.{Error, Result, ok, err}
use docker_go_sdk.Wait.HostPort.{
  HostPortStrategy, PortTarget, detect_internal_port, detect_loop, map_loop, internal_check,
  judge_internal, judged, check_inside, after_external, dial_host, check_outside, after_map,
  after_first_mapping, wait_for_port, after_detect, after_first_detection, wait_from,
  host_port_wait,
}
use docker_go_sdk.Wait.HostPort.Laws.{
  IsMapped, IsReached, IsDetected, external_check_sound, map_loop_sound, detect_loop_sound,
  detect_internal_port-IsDetected,
}
use docker_go_sdk.Wait.HostPort.Shell.{
  PortForeign, CtxIsForeign, IsShellDone, with_timeout-CtxIsForeign, internal_check-IsShellDone,
}
use docker_go_sdk.Wait.Target.{Ctx, with_timeout, timeout_or_default}

module _ {W : Type 0} (t : PortTarget W) (foreign : PortForeign t) (hp : HostPortStrategy)
    (fuel : ℕ) where
  abbrev pub IsInside : Port → Type 0
  IsInside internal = (hp.skip_internal_check ≡ true) ⊎ IsShellDone t foreign internal

  abbrev pub IsOutside : Port → Type 0
  IsOutside port = (hp.skip_external_check ≡ true) ⊎ IsReached t port

  -- The mapped port of an internal port has passed the checks that are not skipped.
  abbrev pub IsReady : Port → Type 0
  IsReady internal = (port : Port) × IsMapped t internal port × IsOutside port × IsInside internal

  module _ (ctx : Ctx W) (outer : CtxIsForeign ctx) where
    judged_inv :
        (o : Option (Option Error × W)) (w' : W)
        → judged t hp fuel ctx o ≡ some (none, w')
        → (r : Option Error) × (v' : W) × (o ≡ some (r, v')) × (judge_internal t r ≡ none)
    judged_inv none w' h = absurd (cc h)
    judged_inv (some (r, v')) w' h = (r, v', refl, cc h)

    check_inside_sound :
        (internal : Port) (w w' : W)
        → check_inside t hp fuel ctx internal w ≡ some (none, w')
        → IsInside internal
    check_inside_sound internal w w' h = elim (Bool-cases hp.skip_internal_check) [
      | inl q ↦ inl q
      | inr q ↦
          let (r, v', e, j) =
            judged_inv (internal_check t fuel ctx internal.num w) w' (rw q at h) in
          inr (internal_check-IsShellDone t foreign fuel ctx internal w r v' outer e j)
    ]

    after_external_inv :
        (internal : Port) (o : Option (Option Error × W)) (w' : W)
        → after_external t hp fuel ctx internal o ≡ some (none, w')
        → (u : W) × (o ≡ some (none, u)) × IsInside internal
    after_external_inv internal none w' h = absurd (cc h)
    after_external_inv internal (some (some e, u)) w' h = absurd (cc h)
    after_external_inv internal (some (none, u)) w' h =
        (u, refl, check_inside_sound internal u w' h)

    dial_host_sound :
        (internal port : Port) (answer : Result String × W) (w' : W)
        → dial_host t hp fuel ctx internal port answer ≡ some (none, w')
        → IsReached t port × IsInside internal
    dial_host_sound internal port (err e, u) w' h = absurd (cc h)
    dial_host_sound internal port (ok address, u) w' h =
        let (v, dialled, inside) = after_external_inv internal _ w' h in
        (external_check_sound t fuel ctx address port hp.poll_interval u v dialled, inside)

    check_outside_sound :
        (internal port : Port) (w w' : W)
        → check_outside t hp fuel ctx internal port w ≡ some (none, w')
        → IsOutside port × IsInside internal
    check_outside_sound internal port w w' h = elim (Bool-cases hp.skip_external_check) [
      | inl q ↦ (inl q, check_inside_sound internal w w' (rw q at h))
      | inr q ↦
          let (reached, inside) = dial_host_sound internal port (t.host w) w' (rw q at h) in
          (inr reached, inside)
    ]

    after_map_sound :
        (internal : Port) (o : Option (Option Error × (Result Port × W))) (w' : W)
        → ((r : Result Port) (u : W)
            → o ≡ some (none, (r, u))
            → (port : Port) × (r ≡ ok port) × IsMapped t internal port)
        → after_map t hp fuel ctx internal o ≡ some (none, w')
        → IsReady internal
    after_map_sound internal none w' f h = absurd (cc h)
    after_map_sound internal (some (some e, (r, u))) w' f h = absurd (cc h)
    after_map_sound internal (some (none, (err e, u))) w' f h =
        let (port, same, mapped) = f (err e) u refl in absurd (cc same)
    after_map_sound internal (some (none, (ok port, u))) w' f h =
        let (outer, same, mapped) = f (ok port) u refl in
        let (outside, inside) = check_outside_sound internal port u w' h in
        (port, rw (port_of same) mapped, outside, inside)
      where
        port_of : {p q : Port} → ok p ≡ ok q → p ≡ q
        port_of e = cc e

    after_first_mapping_sound :
        (internal : Port) (v : W) (r : Result Port) (u w' : W)
        → t.mapped_port internal v ≡ (r, u)
        → after_first_mapping t hp fuel ctx internal (r, u) ≡ some (none, w')
        → IsReady internal
    after_first_mapping_sound internal v (ok port) u w' e h =
        let (outside, inside) = check_outside_sound internal port u w' h in
        (port, (v, u, e), outside, inside)
    after_first_mapping_sound internal v (err x) u w' e h =
        after_map_sound internal (map_loop t fuel hp.poll_interval ctx internal (err x, u)) w'
          (λ r u'. map_loop_sound t fuel hp.poll_interval ctx internal (err x, u) r u') h

    wait_for_port_sound :
        (internal : Port) (w w' : W)
        → wait_for_port t hp fuel ctx internal w ≡ some (none, w')
        → IsReady internal
    wait_for_port_sound internal w w' h =
        after_first_mapping_sound internal w (t.mapped_port internal w).0
          (t.mapped_port internal w).1 w' refl h

    after_detect_sound :
        (o : Option (Option Error × (Option Port × W))) (w' : W)
        → ((p : Option Port) (u : W)
            → o ≡ some (none, (p, u))
            → (internal : Port) × (p ≡ some internal) × IsDetected t internal)
        → after_detect t hp fuel ctx o ≡ some (none, w')
        → (internal : Port) × IsDetected t internal × IsReady internal
    after_detect_sound none w' f h = absurd (cc h)
    after_detect_sound (some (some e, (p, u))) w' f h = absurd (cc h)
    after_detect_sound (some (none, (none, u))) w' f h =
        let (internal, same, found) = f none u refl in absurd (cc same)
    after_detect_sound (some (none, (some port, u))) w' f h =
        let (internal, same, found) = f (some port) u refl in
        (port, rw (port_of same) found, wait_for_port_sound port u w' h)
      where
        port_of : {p q : Port} → some p ≡ some q → p ≡ q
        port_of e = cc e

    after_first_detection_sound :
        (v : W) (r : Result (Option Port)) (u w' : W)
        → detect_internal_port t v ≡ (r, u)
        → after_first_detection t hp fuel ctx (r, u) ≡ some (none, w')
        → (internal : Port) × IsDetected t internal × IsReady internal
    after_first_detection_sound v (err x) u w' e h = absurd (cc h)
    after_first_detection_sound v (ok (some port)) u w' e h =
        (port, detect_internal_port-IsDetected t port v u e, wait_for_port_sound port u w' h)
    after_first_detection_sound v (ok none) u w' e h =
        after_detect_sound (detect_loop t fuel hp.poll_interval ctx (none, u)) w'
          (λ p u'. detect_loop_sound t fuel hp.poll_interval ctx (none, u) p u') h

    wait_from_sound :
        (named : Option Port) (w w' : W)
        → wait_from t hp fuel ctx named w ≡ some (none, w')
        → (internal : Port) × ((named ≡ some internal) ⊎ IsDetected t internal) × IsReady internal
    wait_from_sound (some port) w w' h = (port, inl refl, wait_for_port_sound port w w' h)
    wait_from_sound none w w' h =
        let (internal, found, ready) =
          after_first_detection_sound w (detect_internal_port t w).0 (detect_internal_port t w).1 w'
            refl h in
        (internal, inr found, ready)

  -- A port wait returns without an error only if some internal port, the strategy's where it names one
  -- and else the lowest of those that the daemon has reported, is mapped by the daemon, and its mapped
  -- port has passed the checks: a connection to it has been opened, unless the external check is
  -- skipped; and in the container the command of the check has run in a shell that exited with 0, or
  -- with 126 or 127, by which a shell that cannot be run is told, unless the internal check is
  -- skipped. The errors of the daemon and of the context are assumed not to be the two that the package
  -- keeps to itself for these codes.
  pub host_port_wait_sound :
      (ctx : Ctx W) (w w' : W)
      → CtxIsForeign ctx
      → host_port_wait t hp fuel ctx w ≡ some (none, w')
      → (internal : Port) × ((hp.port ≡ some internal) ⊎ IsDetected t internal) × IsReady internal
  unfolding host_port_wait
  host_port_wait_sound ctx w w' outer h =
      wait_from_sound (with_timeout t.target (timeout_or_default hp.timeout) ctx w)
        (with_timeout-CtxIsForeign t foreign (timeout_or_default hp.timeout) ctx w outer) hp.port w
        w' h
