-- ===== src/Wait/HostPort/Total.antt =====
-- The port wait as a whole returns, since each of its loops does.
use docker_go_sdk.Common.{ℕ, suc, ◌+◌, ◌<◌, String, refl, Option, none, some}
use docker_go_sdk.Container.Endpoints.{Port}
use docker_go_sdk.GoError.{Error, Result, ok, err}
use docker_go_sdk.Wait.HostPort.{
  HostPortStrategy, PortTarget, detect_internal_port, detect_loop, map_loop, external_check,
  internal_check, judged, check_inside, after_external, dial_host, check_outside, after_map,
  after_first_mapping, wait_for_port, after_detect, after_first_detection, wait_from,
  host_port_wait,
}
use docker_go_sdk.Wait.HostPort.Returns.{
  PortTimely, detect_loop-Returns, map_loop-Returns, external_check-Returns, internal_check-Returns,
}
use docker_go_sdk.Wait.Poll.Laws.{Returns, if_Returns}
use docker_go_sdk.Wait.Target.{Ctx, with_timeout, timeout_or_default}

module _ {W : Type 0} (t : PortTarget W) (timed : PortTimely t) (hp : HostPortStrategy) where
  -- One round for each nanosecond up to the deadline, and one more.
  abbrev pub enough : W → ℕ
  enough w = suc (t.target.now w + timeout_or_default hp.timeout)

  module _ (outer : Ctx W) (w0 : W) (h : 0 < hp.poll_interval) where
    abbrev inner : Ctx W
    inner = with_timeout t.target (timeout_or_default hp.timeout) outer w0

    judged-Returns :
        (o : Option (Option Error × W)) → Returns o → Returns (judged t hp (enough w0) inner o)
    judged-Returns none (r, e) = absurd (cc e)
    judged-Returns (some (r, w)) e = (_, refl)

    check_inside-Returns :
        (internal : Port) (w : W) → Returns (check_inside t hp (enough w0) inner internal w)
    check_inside-Returns internal w =
        if_Returns hp.skip_internal_check _ _ ((none, w), refl)
          (judged-Returns (internal_check t (enough w0) inner internal.num w) (
            internal_check-Returns t timed (timeout_or_default hp.timeout) outer w0 internal.num w))

    after_external-Returns :
        (internal : Port) (o : Option (Option Error × W))
        → Returns o
        → Returns (after_external t hp (enough w0) inner internal o)
    after_external-Returns internal none (r, e) = absurd (cc e)
    after_external-Returns internal (some (some x, w)) e = (_, refl)
    after_external-Returns internal (some (none, w)) e = check_inside-Returns internal w

    dial_host-Returns :
        (internal port : Port) (answer : Result String × W)
        → Returns (dial_host t hp (enough w0) inner internal port answer)
    dial_host-Returns internal port (err e, w) = (_, refl)
    dial_host-Returns internal port (ok address, w) =
        after_external-Returns internal
          (external_check t (enough w0) inner address port hp.poll_interval w)
          (external_check-Returns t timed (timeout_or_default hp.timeout) outer w0 address port
            hp.poll_interval w h)

    check_outside-Returns :
        (internal port : Port) (w : W)
        → Returns (check_outside t hp (enough w0) inner internal port w)
    check_outside-Returns internal port w =
        if_Returns hp.skip_external_check _ _ (check_inside-Returns internal w)
          (dial_host-Returns internal port (t.host w))

    after_map-Returns :
        (internal : Port) (o : Option (Option Error × (Result Port × W)))
        → Returns o
        → Returns (after_map t hp (enough w0) inner internal o)
    after_map-Returns internal none (r, e) = absurd (cc e)
    after_map-Returns internal (some (some x, (r, w))) e = (_, refl)
    after_map-Returns internal (some (none, (err x, w))) e = (_, refl)
    after_map-Returns internal (some (none, (ok port, w))) e = check_outside-Returns internal port w

    after_first_mapping-Returns :
        (internal : Port) (answer : Result Port × W)
        → Returns (after_first_mapping t hp (enough w0) inner internal answer)
    after_first_mapping-Returns internal (ok port, w) = check_outside-Returns internal port w
    after_first_mapping-Returns internal (err e, w) =
        after_map-Returns internal
          (map_loop t (enough w0) hp.poll_interval inner internal (err e, w))
          (map_loop-Returns t timed (timeout_or_default hp.timeout) outer w0 hp.poll_interval
            internal (err e, w) h)

    wait_for_port-Returns :
        (internal : Port) (w : W) → Returns (wait_for_port t hp (enough w0) inner internal w)
    wait_for_port-Returns internal w =
        after_first_mapping-Returns internal (t.mapped_port internal w)

    after_detect-Returns :
        (o : Option (Option Error × (Option Port × W)))
        → Returns o
        → Returns (after_detect t hp (enough w0) inner o)
    after_detect-Returns none (r, e) = absurd (cc e)
    after_detect-Returns (some (some x, (p, w))) e = (_, refl)
    after_detect-Returns (some (none, (none, w))) e = (_, refl)
    after_detect-Returns (some (none, (some port, w))) e = wait_for_port-Returns port w

    after_first_detection-Returns :
        (answer : Result (Option Port) × W)
        → Returns (after_first_detection t hp (enough w0) inner answer)
    after_first_detection-Returns (err e, w) = (_, refl)
    after_first_detection-Returns (ok (some port), w) = wait_for_port-Returns port w
    after_first_detection-Returns (ok none, w) =
        after_detect-Returns (detect_loop t (enough w0) hp.poll_interval inner (none, w)) (
          detect_loop-Returns t timed (timeout_or_default hp.timeout) outer w0 hp.poll_interval
            (none, w) h)

    wait_from-Returns :
        (named : Option Port) (w : W) → Returns (wait_from t hp (enough w0) inner named w)
    wait_from-Returns (some port) w = wait_for_port-Returns port w
    wait_from-Returns none w = after_first_detection-Returns (detect_internal_port t w)

  -- A port wait returns, whatever the daemon answers: under a clock that does not run backwards,
  -- sleeps and execs that take time, dials that do not end as refused once the context is done,
  -- and a positive poll interval, one round of each loop for each nanosecond up to the deadline,
  -- and one more, are enough.
  pub host_port_wait-Returns :
      (ctx : Ctx W) (w : W) → 0 < hp.poll_interval → Returns (host_port_wait t hp (enough w) ctx w)
  unfolding host_port_wait
  host_port_wait-Returns ctx w h = wait_from-Returns ctx w h hp.port w
