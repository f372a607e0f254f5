-- ===== src/Wait/HostPort.antt =====
-- container/wait/host_port.go. A loop is on fuel as in Poll, the same for each of the loops that the
-- wait goes through.
pub mod Laws
pub mod Sound
pub mod Returns
pub mod Total
pub mod Shell
pub mod Strategy
mod Tests
pub use Strategy.*
use Prim.Native.String
use docker_go_sdk.Common.{
  ℕ, zero, suc, String, true, Option, none, some, List, [], ◌∷◌, ◌==◌, if◌then◌else◌,
}
use docker_go_sdk.Common.Bytes.{}
use docker_go_sdk.Common.Int.{ℤ, pos, negsuc}
use docker_go_sdk.Container.Endpoints.{Port, lowest_from}
use docker_go_sdk.GoError.{Error, nil, cons, sentinel, joined, wrap, error_is, Result, ok, err}
use docker_go_sdk.GoError.Action.{Action}
use docker_go_sdk.Wait.Poll.{Verdict, again, finished, poll}
use docker_go_sdk.Wait.Target.{Target, Ctx, with_timeout, timeout_or_default, check_target}

-- How a dial ends: the connection, the system's refusal of it, or another error.
pub data Dial : Type 0 where
  connected : Dial
  refused : Dial
  failed : Error → Dial

-- What the strategy asks for besides the calls of every target. The errors of `mapped_port` come with
-- the zero port. `dial` closes its connection; `dial` and `exec` are given the context.
pub record PortTarget (W : Type 0) : Type 0 where
  pub target : Target W
  pub inspect_ports : Action W (List Port)
  pub mapped_port : Port → Action W Port
  pub host : Action W String
  pub dial : Ctx W → String → Port → W → Dial × W
  pub exec : Ctx W → List String → Action W ℤ
  -- `fmt.Sprintf`
  pub sprintf : String → List ℕ → String

abbrev check_template : String
check_template =
    "(cat /proc/net/tcp* | awk '{print $2}' | grep -i :%04x || nc -vz -w 1 localhost %d || /bin/sh -c '</dev/tcp/localhost/%d')"

module _ {W : Type 0} (t : PortTarget W) where
  -- The layout of the command is white space, which is left out.
  abbrev pub build_internal_check_command : ℕ → String
  build_internal_check_command port =
      String.◌++◌ "true && " (t.sprintf check_template (port ∷ port ∷ port ∷ []))

  abbrev detected : Result (List Port) × W → Result (Option Port) × W
  detected (err e, w) = (err (wrap "inspect: " e), w)
  detected (ok ports, w) = (ok (lowest_from none ports), w)

  unfoldable pub detect_internal_port : Action W (Option Port)
  unfolding lowest_from
  detect_internal_port w = detected (t.inspect_ports w)

  -- What `case <-time.After(waitInterval)` waits for; a loop's state is its variable and the world.
  abbrev pause : {A : Type 0} → ℕ → A × W → A × W
  pause interval (a, w) = (a, t.target.sleep interval w)

  abbrev after_detection : Result (Option Port) × W → Verdict × (Option Port × W)
  after_detection (err e, w) = (finished (some (wrap "detect internal port: " e)), (none, w))
  after_detection (ok none, w) = (again, (none, w))
  after_detection (ok (some port), w) = (finished none, (some port, w))

  abbrev detect_checked : Option Error × W → Verdict × (Option Port × W)
  detect_checked (some e, w) =
      (finished (some (wrap "detect internal port: check target: " e)), (none, w))
  detect_checked (none, w) = after_detection (detect_internal_port w)

  unfoldable pub detect_round : Option Port × W → Verdict × (Option Port × W)
  unfolding detect_internal_port check_target
  detect_round (p, w) = detect_checked (check_target t.target w)

  -- The loop for an internal port that is not zero.
  unfoldable pub detect_loop :
      ℕ → ℕ → Ctx W → Option Port × W → Option (Option Error × (Option Port × W))
  unfolding detect_round poll
  detect_loop fuel interval ctx s =
      poll fuel (λ v. ctx v.1) (λ v e. wrap "detect internal port: " e) (pause interval)
        detect_round s

  abbrev after_mapping : Result Port × W → Verdict × (Result Port × W)
  after_mapping (err e, w) = (again, (err e, w))
  after_mapping (ok port, w) = (finished none, (ok port, w))

  abbrev map_checked : Port → Result Port → Option Error × W → Verdict × (Result Port × W)
  map_checked internal last (some e, w) =
      (finished (some (wrap "mapped port: check target: " e)), (last, w))
  map_checked internal last (none, w) = after_mapping (t.mapped_port internal w)

  unfoldable pub map_round : Port → Result Port × W → Verdict × (Result Port × W)
  unfolding check_target
  map_round internal (last, w) = map_checked internal last (check_target t.target w)

  abbrev with_last : Result Port → Error → Error
  with_last (err last) e = wrap "mapped port: " (joined (cons last (cons e nil)))
  with_last (ok port) e = wrap "mapped port: " e

  -- The loop for a mapped port.
  unfoldable pub map_loop :
      ℕ → ℕ → Ctx W → Port → Result Port × W → Option (Option Error × (Result Port × W))
  unfolding map_round poll
  map_loop fuel interval ctx internal s =
      poll fuel (λ v. ctx v.1) (λ v e. with_last v.0 e) (pause interval) (map_round internal) s

  abbrev after_dial : ℕ → Dial × W → Verdict × W
  after_dial interval (connected, w) = (finished none, w)
  after_dial interval (refused, w) = (again, t.target.sleep interval w)
  after_dial interval (failed e, w) = (finished (some (wrap "dial: " e)), w)

  abbrev dial_checked : Ctx W → String → Port → ℕ → Option Error × W → Verdict × W
  dial_checked ctx address port interval (some e, w) =
      (finished (some (wrap "check target: " e)), w)
  dial_checked ctx address port interval (none, w) = after_dial interval (t.dial ctx address port w)

  unfoldable pub dial_round : Ctx W → String → Port → ℕ → W → Verdict × W
  unfolding check_target
  dial_round ctx address port interval w =
      dial_checked ctx address port interval (check_target t.target w)

  -- The loop reads no context itself: the dial fails where the context is done.
  unfoldable pub external_check : ℕ → Ctx W → String → Port → ℕ → W → Option (Option Error × W)
  unfolding dial_round poll
  external_check fuel ctx address port interval w =
      poll fuel (λ v. none) (λ v e. e) (λ v. v) (dial_round ctx address port interval) w

  abbrev exit_verdict : ℤ → Verdict
  exit_verdict (negsuc n) = again
  exit_verdict (pos n) =
      if n == 0
      then finished none
      else if n == 126
      then finished (some (sentinel "errShellNotExecutable"))
      else if n == 127
      then finished (some (sentinel "errShellNotFound"))
      else again

  abbrev exec_verdict : Result ℤ × W → Verdict × W
  exec_verdict (err e, w) = (finished (some (wrap "host port waiting failed: " e)), w)
  exec_verdict (ok code, w) = (exit_verdict code, w)

  abbrev shell : ℕ → List String
  shell port = "/bin/sh" ∷ "-c" ∷ build_internal_check_command port ∷ []

  abbrev exec_checked : Ctx W → ℕ → Option Error × W → Verdict × W
  exec_checked ctx port (some e, w) = (finished (some e), w)
  exec_checked ctx port (none, w) = exec_verdict (t.exec ctx (shell port) w)

  unfoldable pub internal_round : Ctx W → ℕ → W → Verdict × W
  unfolding check_target
  internal_round ctx port w = exec_checked ctx port (check_target t.target w)

  unfoldable pub internal_check : ℕ → Ctx W → ℕ → W → Option (Option Error × W)
  unfolding internal_round poll
  internal_check fuel ctx port w = poll fuel ctx (λ v e. e) (λ v. v) (internal_round ctx port) w

  -- A shell that cannot be run leaves the internal check aside.
  unfoldable pub judge_internal : Option Error → Option Error
  unfolding error_is
  judge_internal none = none
  judge_internal (some e) =
      if error_is e "errShellNotExecutable"
      then none
      else if error_is e "errShellNotFound"
      then none
      else some (wrap "internal check: " e)

  module _ (hp : HostPortStrategy) (fuel : ℕ) (ctx : Ctx W) where
    abbrev judged : Option (Option Error × W) → Option (Option Error × W)
    judged none = none
    judged (some (r, w)) = some (judge_internal r, w)

    abbrev check_inside : Port → W → Option (Option Error × W)
    check_inside internal w =
        if hp.skip_internal_check
        then some (none, w)
        else judged (internal_check fuel ctx internal.num w)

    abbrev after_external : Port → Option (Option Error × W) → Option (Option Error × W)
    after_external internal none = none
    after_external internal (some (some e, w)) = some (some (wrap "external check: " e), w)
    after_external internal (some (none, w)) = check_inside internal w

    abbrev dial_host : Port → Port → Result String × W → Option (Option Error × W)
    dial_host internal port (err e, w) = some (some (wrap "host: " e), w)
    dial_host internal port (ok address, w) =
        after_external internal (external_check fuel ctx address port hp.poll_interval w)

    abbrev check_outside : Port → Port → W → Option (Option Error × W)
    check_outside internal port w =
        if hp.skip_external_check
        then check_inside internal w
        else dial_host internal port (t.host w)

    abbrev after_map : Port → Option (Option Error × (Result Port × W)) → Option (Option Error × W)
    after_map internal none = none
    after_map internal (some (some e, (last, w))) = some (some e, w)
    after_map internal (some (none, (err e, w))) = some (none, w)
    after_map internal (some (none, (ok port, w))) = check_outside internal port w

    abbrev after_first_mapping : Port → Result Port × W → Option (Option Error × W)
    after_first_mapping internal (ok port, w) = check_outside internal port w
    after_first_mapping internal (err e, w) =
        after_map internal (map_loop fuel hp.poll_interval ctx internal (err e, w))

    abbrev wait_for_port : Port → W → Option (Option Error × W)
    wait_for_port internal w = after_first_mapping internal (t.mapped_port internal w)

    abbrev after_detect : Option (Option Error × (Option Port × W)) → Option (Option Error × W)
    after_detect none = none
    after_detect (some (some e, (p, w))) = some (some e, w)
    after_detect (some (none, (none, w))) = some (none, w)
    after_detect (some (none, (some port, w))) = wait_for_port port w

    abbrev after_first_detection : Result (Option Port) × W → Option (Option Error × W)
    after_first_detection (err e, w) = some (some (wrap "detect internal port: " e), w)
    after_first_detection (ok (some port), w) = wait_for_port port w
    after_first_detection (ok none, w) =
        after_detect (detect_loop fuel hp.poll_interval ctx (none, w))

    abbrev wait_from : Option Port → W → Option (Option Error × W)
    wait_from (some port) w = wait_for_port port w
    wait_from none w = after_first_detection (detect_internal_port w)

  -- `(hp *HostPortStrategy) WaitUntilReady`
  unfoldable pub host_port_wait : HostPortStrategy → ℕ → Ctx W → W → Option (Option Error × W)
  unfolding detect_internal_port detect_loop map_loop external_check internal_check judge_internal
  host_port_wait hp fuel ctx w =
      wait_from hp fuel (with_timeout t.target (timeout_or_default hp.timeout) ctx w) hp.port w
