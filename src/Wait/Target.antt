-- ===== src/Wait/Target.antt =====
-- container/wait/wait.go: the target of a wait strategy, the state checks and the default times,
-- and the Go contexts that bound a wait. Times are in nanoseconds.
use docker_go_sdk.Common.{
  ℕ, ◌+◌, ◌*◌, ◌^◌, ◌≤◌, String, Bool, Option, none, some, List, leb, str_eq, if◌then◌else◌,
}
use docker_go_sdk.Common.Bytes.{Bytes}
use docker_go_sdk.Common.Int.{ℤ}
use docker_go_sdk.GoError.{Error, sentinel, new, Result, ok, err, wrapped}

-- The fields of the daemon's container state that the strategies read.
pub record ContainerState : Type 0 where
  pub running : Bool
  pub oom_killed : Bool
  pub status : String
  pub exit_code : ℤ
  -- `Health.Status`, where `Health` is not nil
  pub health : Option String

-- What the strategies ask of the target and of the machine, with a world that each call may
-- change. `logs` is the call of `Logs` and the reading of the whole stream, which are handled
-- alike; `exec` returns the exit code and the output, and is given the time that its context
-- leaves.
pub record Target (W : Type 0) : Type 0 where
  pub now : W → ℕ
  pub sleep : ℕ → W → W
  pub state : W → Result ContainerState × W
  pub logs : W → Result Bytes × W
  pub exec : List String → ℕ → W → Result (ℤ × Bytes) × W
  pub copy_from_container : String → W → Result Bytes × W

-- The clock does not run backwards, and a sleep takes its time.
pub record Timely {W : Type 0} (t : Target W) : Type 0 where
  pub now-sleep : (d : ℕ) (w : W) → t.now w + d ≤ t.now (t.sleep d w)
  pub now-state : (w : W) → t.now w ≤ t.now (t.state w).1
  pub now-logs : (w : W) → t.now w ≤ t.now (t.logs w).1
  pub now-exec : (cmd : List String) (d : ℕ) (w : W) → t.now w ≤ t.now (t.exec cmd d w).1
  pub now-copy : (file : String) (w : W) → t.now w ≤ t.now (t.copy_from_container file w).1

-- A context: `ctx.Err()`, which is nil while the context is not done.
abbrev pub Ctx : Type 0 → Type 0
Ctx W = W → Option Error

abbrev pub deadline_exceeded : Error
deadline_exceeded = sentinel "context deadline exceeded"

abbrev pub or_else : Option Error → Option Error → Option Error
or_else (some e) other = some e
or_else none other = other

-- `context.WithTimeout(ctx, d)`, called in the world `w`.
abbrev pub with_timeout : {W : Type 0} → Target W → ℕ → Ctx W → W → Ctx W
with_timeout t d ctx w w' =
    or_else (ctx w') (if leb (t.now w + d) (t.now w') then some deadline_exceeded else none)

abbrev pub default_timeout : ℕ
default_timeout = 60 * 10 ^ 9

abbrev pub default_poll_interval : ℕ
default_poll_interval = 100 * 10 ^ 6

-- The time-out of a strategy, where none is set.
abbrev pub timeout_or_default : Option ℕ → ℕ
timeout_or_default none = default_timeout
timeout_or_default (some d) = d

unfoldable pub check_state : ContainerState → Option Error
check_state s =
    if s.running
    then none
    else if s.oom_killed
    then some (new "container crashed with out-of-memory (OOMKilled)")
    else if str_eq s.status "exited"
    then some (new "container exited with code")
    else some (new "unexpected container status")

abbrev pub checked : {W : Type 0} → Result ContainerState × W → Option Error × W
checked (ok s, w) = (check_state s, w)
checked (err e, w) = (wrapped "get state: " (some e), w)

unfoldable pub check_target : {W : Type 0} → Target W → W → Option Error × W
unfolding check_state
check_target t w = checked (t.state w)
