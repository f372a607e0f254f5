-- ===== src/Wait/HostPort/Returns.antt =====
-- A port wait returns.
use docker_go_sdk.Common.{
  ℕ, suc, ◌+◌, ◌≤◌, ◌<◌, String, ◌≡◌, refl, ◌≢◌, inl, inr, Option, none, some, List, arith,
  Bool-cases, Option-cases, leb,
}
use docker_go_sdk.Common.Int.{ℤ}
use docker_go_sdk.Container.Endpoints.{Port}
use docker_go_sdk.GoError.{Error, wrap, Result, ok, err}
use docker_go_sdk.Wait.HostPort.{
  PortTarget, Dial, connected, refused, failed, detected, detect_internal_port, detect_round,
  detect_loop, after_detection, detect_checked, map_round, map_loop, after_mapping, map_checked,
  dial_round, external_check, after_dial, dial_checked, internal_round, internal_check,
  exec_verdict, exec_checked, shell, pause, with_last,
}
use docker_go_sdk.Wait.Log.Laws.{now-check_target}
use docker_go_sdk.Wait.Poll.{again}
use docker_go_sdk.Wait.Poll.Laws.{Returns, poll_returns, poll_returns_by_body, with_timeout_ends}
use docker_go_sdk.Wait.Target.{Timely, Ctx, with_timeout, check_target}

-- The clock of the other calls: none runs backwards, an exec takes time, and a dial under a context that
-- is done does not end as a refused connection.
pub record PortTimely {W : Type 0} (t : PortTarget W) : Type 0 where
  pub timely : Timely t.target
  pub now-inspect : (v : W) → t.target.now v ≤ t.target.now (t.inspect_ports v).1
  pub now-mapped : (port : Port) (v : W) → t.target.now v ≤ t.target.now (t.mapped_port port v).1
  pub now-dial :
      (ctx : Ctx W) (address : String) (port : Port) (v : W)
      → t.target.now v ≤ t.target.now (t.dial ctx address port v).1
  pub now-exec :
      (ctx : Ctx W) (cmd : List String) (v : W) → t.target.now v < t.target.now (t.exec ctx cmd v).1
  pub dial-done :
      (ctx : Ctx W) (address : String) (port : Port) (v : W)
      → ctx v ≢ none
      → (t.dial ctx address port v).0 ≢ refused

module _ {W : Type 0} (t : PortTarget W) (timed : PortTimely t) where
  abbrev now : W → ℕ
  now v = t.target.now v

  -- No step of a loop's round turns the clock back.
  after_detection-now : (r : Result (Option Port) × W) → now (after_detection t r).1.1 ≡ now r.1
  after_detection-now (err e, w) = refl
  after_detection-now (ok none, w) = refl
  after_detection-now (ok (some port), w) = refl

  detected-now : (r : Result (List Port) × W) → now (detected t r).1 ≡ now r.1
  detected-now (err e, w) = refl
  detected-now (ok ports, w) = refl

  detect_checked-now : (r : Option Error × W) → now r.1 ≤ now (detect_checked t r).1.1
  unfolding detect_internal_port
  detect_checked-now (some e, w) = omega arith
  detect_checked-now (none, w) = omega (
    arith,
    after_detection-now (detect_internal_port t w),
    detected-now (t.inspect_ports w),
    timed.now-inspect w,
  )

  detect_progress :
      (interval : ℕ) (s : Option Port × W)
      → 0 < interval
      → now s.1 < now (detect_round t (pause t interval s)).1.1
  unfolding detect_round
  detect_progress interval (p, w) h = omega (
    arith,
    timed.timely.now-sleep interval w,
    now-check_target t.target timed.timely (t.target.sleep interval w),
    detect_checked-now (check_target t.target (t.target.sleep interval w)),
  )

  after_mapping-now : (r : Result Port × W) → now (after_mapping t r).1.1 ≡ now r.1
  after_mapping-now (err e, w) = refl
  after_mapping-now (ok port, w) = refl

  map_checked-now :
      (internal : Port) (last : Result Port) (r : Option Error × W)
      → now r.1 ≤ now (map_checked t internal last r).1.1
  map_checked-now internal last (some e, w) = omega arith
  map_checked-now internal last (none, w) =
      omega (arith, after_mapping-now (t.mapped_port internal w), timed.now-mapped internal w)

  map_progress :
      (interval : ℕ) (internal : Port) (s : Result Port × W)
      → 0 < interval
      → now s.1 < now (map_round t internal (pause t interval s)).1.1
  unfolding map_round
  map_progress interval internal (last, w) h = omega (
    arith,
    timed.timely.now-sleep interval w,
    now-check_target t.target timed.timely (t.target.sleep interval w),
    map_checked-now internal last (check_target t.target (t.target.sleep interval w)),
  )

  exec_verdict-now : (r : Result ℤ × W) → now (exec_verdict t r).1 ≡ now r.1
  exec_verdict-now (err e, w) = refl
  exec_verdict-now (ok code, w) = refl

  exec_checked-now :
      (ctx : Ctx W) (port : ℕ) (r : Option Error × W)
      → (exec_checked t ctx port r).0 ≡ again
      → now r.1 < now (exec_checked t ctx port r).1
  exec_checked-now ctx port (some e, w) more = absurd (cc more)
  exec_checked-now ctx port (none, w) more =
      omega
        (arith, exec_verdict-now (t.exec ctx (shell t port) w), timed.now-exec ctx (shell t port) w)

  internal_progress :
      (ctx : Ctx W) (port : ℕ) (w : W)
      → (internal_round t ctx port w).0 ≡ again
      → now w < now (internal_round t ctx port w).1
  unfolding internal_round
  internal_progress ctx port w more = omega (
    arith,
    now-check_target t.target timed.timely w,
    exec_checked-now ctx port (check_target t.target w) more,
  )

  -- A refused dial shows that the context was not done, and the pause behind it takes time.
  after_dial-now :
      (interval : ℕ) (r : Dial × W)
      → 0 < interval
      → (after_dial t interval r).0 ≡ again
      → (r.0 ≡ refused) × (now r.1 < now (after_dial t interval r).1)
  after_dial-now interval (connected, w) h more = absurd (cc more)
  after_dial-now interval (refused, w) h more =
      (refl, omega (arith, timed.timely.now-sleep interval w))
  after_dial-now interval (failed e, w) h more = absurd (cc more)

  dial_checked-now :
      (ctx : Ctx W) (address : String) (port : Port) (interval : ℕ) (r : Option Error × W)
      → 0 < interval
      → (dial_checked t ctx address port interval r).0 ≡ again
      → (ctx r.1 ≡ none) × (now r.1 < now (dial_checked t ctx address port interval r).1)
  dial_checked-now ctx address port interval (some e, w) h more = absurd (cc more)
  dial_checked-now ctx address port interval (none, w) h more =
      let (refusal, later) = after_dial-now interval (t.dial ctx address port w) h more in
      (
        elim (Option-cases (ctx w)) [
          | inl open_ ↦ open_
          | inr (e, done) ↦ absurd (timed.dial-done ctx address port w (λ o. cc) refusal)
        ],
        omega (arith, timed.now-dial ctx address port w),
      )

  module _ (d : ℕ) (outer : Ctx W) (w0 : W) where
    abbrev bounded : Ctx W
    bounded = with_timeout t.target d outer w0

    abbrev deadline : ℕ
    deadline = now w0 + d

    dial_progress :
        (address : String) (port : Port) (interval : ℕ) (w : W)
        → 0 < interval
        → (dial_round t bounded address port interval w).0 ≡ again
        → (now w < now (dial_round t bounded address port interval w).1) × (now w < deadline)
    unfolding dial_round
    dial_progress address port interval w h more =
        let u = (check_target t.target w).1 in
        let (live, later) =
          dial_checked-now bounded address port interval (check_target t.target w) h more in
        let monotone = now-check_target t.target timed.timely w in
        (
          omega arith,
          elim (Bool-cases (leb deadline (now u))) [
            | inl late ↦ absurd (with_timeout_ends t.target d outer w0 u (ground arith) live)
            | inr early ↦ ground arith
          ],
        )

    pub detect_loop-Returns :
        (interval : ℕ) (s : Option Port × W)
        → 0 < interval
        → Returns (detect_loop t (suc deadline) interval bounded s)
    unfolding detect_loop
    detect_loop-Returns interval s h =
        poll_returns (λ v. bounded v.1) (λ v e. wrap "detect internal port: " e) (pause t interval)
          (detect_round t) (λ v. now v.1) deadline (λ v more. detect_progress interval v h)
          (λ v late.
            with_timeout_ends t.target d outer w0 (t.target.sleep interval v.1)
              (omega (arith, timed.timely.now-sleep interval v.1)))
          deadline s (omega arith)

    pub map_loop-Returns :
        (interval : ℕ) (internal : Port) (s : Result Port × W)
        → 0 < interval
        → Returns (map_loop t (suc deadline) interval bounded internal s)
    unfolding map_loop
    map_loop-Returns interval internal s h =
        poll_returns (λ v. bounded v.1) (λ v e. with_last t v.0 e) (pause t interval)
          (map_round t internal) (λ v. now v.1) deadline
          (λ v more. map_progress interval internal v h)
          (λ v late.
            with_timeout_ends t.target d outer w0 (t.target.sleep interval v.1)
              (omega (arith, timed.timely.now-sleep interval v.1)))
          deadline s (omega arith)

    pub external_check-Returns :
        (address : String) (port : Port) (interval : ℕ) (w : W)
        → 0 < interval
        → Returns (external_check t (suc deadline) bounded address port interval w)
    unfolding external_check
    external_check-Returns address port interval w h =
        poll_returns_by_body (λ v. none) (λ v e. e) (λ v. v)
          (dial_round t bounded address port interval) now deadline
          (λ v more. dial_progress address port interval v h more) deadline w (omega arith)

    pub internal_check-Returns :
        (port : ℕ) (w : W) → Returns (internal_check t (suc deadline) bounded port w)
    unfolding internal_check
    internal_check-Returns port w =
        poll_returns bounded (λ v e. e) (λ v. v) (internal_round t bounded port) now deadline
          (λ v more. internal_progress bounded port v more)
          (λ v late. with_timeout_ends t.target d outer w0 v late) deadline w (omega arith)
