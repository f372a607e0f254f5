-- ===== src/Wait/HostPort/Shell.antt =====
-- What the shell in the container has done when the internal check is passed over or succeeds.
use docker_go_sdk.Common.{
  ℕ, String, ◌≡◌, refl, sym, ap, ◌∙◌, ◌⊎◌, inl, inr, false, Option, none, some, List, ◌+◌, ◌≢◌, leb,
  str_eq, ◌==◌, ==_iff, Bool-cases,
}
use docker_go_sdk.Common.Int.{ℤ, pos, negsuc}
use docker_go_sdk.Container.Endpoints.{Port}
use docker_go_sdk.GoError.{Error, new, wrap, error_is, Result, ok, err}
use docker_go_sdk.Wait.HostPort.{
  PortTarget, shell, exit_verdict, exec_verdict, exec_checked, internal_round, internal_check,
  judge_internal,
}
use docker_go_sdk.Wait.HostPort.Laws.{internal_check_sound}
use docker_go_sdk.Wait.Poll.{finished}
use docker_go_sdk.Wait.Poll.Laws.{poll-eq-error}
use docker_go_sdk.Wait.Target.{
  ContainerState, Ctx, check_state, check_target, checked, with_timeout, deadline_exceeded,
}

-- The error is none of the two that the package keeps to itself, and wraps none of them.
abbrev pub IsForeign : Error → Type 0
IsForeign e = (error_is e "errShellNotExecutable" ≡ false) × (error_is e "errShellNotFound" ≡ false)

-- The errors of the daemon are not the package's own.
pub record PortForeign {W : Type 0} (t : PortTarget W) : Type 0 where
  pub state-IsForeign : (v v' : W) (e : Error) → t.target.state v ≡ (err e, v') → IsForeign e
  pub exec-IsForeign :
      (ctx : Ctx W) (cmd : List String) (v v' : W) (e : Error)
      → t.exec ctx cmd v ≡ (err e, v')
      → IsForeign e

-- The errors of the context are not the package's own.
abbrev pub CtxIsForeign : {W : Type 0} → Ctx W → Type 0
CtxIsForeign {W} ctx = (v : W) (e : Error) → ctx v ≡ some e → IsForeign e

deadline_exceeded-IsForeign : IsForeign deadline_exceeded
unfolding error_is
deadline_exceeded-IsForeign = (refl, refl)

wrap-IsForeign : (text : String) (e : Error) → IsForeign e → IsForeign (wrap text e)
unfolding error_is
wrap-IsForeign text e h = h

new-IsForeign : (text : String) → IsForeign (new text)
unfolding error_is
new-IsForeign text = (refl, refl)

IsForeign-eq : {e x : Error} → e ≡ x → IsForeign x → IsForeign e
IsForeign-eq h (a, b) = rw h (a, b)

module _ {W : Type 0} (t : PortTarget W) (foreign : PortForeign t) where
  pub with_timeout-CtxIsForeign :
      (d : ℕ) (ctx : Ctx W) (w : W)
      → CtxIsForeign ctx
      → CtxIsForeign (with_timeout t.target d ctx w)
  with_timeout-CtxIsForeign d ctx w outer v e h = go (ctx v) refl h
    where
      go : (o : Option Error) → ctx v ≡ o → with_timeout t.target d ctx w v ≡ some e → IsForeign e
      go (some x) same k = IsForeign-eq (cc (rw same at k)) (outer v x same)
      go none same k = elim (Bool-cases (leb (t.target.now w + d) (t.target.now v))) [
        | inl late ↦ IsForeign-eq (cc (rw (same, late) at k)) deadline_exceeded-IsForeign
        | inr early ↦ absurd (cc (rw (same, early) at k))
      ]

  check_state-IsForeign : (s : ContainerState) (e : Error) → check_state s ≡ some e → IsForeign e
  unfolding check_state
  check_state-IsForeign s e h = elim (Bool-cases s.running) [
    | inl q ↦ absurd (cc (rw q at h))
    | inr q ↦ elim (Bool-cases s.oom_killed) [
      | inl k ↦
          IsForeign-eq (cc (rw (q, k) at h))
            (new-IsForeign "container crashed with out-of-memory (OOMKilled)")
      | inr k ↦ elim (Bool-cases (str_eq s.status "exited")) [
        | inl x ↦ IsForeign-eq (cc (rw (q, k, x) at h)) (new-IsForeign "container exited with code")
        | inr x ↦
            IsForeign-eq (cc (rw (q, k, x) at h)) (new-IsForeign "unexpected container status")
      ]
    ]
  ]

  checked-IsForeign :
      (v : W) (r : Result ContainerState × W) (e : Error) (u : W)
      → t.target.state v ≡ r
      → checked r ≡ (some e, u)
      → IsForeign e
  checked-IsForeign v (ok s, u') e u same h = check_state-IsForeign s e (ap (λ x. x.0) h)
  checked-IsForeign v (err x, u') e u same h =
      IsForeign-eq (some_injective (sym (ap (λ x. x.0) h)))
        (wrap-IsForeign "get state: " x (foreign.state-IsForeign v u' x same))
    where
      some_injective : {a b : Error} → some a ≡ some b → a ≡ b
      some_injective e = cc e

  check_target-IsForeign :
      (v : W) (e : Error) (u : W) → check_target t.target v ≡ (some e, u) → IsForeign e
  unfolding check_target
  check_target-IsForeign v e u h = checked-IsForeign v (t.target.state v) e u refl h

  -- The command of the check has been run in the container, with this exit code of its shell.
  abbrev pub Exits : Port → ℕ → Type 0
  Exits port code =
      (ctx : Ctx W) × (v : W) × (v' : W) × (t.exec ctx (shell t port.num) v ≡ (ok (pos code), v'))

  -- The shell has succeeded, or was not executable, or was not found.
  abbrev pub IsShellDone : Port → Type 0
  IsShellDone port = Exits port 0 ⊎ (Exits port 126 ⊎ Exits port 127)

  exit_verdict-code :
      (code : ℤ) (e : Error)
      → exit_verdict t code ≡ finished (some e)
      → (code ≡ pos 126) ⊎ (code ≡ pos 127)
  exit_verdict-code (negsuc n) e h = absurd (cc h)
  exit_verdict-code (pos n) e h = elim (Bool-cases (n == 0)) [
    | inl q ↦ absurd (cc (rw q at h))
    | inr q ↦ elim (Bool-cases (n == 126)) [
      | inl k ↦ inl (ap pos ((==_iff n 126).0 k))
      | inr k ↦ elim (Bool-cases (n == 127)) [
        | inl x ↦ inr (ap pos ((==_iff n 127).0 x))
        | inr x ↦ absurd (cc (rw (q, k, x) at h))
      ]
    ]
  ]

  -- An error of a round is from outside, or tells that the shell cannot be run.
  exec_verdict-error :
      (ctx : Ctx W) (port : Port) (v : W) (r : Result ℤ) (u : W) (e : Error) (w' : W)
      → t.exec ctx (shell t port.num) v ≡ (r, u)
      → exec_verdict t (r, u) ≡ (finished (some e), w')
      → IsForeign e ⊎ IsShellDone port
  exec_verdict-error ctx port v (err x) u e w' same h = inl (
      IsForeign-eq (cc h) (
        wrap-IsForeign "host port waiting failed: " x
          (foreign.exec-IsForeign ctx (shell t port.num) v u x same)))
  exec_verdict-error ctx port v (ok code) u e w' same h =
      elim (exit_verdict-code code e (ap (λ x. x.0) h)) [
        | inl q ↦ inr (inr (inl (ctx, v, u, same ∙ ap (λ c. (ok c, u)) q)))
        | inr q ↦ inr (inr (inr (ctx, v, u, same ∙ ap (λ c. (ok c, u)) q)))
      ]

  exec_checked-error :
      (ctx : Ctx W) (port : Port) (v : W) (answer : Option Error × W) (e : Error) (w' : W)
      → check_target t.target v ≡ answer
      → exec_checked t ctx port.num answer ≡ (finished (some e), w')
      → IsForeign e ⊎ IsShellDone port
  exec_checked-error ctx port v (some x, u) e w' same h =
      inl (IsForeign-eq (cc h) (check_target-IsForeign v x u same))
  exec_checked-error ctx port v (none, u) e w' same h =
      exec_verdict-error ctx port u (t.exec ctx (shell t port.num) u).0
        (t.exec ctx (shell t port.num) u).1 e w' refl h

  internal_check-error :
      (fuel : ℕ) (ctx : Ctx W) (port : Port) (w : W) (e : Error) (w' : W)
      → CtxIsForeign ctx
      → internal_check t fuel ctx port.num w ≡ some (some e, w')
      → IsForeign e ⊎ IsShellDone port
  unfolding internal_check internal_round
  internal_check-error fuel ctx port w e w' outer h =
      let (v, cause) =
        poll-eq-error ctx (λ v e. e) (λ v. v) (internal_round t ctx port.num) fuel w h in
      elim cause [
        | inl (x, done, same) ↦ inl (IsForeign-eq same (outer v x done))
        | inr last ↦ exec_checked-error ctx port v (check_target t.target v) e w' refl last
      ]

  judge_internal-foreign : (e : Error) → IsForeign e → judge_internal t (some e) ≢ none
  unfolding judge_internal
  judge_internal-foreign e (a, b) h = absurd (cc (rw (a, b) at h))

  -- The internal check is passed over, or succeeds, only by the shell's exit code.
  pub internal_check-IsShellDone :
      (fuel : ℕ) (ctx : Ctx W) (port : Port) (w : W) (r : Option Error) (w' : W)
      → CtxIsForeign ctx
      → internal_check t fuel ctx port.num w ≡ some (r, w')
      → judge_internal t r ≡ none
      → IsShellDone port
  internal_check-IsShellDone fuel ctx port w none w' outer h j =
      inl (internal_check_sound t fuel ctx port w w' h)
  internal_check-IsShellDone fuel ctx port w (some e) w' outer h j =
      elim (internal_check-error fuel ctx port w e w' outer h) [
        | inl far ↦ absurd (judge_internal-foreign e far j)
        | inr done ↦ done
      ]
