-- ===== src/Wait/HostPort/Laws.antt =====
-- A port wait that succeeds has seen the port mapped, and has reached it.
use mathlib.Core.Path.{subst}
use docker_go_sdk.Common.{
  ℕ, String, ◌≡◌, refl, ap, ◌∙◌, Option, none, some, List, [], ◌∷◌, Contains, sym, arith,
}
use docker_go_sdk.Common.Int.{ℤ, pos, negsuc}
use docker_go_sdk.Container.Endpoints.{Port, lowest_from}
use docker_go_sdk.Container.Endpoints.Laws.{IsLowest, lowest_from-IsLowest}
use docker_go_sdk.GoError.{Error, wrap, Result, ok, err}
use docker_go_sdk.Wait.HostPort.{
  PortTarget, Dial, detected, connected, refused, failed, detect_internal_port, detect_round,
  detect_loop, map_round, map_loop, dial_round, external_check, internal_round, internal_check,
  shell, detect_checked, map_checked, dial_checked, exit_verdict, exec_checked, pause, with_last,
}
use docker_go_sdk.Wait.Poll.{finished}
use docker_go_sdk.Wait.Poll.Laws.{poll-eq-none}
use docker_go_sdk.Wait.Target.{Ctx, check_target}

module _ {W : Type 0} (t : PortTarget W) where
  -- The daemon has reported that the port is mapped to the other.
  abbrev pub IsMapped : Port → Port → Type 0
  IsMapped internal port = (v : W) × (v' : W) × (t.mapped_port internal v ≡ (ok port, v'))

  -- A connection to the port has been opened, at some address.
  abbrev pub IsReached : Port → Type 0
  IsReached port =
      (address : String) × (ctx : Ctx W) × (v : W) × (v' : W) × (t.dial ctx address port v
        ≡ (connected, v'))

  dial_of_round :
      (ctx : Ctx W) (address : String) (port : Port) (interval : ℕ) (v w' : W)
      → (answer : Option Error × W)
      → dial_checked t ctx address port interval answer ≡ (finished none, w')
      → IsReached port
  dial_of_round ctx address port interval v w' (some e, u) h = absurd (cc h)
  dial_of_round ctx address port interval v w' (none, u) h =
      go (t.dial ctx address port u).0 (t.dial ctx address port u).1 refl h
    where
      go :
          (r : Dial) (u' : W)
          → t.dial ctx address port u ≡ (r, u')
          → dial_checked t ctx address port interval (none, u) ≡ (finished none, w')
          → IsReached port
      go connected u' e k = (address, ctx, u, u', e)
      go refused u' e k = absurd (cc (rw e at k))
      go (failed x) u' e k = absurd (cc (rw e at k))

  -- The external check succeeds only by a connection.
  pub external_check_sound :
      (fuel : ℕ) (ctx : Ctx W) (address : String) (port : Port) (interval : ℕ) (w w' : W)
      → external_check t fuel ctx address port interval w ≡ some (none, w')
      → IsReached port
  unfolding external_check dial_round
  external_check_sound fuel ctx address port interval w w' h =
      let (v, open_, last) =
        poll-eq-none (λ v. none) (λ v e. e) (λ v. v) (dial_round t ctx address port interval) fuel w
          h in
      dial_of_round ctx address port interval v w' (check_target t.target v) last

  -- The command of the check has run in the container, and its shell has exited with 0.
  abbrev pub IsListening : Port → Type 0
  IsListening port =
      (ctx : Ctx W) × (v : W) × (v' : W) × (t.exec ctx (shell t port.num) v ≡ (ok (pos 0), v'))

  exit_verdict_zero : (code : ℤ) → exit_verdict t code ≡ finished none → code ≡ pos 0
  exit_verdict_zero (pos n) h = ground arith
  exit_verdict_zero (negsuc n) h = absurd (cc h)

  exec_of_round :
      (ctx : Ctx W) (port : Port) (w' : W) (answer : Option Error × W)
      → exec_checked t ctx port.num answer ≡ (finished none, w')
      → IsListening port
  exec_of_round ctx port w' (some e, u) h = absurd (cc h)
  exec_of_round ctx port w' (none, u) h =
      go (t.exec ctx (shell t port.num) u).0 (t.exec ctx (shell t port.num) u).1 refl h
    where
      go :
          (r : Result ℤ) (u' : W)
          → t.exec ctx (shell t port.num) u ≡ (r, u')
          → exec_checked t ctx port.num (none, u) ≡ (finished none, w')
          → IsListening port
      go (ok code) u' e k = (
        ctx,
        u,
        u',
        e ∙ ap (λ c. (ok c, u')) (exit_verdict_zero code (ap (λ x. x.0) (rw e at k))),
      )
      go (err x) u' e k = absurd (cc (rw e at k))

  -- The internal check returns no error only if the shell in the container has exited with 0.
  pub internal_check_sound :
      (fuel : ℕ) (ctx : Ctx W) (port : Port) (w w' : W)
      → internal_check t fuel ctx port.num w ≡ some (none, w')
      → IsListening port
  unfolding internal_check internal_round
  internal_check_sound fuel ctx port w w' h =
      let (v, open_, last) =
        poll-eq-none ctx (λ v e. e) (λ v. v) (internal_round t ctx port.num) fuel w h in
      exec_of_round ctx port w' (check_target t.target v) last

  -- A round of the loop for a mapped port ends without an error only by a mapping.
  map_of_round :
      (internal : Port) (last : Result Port) (answer : Option Error × W) (r : Result Port) (w' : W)
      → map_checked t internal last answer ≡ (finished none, (r, w'))
      → (port : Port) × (r ≡ ok port) × IsMapped internal port
  map_of_round internal last (some e, u) r w' h = absurd (cc h)
  map_of_round internal last (none, u) r w' h =
      go (t.mapped_port internal u).0 (t.mapped_port internal u).1 refl h
    where
      go :
          (q : Result Port) (u' : W)
          → t.mapped_port internal u ≡ (q, u')
          → map_checked t internal last (none, u) ≡ (finished none, (r, w'))
          → (port : Port) × (r ≡ ok port) × IsMapped internal port
      go (ok port) u' e k = (port, cc (rw e at k), (u, u', e))
      go (err x) u' e k = absurd (cc (rw e at k))

  pub map_loop_sound :
      (fuel interval : ℕ) (ctx : Ctx W) (internal : Port) (s : Result Port × W)
      → (r : Result Port) (w' : W) → map_loop t fuel interval ctx internal s ≡ some (none, (r, w'))
      → (port : Port) × (r ≡ ok port) × IsMapped internal port
  unfolding map_loop map_round
  map_loop_sound fuel interval ctx internal s r w' h =
      let (v, open_, last) =
        poll-eq-none (λ v. ctx v.1) (λ v e. with_last t v.0 e) (pause t interval)
          (map_round t internal) fuel s h in
      map_of_round internal v.0 (check_target t.target v.1) r w' last

  -- The daemon has reported the container's ports, the port is one of them, and none has a lower number.
  abbrev pub IsDetected : Port → Type 0
  IsDetected internal =
      (v : W) × (v' : W) × (ports : List Port) × (t.inspect_ports v ≡ (ok ports, v'))
      × Contains internal ports
      × IsLowest internal ports

  lowest_from_inv :
      (ports : List Port) (internal : Port)
      → lowest_from none ports ≡ some internal
      → Contains internal ports × IsLowest internal ports
  unfolding lowest_from
  lowest_from_inv [] internal h = absurd (cc h)
  lowest_from_inv (port ∷ ports) internal h =
      let (p, e, member, least) = lowest_from-IsLowest port ports in
      let same = some_injective (sym e ∙ h) in
      (
        subst (λ q. Contains q (port ∷ ports)) same member,
        subst (λ q. IsLowest q (port ∷ ports)) same least,
      )
    where
      some_injective : {p q : Port} → some p ≡ some q → p ≡ q
      some_injective e = cc e

  pub detect_internal_port-IsDetected :
      (internal : Port) (v v' : W)
      → detect_internal_port t v ≡ (ok (some internal), v')
      → IsDetected internal
  unfolding detect_internal_port
  detect_internal_port-IsDetected internal v v' h =
      go (t.inspect_ports v).0 (t.inspect_ports v).1 refl h
    where
      go :
          (r : Result (List Port)) (u : W)
          → t.inspect_ports v ≡ (r, u)
          → detected t (t.inspect_ports v) ≡ (ok (some internal), v')
          → IsDetected internal
      go (err x) u e k = absurd (cc (rw e at k))
      go (ok ports) u e k =
          let (member, least) = lowest_from_inv ports internal (cc (rw e at k)) in
          (v, u, ports, e, member, least)

  detect_of_round :
      (answer : Option Error × W) (p : Option Port) (w' : W)
      → detect_checked t answer ≡ (finished none, (p, w'))
      → (internal : Port) × (p ≡ some internal) × IsDetected internal
  detect_of_round (some e, u) p w' h = absurd (cc h)
  detect_of_round (none, u) p w' h =
      go (detect_internal_port t u).0 (detect_internal_port t u).1 refl h
    where
      go :
          (q : Result (Option Port)) (u' : W)
          → detect_internal_port t u ≡ (q, u')
          → detect_checked t (none, u) ≡ (finished none, (p, w'))
          → (internal : Port) × (p ≡ some internal) × IsDetected internal
      go (ok (some port)) u' e k =
          (port, cc (rw e at k), detect_internal_port-IsDetected port u u' e)
      go (ok none) u' e k = absurd (cc (rw e at k))
      go (err x) u' e k = absurd (cc (rw e at k))

  pub detect_loop_sound :
      (fuel interval : ℕ) (ctx : Ctx W) (s : Option Port × W) (p : Option Port) (w' : W)
      → detect_loop t fuel interval ctx s ≡ some (none, (p, w'))
      → (internal : Port) × (p ≡ some internal) × IsDetected internal
  unfolding detect_loop detect_round
  detect_loop_sound fuel interval ctx s p w' h =
      let (v, open_, last) =
        poll-eq-none (λ v. ctx v.1) (λ v e. wrap "detect internal port: " e) (pause t interval)
          (detect_round t) fuel s h in
      detect_of_round (check_target t.target v.1) p w' last
