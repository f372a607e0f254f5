-- ===== src/Wait/Poll.antt =====
-- The loops of the wait strategies, `for { select { case <-ctx.Done(): … } }`, on fuel: `none`
-- means that the fuel ran out. Where the context and the timer are ready at once, Go chooses
-- either; the model chooses the context.
pub mod Laws
use docker_go_sdk.Common.{ℕ, zero, suc, Option, none, some}
use docker_go_sdk.GoError.{Error}
use docker_go_sdk.Wait.Target.{Ctx}

-- How a round ends.
pub data Verdict : Type 0 where
  again : Verdict
  finished : Option Error → Verdict

module _ {S : Type 0} where
  -- `before` is the wait of a `case <-time.After(…)`, and does nothing under `default`; `stopped`
  -- is what is returned for a context that is done, from its error.
  unfoldable pub poll :
      ℕ
      → (S → Option Error)
      → (S → Error → Error)
      → (S → S)
      → (S → Verdict × S)
      → S
      → Option (Option Error × S)
  poll zero ctx stopped before body s = none
  poll (suc fuel) ctx stopped before body s = elim (ctx (before s)) [
    | some e ↦ some (some (stopped (before s) e), before s)
    | none ↦ elim (body (before s)).0 [
      | finished r ↦ some (r, (body (before s)).1)
      | again ↦ poll fuel ctx stopped before body (body (before s)).1
    ]
  ]
