-- ===== src/Wait/All.antt =====
-- container/wait/all.go: the wait of a tree of strategies. The leaves are strategies of any other
-- kind, with their `Timeout` and their `WaitUntilReady` as parameters.
pub mod Laws
use docker_go_sdk.Common.{ℕ, Option, none, some}
use docker_go_sdk.GoError.{Error, new}
use docker_go_sdk.Wait.{Strategy, leaf, multi, Strategies, nil, null, cons}
use docker_go_sdk.Wait.Target.{Target, Ctx, with_timeout}

-- `ForAll`
abbrev pub for_all : {L : Type 0} → Strategies L → Strategy L
for_all strategies = multi none none strategies

-- `WithStartupTimeoutDefault` and `WithDeadline`, on a `MultiStrategy`.
abbrev pub with_startup_timeout_default : {L : Type 0} → Strategy L → ℕ → Strategy L
with_startup_timeout_default (leaf l) timeout = leaf l
with_startup_timeout_default (multi t d strategies) timeout = multi (some timeout) d strategies

abbrev pub with_deadline : {L : Type 0} → Strategy L → ℕ → Strategy L
with_deadline (leaf l) deadline = leaf l
with_deadline (multi t d strategies) deadline = multi t (some deadline) strategies

-- How a leaf waits. `Timeout` is `none` for a strategy without that method, and its value is
-- `none` where it is nil.
pub record Leaves (L W : Type 0) : Type 0 where
  pub timeout : L → Option (Option ℕ)
  pub wait : L → Ctx W → W → Option Error × W

abbrev pub limit : {W : Type 0} → Target W → Option ℕ → Ctx W → W → Ctx W
limit t none ctx w = ctx
limit t (some d) ctx w = with_timeout t d ctx w

-- `st, ok := strategy.(StrategyTimeout)` and `st.Timeout()`
abbrev pub own_timeout : {L W : Type 0} → Leaves L W → Strategy L → Option (Option ℕ)
own_timeout leaves (leaf l) = leaves.timeout l
own_timeout leaves (multi t d strategies) = some t

-- The time-out that a strategy is given: the default one, if it has the method and sets none.
abbrev pub given_timeout : Option ℕ → Option (Option ℕ) → Option ℕ
given_timeout default_ none = none
given_timeout default_ (some (some own)) = none
given_timeout default_ (some none) = default_

module _ {L W : Type 0} (t : Target W) (leaves : Leaves L W) where
  abbrev after_one : Option Error × W → (W → Option Error × W) → Option Error × W
  after_one (none, w) continue = continue w
  after_one (some e, w) continue = (some e, w)

  -- `len(ms.Strategies) == 0`; a nil entry counts.
  abbrev unless_empty : Strategies L → W → Option Error × W → Option Error × W
  unless_empty nil w waited = (some (new "no wait strategy supplied"), w)
  unless_empty _ w waited = waited

  unfoldable mutual
    -- `WaitUntilReady` of a strategy of the tree.
    pub wait_until_ready : Strategy L → Ctx W → W → Option Error × W
    wait_until_ready (leaf l) ctx w = leaves.wait l ctx w
    wait_until_ready (multi timeout deadline strategies) ctx w =
        unless_empty strategies w (wait_for_all strategies timeout (limit t deadline ctx w) w)

    -- The loop over `ms.Strategies`, in a context that the deadline limits.
    pub wait_for_all : Strategies L → Option ℕ → Ctx W → W → Option Error × W
    wait_for_all nil timeout ctx w = (none, w)
    wait_for_all (null rest) timeout ctx w = wait_for_all rest timeout ctx w
    wait_for_all (cons s rest) timeout ctx w =
        let own = given_timeout timeout (own_timeout leaves s) in
        after_one (wait_until_ready s (limit t own ctx w) w) (wait_for_all rest timeout ctx)
