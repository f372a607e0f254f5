-- ===== src/Wait.antt =====
-- The package container/wait: the tree of wait strategies.
-- A strategy that is not a `MultiStrategy` is a leaf of the type `L`.
pub mod Walk
pub mod Target
pub mod Clock
pub mod Poll
pub mod Health
pub mod Log
pub mod All
pub mod Exit
pub mod Exec
pub mod HostPort
pub mod Http
mod Tests
use docker_go_sdk.Common.{ℕ, Option}

mutual
  pub data Strategy (L : Type 0) : Type 0 where
    leaf : L → Strategy L
    -- `timeout`, `deadline` and `Strategies` of a `MultiStrategy`; durations are in nanoseconds.
    multi : Option ℕ → Option ℕ → Strategies L → Strategy L

  pub data Strategies (L : Type 0) : Type 0 where
    nil : Strategies L
    -- A nil entry. An entry with a nil pointer in it, which a walk visits and the wait of all.go skips,
    -- is not modelled.
    null : Strategies L → Strategies L
    cons : Strategy L → Strategies L → Strategies L
