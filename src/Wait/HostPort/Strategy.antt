-- ===== src/Wait/HostPort/Strategy.antt =====
-- container/wait/host_port.go: the strategy and its builders.
use docker_go_sdk.Common.{ℕ, Bool, true, false, Option, none, some}
use docker_go_sdk.Container.Endpoints.{Port}
use docker_go_sdk.Wait.Target.{default_poll_interval}

pub record HostPortStrategy : Type 0 where
  -- `none` is the zero port
  pub port : Option Port
  pub timeout : Option ℕ
  pub poll_interval : ℕ
  pub skip_internal_check : Bool
  pub skip_external_check : Bool

abbrev pub new_host_port_strategy : Option Port → HostPortStrategy
new_host_port_strategy port = record {
  port = port;
  timeout = none;
  poll_interval = default_poll_interval;
  skip_internal_check = false;
  skip_external_check = false;
}

abbrev pub for_listening_port : Option Port → HostPortStrategy
for_listening_port port = new_host_port_strategy port

abbrev pub for_exposed_port : HostPortStrategy
for_exposed_port = new_host_port_strategy none

abbrev pub skip_internal : HostPortStrategy → HostPortStrategy
skip_internal hp = record hp { skip_internal_check = true }

abbrev pub skip_external : HostPortStrategy → HostPortStrategy
skip_external hp = record hp { skip_external_check = true }

abbrev pub for_mapped_port : Option Port → HostPortStrategy
for_mapped_port port = skip_external (skip_internal (new_host_port_strategy port))

abbrev pub with_host_port_timeout : HostPortStrategy → ℕ → HostPortStrategy
with_host_port_timeout hp timeout = record hp { timeout = some timeout }

abbrev pub with_host_port_poll_interval : HostPortStrategy → ℕ → HostPortStrategy
with_host_port_poll_interval hp interval = record hp { poll_interval = interval }
