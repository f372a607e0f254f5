-- ===== src/Container/Endpoints.antt =====
-- container/ports.go and container/container.network.go: the ports and the networks that the daemon
-- reports for a container. The order of a list is the order in which Go ranges over the map. The
-- daemon, the parser of ports and the printer of addresses are parameters.
pub mod Laws
mod Tests
use Prim.Native.String
use mathlib.Core.List.{map}
use docker_go_sdk.Common.{
  ℕ, String, Bool, true, false, ◌&&◌, Option, none, some, List, [], ◌∷◌, str_eq, ltb, ◌==◌,
  if◌then◌else◌,
}
use docker_go_sdk.Common.Dict.{Dict}
use docker_go_sdk.GoError.{Error, sentinel, wrap, Result, ok, err}
use docker_go_sdk.GoError.Action.{Action}

-- `network.Port`, without its zero value.
pub record Port : Type 0 where
  pub num : ℕ
  pub proto : String

abbrev pub same_port : Port → Port → Bool
same_port p q = (p.num == q.num) && str_eq p.proto q.proto

pub record NetworkSettings : Type 0 where
  pub ip_address : String
  pub aliases : List String

-- What the daemon reports: of each binding of a port its host port.
pub record Inspection : Type 0 where
  pub network_mode : String
  pub ports : List (Port × List String)
  pub networks : Dict NetworkSettings

pub record Reporter (W : Type 0) : Type 0 where
  pub inspect : Action W Inspection
  pub host : Action W String
  pub parse_port : String → Result Port
  -- `net.JoinHostPort`, of the printed number
  pub join_host_port : String → ℕ → String

abbrev pub not_found : String → Error
not_found message = wrap message (sentinel "errdefs.ErrNotFound")

-- `lowestPort.IsZero() || port.Num() < lowestPort.Num()`
abbrev lower : Option Port → Port → Port
lower none port = port
lower (some lowest) port = if ltb port.num lowest.num then port else lowest

-- The loop for the lowest port.
unfoldable pub lowest_from : Option Port → List Port → Option Port
lowest_from lowest [] = lowest
lowest_from lowest (port ∷ ports) = lowest_from (some (lower lowest port)) ports

abbrev pub ports_of : Inspection → List Port
ports_of i = map (λ entry. entry.0) i.ports

module _ {W : Type 0} (d : Reporter W) where
  -- The loop of `MappedPort`.
  unfoldable pub find_mapped : Port → List (Port × List String) → Result Port
  find_mapped port [] = err (not_found "port not found")
  find_mapped port ((k, []) ∷ ports) = find_mapped port ports
  find_mapped port ((k, binding ∷ bindings) ∷ ports) =
      let rest = find_mapped port ports in
      if same_port k port
      then d.parse_port (String.◌++◌ binding (String.◌++◌ "/" k.proto))
      else rest

  abbrev mapped_in : Port → Result Inspection × W → Result Port × W
  mapped_in port (err e, w) = (err (wrap "inspect: " e), w)
  mapped_in port (ok i, w) =
      (if str_eq i.network_mode "host" then ok port else find_mapped port i.ports, w)

  unfoldable pub mapped_port : Port → Action W Port
  unfolding find_mapped
  mapped_port port w = mapped_in port (d.inspect w)

  abbrev with_outer : String → String → Result Port × W → Result String × W
  with_outer proto host (err e, w) = (err e, w)
  with_outer proto host (ok outer, w) =
      let host_port = d.join_host_port host outer.num in
      (
        ok (if str_eq proto "" then host_port else String.◌++◌ proto (String.◌++◌ "://" host_port)),
        w,
      )

  abbrev with_host : Port → String → Result String × W → Result String × W
  with_host port proto (err e, w) = (err e, w)
  with_host port proto (ok host, w) = with_outer proto host (mapped_port port w)

  unfoldable pub port_endpoint : Port → String → Action W String
  unfolding mapped_port
  port_endpoint port proto w = with_host port proto (d.host w)

  abbrev endpoint_of : String → Option Port → W → Result String × W
  endpoint_of proto none w = (err (not_found "no ports exposed"), w)
  endpoint_of proto (some port) w = port_endpoint port proto w

  abbrev endpoint_in : String → Result Inspection × W → Result String × W
  endpoint_in proto (err e, w) = (err e, w)
  endpoint_in proto (ok i, w) = endpoint_of proto (lowest_from none (ports_of i)) w

  unfoldable pub endpoint : String → Action W String
  unfolding lowest_from port_endpoint
  endpoint proto w = endpoint_in proto (d.inspect w)

  abbrev reported : {A : Type 0} → (Inspection → A) → Result Inspection × W → Result A × W
  reported f (err e, w) = (err e, w)
  reported f (ok i, w) = (ok (f i), w)

  -- The address of the only network; the text is empty where there is not exactly one.
  abbrev single_ip : Dict NetworkSettings → String
  single_ip ((name, settings) ∷ []) = settings.ip_address
  single_ip _ = ""

  abbrev pub container_ip : Action W String
  container_ip w = reported (λ i. single_ip i.networks) (d.inspect w)

  abbrev pub container_ips : Action W (List String)
  container_ips w = reported (λ i. map (λ n. n.1.ip_address) i.networks) (d.inspect w)

  abbrev pub reported_aliases : Action W (Dict (List String))
  reported_aliases w = reported (λ i. map (λ n. (n.0, n.1.aliases)) i.networks) (d.inspect w)

  abbrev pub reported_networks : Action W (List String)
  reported_networks w = reported (λ i. map (λ n. n.0) i.networks) (d.inspect w)
