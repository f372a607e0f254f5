-- ===== src/Container/Host.antt =====
-- The values of the Docker API that a container's definition changes, as far as the package
-- container reads or writes them, and the substitutors of container/image_substitutors.go.
use docker_go_sdk.Common.{String, Bool, false, List, []}
use docker_go_sdk.Common.Bytes.{Bytes}
use docker_go_sdk.Container.Ports.{PortMap}
use docker_go_sdk.GoError.{Result}

-- `container.HostConfig`
pub record HostConfig : Type 0 where
  pub binds : List Bytes
  pub network_mode : String
  pub publish_all_ports : Bool
  pub port_bindings : PortMap

abbrev pub empty_host_config : HostConfig
empty_host_config = record {
  binds = [];
  network_mode = "";
  publish_all_ports = false;
  port_bindings = [];
}

-- `network.EndpointSettings`
pub record EndpointSettings : Type 0 where
  pub aliases : List String
  pub network_id : String

-- `platforms.Platform`
pub record Platform : Type 0 where
  pub os : String
  pub architecture : String

-- `ImageSubstitutor`, without its description.
pub record ImageSubstitutor : Type 0 where
  pub substitute : String → Result String
