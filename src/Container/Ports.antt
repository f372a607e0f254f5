-- ===== src/Container/Ports.antt =====
-- container/lifecycle.create.go: `mergePortBindings`. The parser of ports is a parameter, which gives
-- a port's canonical text, or `none` for an error. The sharing of the slices with the arguments is
-- not modelled.
pub mod Laws
mod Tests
use docker_go_sdk.Common.{
  String, Bool, true, false, Option, none, some, List, [], ◌∷◌, str_eq, if◌then◌else◌, ◌||◌,
}
use docker_go_sdk.Common.Dict.{Dict, lookup, insert}

pub record PortBinding : Type 0 where
  pub host_ip : String
  pub host_port : String

abbrev pub PortMap : Type 0
PortMap = Dict (List PortBinding)

abbrev keep_port : Option String → List String → List String
keep_port none ports = ports
keep_port (some port) ports = port ∷ ports

-- The keys of `mappedPorts`.
unfoldable pub mapped_ports : (String → Option String) → List String → List String
mapped_ports parse [] = []
mapped_ports parse (p ∷ exposed) = keep_port (parse p) (mapped_ports parse exposed)

unfoldable pub is_mapped : String → List String → Bool
is_mapped port [] = false
is_mapped port (p ∷ ports) = str_eq p port || is_mapped port ports

-- The second loop: the configured bindings of the mapped ports replace those of the exposed ones.
unfoldable pub override_mapped : List String → PortMap → PortMap → PortMap
unfolding is_mapped insert
override_mapped mapped [] exposed = exposed
override_mapped mapped ((k, v) ∷ config) exposed =
    override_mapped mapped config (if is_mapped k mapped then insert k v exposed else exposed)

abbrev pub allocate : PortBinding → PortBinding
allocate b = if str_eq b.host_port "" then record b { host_port = "0" } else b

unfoldable pub allocate_all : List PortBinding → List PortBinding
allocate_all [] = []
allocate_all (b ∷ bs) = allocate b ∷ allocate_all bs

-- The last loop.
unfoldable pub allocate_ports : PortMap → PortMap
unfolding allocate_all
allocate_ports [] = []
allocate_ports ((k, v) ∷ exposed) = (k, allocate_all v) ∷ allocate_ports exposed

unfoldable pub merge_port_bindings :
    (String → Option String) → PortMap → PortMap → List String → PortMap
unfolding mapped_ports override_mapped allocate_ports
merge_port_bindings parse config exposed exposed_ports =
    allocate_ports (override_mapped (mapped_ports parse exposed_ports) config exposed)
