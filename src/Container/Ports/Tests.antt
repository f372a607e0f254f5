-- ===== src/Container/Ports/Tests.antt =====
-- One exposed port with a configured binding, and one without.
use docker_go_sdk.Common.{String, ◌≡◌, refl, Option, none, some, List, [], ◌∷◌, if◌then◌else◌}
use docker_go_sdk.Common.Dict.{lookup}
use docker_go_sdk.Container.Ports.{PortBinding, PortMap, merge_port_bindings}
use docker_go_sdk.Container.Ports.Laws.{exposes, last_binding, with_ports, merge_port_bindings_lem}

abbrev canonical : String → Option String
canonical port = some port

abbrev configured : PortMap
configured = ("80/tcp", record { host_ip = ""; host_port = "" } ∷ []) ∷ ("22/tcp", []) ∷ []

abbrev parsed : PortMap
parsed = ("80/tcp", []) ∷ ("53/udp", record { host_ip = ""; host_port = "5353" } ∷ []) ∷ []

abbrev exposed : List String
exposed = "80/tcp" ∷ "53/udp" ∷ []

abbrev allocated : List PortBinding
allocated = record { host_ip = ""; host_port = "0" } ∷ []

merged_run :
    lookup "80/tcp" (merge_port_bindings canonical configured parsed exposed) ≡ some allocated
unfolding lookup merge_port_bindings
merged_run = refl

hidden_test : lookup "22/tcp" (merge_port_bindings canonical configured parsed exposed) ≡ none
unfolding lookup merge_port_bindings
hidden_test = refl

merge_port_bindings_example :
    lookup "80/tcp" (merge_port_bindings canonical configured parsed exposed)
    ≡ with_ports (
        if exposes canonical "80/tcp" exposed
        then last_binding "80/tcp" configured (lookup "80/tcp" parsed)
        else lookup "80/tcp" parsed)
merge_port_bindings_example = merge_port_bindings_lem canonical configured parsed exposed "80/tcp"
