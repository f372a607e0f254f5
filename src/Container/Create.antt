-- ===== src/Container/Create.antt =====
-- container/lifecycle.create.go and the pull hook of container/lifecycle.go: the default hooks that run
-- before a container is created. The values of the Docker API are modelled as far as they are
-- written. A definition hook that replaces the definition's own lifecycle hooks is not modelled.
pub mod Launch
pub mod Pull
mod Tests
use docker_go_sdk.Common.{
  String, Bool, true, false, not, ◌&&◌, ◌||◌, Option, none, some, List, [], ◌∷◌, str_eq,
  if◌then◌else◌,
}
use docker_go_sdk.Common.Bytes.{is_some}
use docker_go_sdk.Common.Dict.{Dict, lookup, insert}
use docker_go_sdk.Container.Definition.{Definition}
use docker_go_sdk.Container.Files.{File}
use docker_go_sdk.Container.Host.{HostConfig, EndpointSettings, Platform}
use docker_go_sdk.Container.Ports.{PortBinding, PortMap, merge_port_bindings}
use docker_go_sdk.GoError.{Error, wrap, wrapped, Result, ok, err}
use docker_go_sdk.GoError.Action.{Action}
use docker_go_sdk.Lifecycle.{Hook}

-- `container.Config`
pub record ContainerConfig : Type 0 where
  pub entrypoint : List String
  pub image : String
  pub env : List String
  pub labels : Dict String
  pub cmd : List String
  pub exposed_ports : List String

-- `ContainerCreateOptions`
pub record CreateOptions : Type 0 where
  pub config : ContainerConfig
  pub host_config : HostConfig
  pub endpoints : Dict EndpointSettings
  pub platform : Option Platform
  pub name : String

-- The calls of the Docker client, of the image package and of the parsers.
pub record Client (W : Type 0) : Type 0 where
  -- the network's ID
  pub network_inspect : String → Action W String
  -- the network's ID, the container's ID and the settings
  pub network_connect : String → String → EndpointSettings → Hook W
  -- the image's system and architecture
  pub image_inspect : String → Action W Platform
  pub is_not_found : Error → Bool
  -- `image.Pull` with the pull options of the definition and these platforms
  pub pull : String → List Platform → Hook W
  -- the container's ID
  pub container_create : CreateOptions → Action W String
  pub parse_platform : String → Result Platform
  -- `nat.ParsePortSpecs`: the ports and the bindings of each
  pub parse_specs : List String → Result (List String × PortMap)
  pub parse_port : String → Result String
  -- `netip.ParseAddr`, of the text that is not empty
  pub parse_addr : String → Result String

-- What the hooks before the creation can change: the world, the definition, and what the default
-- hook fills in for the daemon.
pub record Creating (W H L : Type 0) : Type 0 where
  pub world : W
  pub def : Definition H File L ContainerConfig
  pub input : ContainerConfig
  pub host : HostConfig
  pub endpoints : Dict EndpointSettings

-- `img.Architecture != platform.Architecture || img.Os != platform.OS`
abbrev pub differs : Option Platform → Platform → Bool
differs none img = false
differs (some p) img = not (str_eq img.architecture p.architecture) || not (str_eq img.os p.os)

-- Whether to pull, by the result of `ImageInspect`. After an error `img` is the zero value, which
-- does not matter, as the image is pulled then.
abbrev should_pull_by :
    {W : Type 0} → Client W → Option Platform → Result Platform × W → Result Bool × W
should_pull_by c platform (ok img, w) = (ok (differs platform img), w)
should_pull_by c platform (err e, w) = (if c.is_not_found e then ok true else err e, w)

abbrev platforms_of : Option Platform → List Platform
platforms_of none = []
platforms_of (some p) = p ∷ []

module _ {W H L : Type 0} (c : Client W) where
  abbrev pub should_pull : Definition H File L ContainerConfig → Option Platform → Action W Bool
  should_pull d platform w =
      if d.always_pull_image
      then (ok true, w)
      else should_pull_by c platform (c.image_inspect d.image w)

  abbrev pull_if : Option Platform → Result Bool × W → Hook (Creating W H L)
  pull_if platform (err e, w) s = (some e, record s { world = w })
  pull_if platform (ok false, w) s = (none, record s { world = w })
  pull_if platform (ok true, w) s =
      let (e, w') = c.pull s.def.image (platforms_of platform) w in (e, record s { world = w' })

  abbrev pull_for : Option Platform → Hook (Creating W H L)
  pull_for platform s = pull_if platform (should_pull s.def platform s.world) s

  abbrev with_platform : Result Platform → Hook (Creating W H L)
  with_platform (err e) s = (some (wrap "invalid platform: " e), s)
  with_platform (ok p) s = pull_for (some p) (record s { def = record s.def { platform = some p } })

  -- `defaultPullHook`
  unfoldable pub pull_hook : Hook (Creating W H L)
  pull_hook s =
      if str_eq s.def.image_platform ""
      then pull_for none s
      else with_platform (c.parse_platform s.def.image_platform) s

-- `list`, each element by a function that may fail.
unfoldable pub traverse : {A B : Type 0} → (A → Result B) → List A → Result (List B)
traverse f [] = ok []
traverse f (x ∷ xs) = elim (f x) [
  | err e ↦ err e
  | ok y ↦ elim (traverse f xs) [ err e ↦ err e | ok ys ↦ ok (y ∷ ys) ]
]

module _ {W : Type 0} (c : Client W) where
  abbrev with_addr : PortBinding → Result String → Result PortBinding
  with_addr b (err e) = err e
  with_addr b (ok addr) = ok (record b { host_ip = addr })

  abbrev parse_binding : PortBinding → Result PortBinding
  parse_binding b = if str_eq b.host_ip "" then ok b else with_addr b (c.parse_addr b.host_ip)

  abbrev keyed : Result String → Result (List PortBinding) → Result (String × List PortBinding)
  keyed (err e) bindings = err e
  keyed (ok port) (err e) = err e
  keyed (ok port) (ok bindings) = ok (port, bindings)

  abbrev parse_entry : String × List PortBinding → Result (String × List PortBinding)
  parse_entry (port, bindings) = keyed (c.parse_port port) (traverse parse_binding bindings)

  abbrev both_parsed : Result (List String) → Result PortMap → Result (List String × PortMap)
  both_parsed (err e) bindings = err e
  both_parsed (ok ports) (err e) = err e
  both_parsed (ok ports) (ok bindings) = ok (ports, bindings)

  abbrev parse_all : Result (List String × PortMap) → Result (List String × PortMap)
  parse_all (err e) = err e
  parse_all (ok (ports, bindings)) =
      both_parsed (traverse c.parse_port ports) (traverse parse_entry bindings)

  -- `parsePortSpecs`
  unfoldable pub parse_port_specs : List String → Result (List String × PortMap)
  unfolding traverse
  parse_port_specs exposed_ports = parse_all (c.parse_specs exposed_ports)

abbrev modified : {A : Type 0} → Option (A → A) → A → A
modified none a = a
modified (some modifier) a = modifier a

abbrev pub is_empty : {A : Type 0} → List A → Bool
is_empty [] = true
is_empty (x ∷ xs) = false

abbrev option_of : Result String → Option String
option_of (err e) = none
option_of (ok port) = some port

-- `def.networkAliases[name]`
abbrev pub aliases_of : String → Dict (List String) → List String
aliases_of name aliases = elim (lookup name aliases) [ none ↦ [] | some names ↦ names ]

module _ {W H L : Type 0} (c : Client W) where
  abbrev bind_ports : (String → Bool) → Result (List String × PortMap) → Hook (Creating W H L)
  bind_ports is_container (err e) s = (some e, s)
  bind_ports is_container (ok (ports, bindings)) s =
      let exposed = s.def.exposed_ports in
      let merged =
        merge_port_bindings (λ p. option_of (c.parse_port p)) s.host.port_bindings bindings
          exposed in
      let automatic = is_empty exposed && not (is_container s.host.network_mode) in
      (
        none,
        record s {
          input = record s.input { exposed_ports = ports };
          host = record s.host { port_bindings = if automatic then bindings else merged };
        },
      )

  -- From the call of the modifiers on; `is_container` is `NetworkMode.IsContainer`.
  abbrev modify : (String → Bool) → Dict EndpointSettings → Hook (Creating W H L)
  modify is_container endpoints s =
      let host = modified s.def.host_config_modifier s.host in
      let automatic = is_empty s.def.exposed_ports && not (is_container host.network_mode) in
      bind_ports is_container (parse_port_specs c s.def.exposed_ports) (record s {
        input = modified s.def.config_modifier s.input;
        host = if automatic then record host { publish_all_ports = true } else host;
        endpoints = modified s.def.endpoint_settings_modifier endpoints;
      })

  abbrev attach_first : (String → Bool) → String → Result String × W → Hook (Creating W H L)
  attach_first is_container name (err e, w) s =
      (some (wrap "network inspect: " e), record s { world = w })
  attach_first is_container name (ok id, w) s =
      modify is_container
        ((name, record { aliases = aliases_of name s.def.network_aliases; network_id = id }) ∷ [])
        (record s { world = w })

  abbrev create_with : (String → Bool) → List String → Hook (Creating W H L)
  create_with is_container [] s = modify is_container [] s
  create_with is_container (name ∷ rest) s =
      attach_first is_container name (c.network_inspect name s.world) s

  -- `preCreateContainerHook`
  unfoldable pub pre_create_container_hook : (String → Bool) → Hook (Creating W H L)
  unfolding parse_port_specs merge_port_bindings lookup
  pre_create_container_hook is_container s = create_with is_container s.def.networks s
