-- ===== src/Container/Create/Launch.antt =====
-- container/container.run.go: the creation of a container from its definition, and its start; the hooks
-- that `Run` adds by default, and container/image_substitutors.go. The Docker client is given: that
-- `Run` makes one where there is none is not modelled. A container hook receives the container;
-- here the hooks are built with its ID, which they read from it.
pub mod Laws
pub mod Images
pub mod Substitutors
pub mod Steps
unfoldable pub use Substitutors.*
use Prim.Native.String
use mathlib.Core.List.{map}
use docker_go_sdk.Common.{
  ℕ, zero, suc, String, Bool, true, false, Option, none, some, List, [], ◌∷◌, ◌++◌,
}
use docker_go_sdk.Common.Dict.{Dict, lookup, insert}
use docker_go_sdk.Config.Registry.{}
use docker_go_sdk.Container.Create.{
  ContainerConfig, CreateOptions, Client, Creating, pull_hook, pre_create_container_hook,
  aliases_of,
}
use docker_go_sdk.Container.Definition.{Definition, define}
use docker_go_sdk.Container.Files.{File, Copier, copy_files}
use docker_go_sdk.Container.Host.{empty_host_config, EndpointSettings}
use docker_go_sdk.Container.Operations.{
  Daemon, State, Container, ◌>>◌, returning, call, set_running, created_hook, start,
}
use docker_go_sdk.GoError.{Error, wrap, wrapped, Result, ok, err}
use docker_go_sdk.Lifecycle.{
  Hook, LifecycleHooks, no_hooks, combine_container_hooks, and_then, apply_definition_hooks,
  apply_lifecycle_hooks,
}
use docker_go_sdk.Wait.{Strategy}

-- `resp.ID[:12]`, for an ID that is long enough, as those of the daemon are.
unfoldable pub prefix_of : ℕ → String → String
prefix_of zero id = String.[]
prefix_of (suc n) String.[] = String.[]
prefix_of (suc n) (String.◌∷◌ c id) = String.◌∷◌ c (prefix_of n id)

abbrev pub module_label : String
module_label = "com.docker.sdk.container"

abbrev pub version : String
version = "0.1.0-alpha016"

-- What `Run` uses besides the calls of the client.
pub record Runtime (W H L : Type 0) : Type 0 where
  pub client : Client W
  pub daemon : Daemon W
  pub copier : Copier W
  -- `NetworkMode.IsContainer`
  pub is_container : String → Bool
  -- `strategy.WaitUntilReady`, for the container with the ID
  pub wait_until_ready : Strategy L → String → Hook W

module _ {W H L : Type 0} (r : Runtime W H L) where
  abbrev pub Hooks : Type 0
  Hooks = LifecycleHooks (Creating W H L) (State W)

  -- A hook that only writes to the logger.
  abbrev log_only : {S : Type 0} → Hook S
  log_only s = (none, s)

  abbrev pub default_logging_hook : Hooks
  default_logging_hook = record {
    pre_creates = log_only ∷ [];
    post_creates = log_only ∷ [];
    pre_starts = log_only ∷ [];
    post_starts = log_only ∷ [];
    post_readies = log_only ∷ [];
    pre_stops = log_only ∷ [];
    post_stops = log_only ∷ [];
    pre_terminates = log_only ∷ [];
    post_terminates = log_only ∷ [];
  }

  abbrev pub default_pre_create_hook : Hooks
  default_pre_create_hook = record no_hooks {
    pre_creates = pre_create_container_hook r.client r.is_container ∷ [];
  }

  abbrev pub default_copy_file_to_container_hook : String → List File → Hooks
  default_copy_file_to_container_hook id files = record no_hooks {
    post_creates = call (copy_files r.copier id files) ∷ [];
  }

  abbrev wait_if_given : Option (Strategy L) → String → Hook (State W)
  wait_if_given none id s = (none, s)
  wait_if_given (some strategy) id s = call (r.wait_until_ready strategy id) s

  abbrev pub default_readiness_hook : String → Option (Strategy L) → Hooks
  default_readiness_hook id waiting_for = record no_hooks {
    post_starts =
        (returning "wait until ready: " (wait_if_given waiting_for id) >> set_running true) ∷ [];
  }

  -- The hooks of the container: those by default and the definition's, combined. The files are those
  -- before the creating hooks, the strategy is the one that the container gets.
  unfoldable pub hooks_of :
      (H → String → Hooks) → List H → String → List File → Option (Strategy L) → Hooks
  unfolding combine_container_hooks copy_files pull_hook pre_create_container_hook
  hooks_of hooks_for user_hooks id files waiting_for =
      combine_container_hooks (pull_hook r.client ∷ [])
        (default_logging_hook
          ∷ default_pre_create_hook
          ∷ default_copy_file_to_container_hook id files
          ∷ default_readiness_hook id waiting_for
          ∷ [])
        (map (λ h. hooks_for h id) user_hooks)

  abbrev env_entries : Dict String → List String
  env_entries env = map (λ entry. String.◌++◌ entry.0 (String.◌++◌ "=" entry.1)) env

  abbrev pub input_of : Definition H File L ContainerConfig → ContainerConfig
  input_of d = record {
    entrypoint = d.entrypoint;
    image = d.image;
    env = env_entries d.env;
    labels = d.labels;
    cmd = d.cmd;
    exposed_ports = [];
  }

  unfoldable pub labelled :
      Definition H File L ContainerConfig → Definition H File L ContainerConfig
  unfolding insert
  labelled d = record d { labels = insert module_label version d.labels }

  abbrev pub new_creating : Definition H File L ContainerConfig → W → Creating W H L
  new_creating d w = record {
    world = w;
    def = d;
    input = input_of d;
    host = empty_host_config;
    endpoints = [];
  }

  -- `(def *Definition) creatingHook`, for the hooks that `Run` has combined.
  unfoldable pub creating_hook : Hooks → Hook (Creating W H L)
  unfolding apply_lifecycle_hooks apply_definition_hooks
  creating_hook hooks =
      apply_lifecycle_hooks (λ h. apply_definition_hooks h.pre_creates) (hooks ∷ [])

  abbrev pub create_options : Creating W H L → CreateOptions
  create_options s = record {
    config = s.input;
    host_config = s.host;
    endpoints = s.endpoints;
    platform = s.def.platform;
    name = s.def.name;
  }

  abbrev pub extra_settings : String → Dict (List String) → EndpointSettings
  extra_settings n aliases = record { aliases = aliases_of n aliases; network_id = "" }

  abbrev connect_to : String → EndpointSettings → Result String × W → Option Error × W
  connect_to id settings (err e, w) = (some (wrap "network inspect: " e), w)
  connect_to id settings (ok network, w) =
      let (e, w') = r.client.network_connect network id settings w in
      (wrapped "network connect: " e, w')

  -- The loop over the networks behind the first.
  unfoldable pub connect_networks : String → Dict (List String) → List String → Hook W
  unfolding lookup
  connect_networks id aliases [] w = (none, w)
  connect_networks id aliases (n ∷ networks) w =
      and_then (connect_to id (extra_settings n aliases) (r.client.network_inspect n w))
        (connect_networks id aliases networks)

  abbrev pub behind_first : List String → List String
  behind_first [] = []
  behind_first (n ∷ networks) = networks

  abbrev start_if : Bool → Container (Creating W H L) W → Hook (State W)
  start_if false ctr s = (none, s)
  start_if true ctr s = returning "start container: " (start r.daemon ctr) s

  -- What `Run` does with the container that has been created.
  unfoldable pub finish :
      Definition H File L ContainerConfig → Container (Creating W H L) W → Hook (State W)
  unfolding connect_networks
  finish d ctr = do
    call (connect_networks ctr.container_id d.network_aliases (behind_first d.networks))
    returning "created hook: " (created_hook r.daemon ctr)
    start_if d.started ctr

  -- What `Run` returns, a container and an error, with the state that it leaves.
  abbrev pub Launched : Type 0
  Launched = (Option (Container (Creating W H L) W) × Option Error) × State W

  abbrev failed : Error → W → Launched
  failed e w = ((none, some e), record { world = w; is_running = false })

  abbrev with_container : Container (Creating W H L) W → Option Error × State W → Launched
  with_container ctr (e, s) = ((some ctr, e), s)

  abbrev pub container_of :
      (String → Option (Strategy L) → Hooks)
      → Creating W H L
      → String
      → Container (Creating W H L) W
  container_of hooks s id = record {
    container_id = id;
    short_id = prefix_of 12 id;
    image = s.def.image;
    exposed_ports = s.def.exposed_ports;
    lifecycle_hooks = hooks id s.def.waiting_for ∷ [];
  }

  abbrev created :
      (String → Option (Strategy L) → Hooks) → Creating W H L → Result String × W → Launched
  created hooks s (err e, w) = failed (wrap "container create: " e) w
  created hooks s (ok id, w) =
      let ctr = container_of hooks s id in
      with_container ctr (finish s.def ctr (record { world = w; is_running = false }))

  abbrev pub with_image : String → Creating W H L → Creating W H L
  with_image image s = record s {
    def = record s.def { image = image };
    input = record s.input { image = image };
  }

  abbrev substituted :
      (String → Option (Strategy L) → Hooks) → Creating W H L → Result String → Launched
  substituted hooks s (err e) = failed e s.world
  substituted hooks s (ok image) =
      let s' = with_image image s in
      created hooks s' (r.client.container_create (create_options s') s'.world)

  abbrev after_creating :
      (String → Option (Strategy L) → Hooks) → Option Error × Creating W H L → Launched
  after_creating hooks (some e, s) = failed e s.world
  after_creating hooks (none, s) =
      substituted hooks s (substitute_all s.def.image_substitutors s.def.image)

  module _ (hooks_for : H → String → Hooks) where
    -- The hooks for a container, of the definition as it is before the creating hooks.
    abbrev pub hooks_with :
        Definition H File L ContainerConfig → String → Option (Strategy L) → Hooks
    hooks_with d id waiting_for = hooks_of hooks_for d.lifecycle_hooks id d.files waiting_for

    -- `Run`, behind the validation of the definition.
    unfoldable pub launch : Definition H File L ContainerConfig → W → Launched
    unfolding hooks_of creating_hook substitute_all finish prefix_of labelled
    launch d w =
        after_creating (hooks_with d)
          (creating_hook (hooks_with d "" d.waiting_for) (new_creating (labelled d) w))

    abbrev launch_defined : Result (Definition H File L ContainerConfig) → W → Launched
    launch_defined (err e) w = failed e w
    launch_defined (ok d) w = launch d w

    -- `Run`
    unfoldable pub run : List (Hook (Definition H File L ContainerConfig)) → W → Launched
    unfolding define
    run opts w = launch_defined (define opts) w
