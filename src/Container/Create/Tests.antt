-- ===== src/Container/Create/Tests.antt =====
-- A definition with two networks and a substitutor, and what `Run` does with it.
use docker_go_sdk.Lifecycle.{apply_container_hooks, apply_lifecycle_hooks_logged}
use docker_go_sdk.Container.Operations.{
  apply_phase, apply_phase_logged, created_hook, readied_hook, start, started_hook, starting_hook,
}
use docker_go_sdk.GoError.{join}
use docker_go_sdk.Common.{String, ◌≡◌, refl, true, false, none, some, List, [], ◌∷◌, ◌++◌}
use docker_go_sdk.Container.Create.{ContainerConfig, Client, Creating, pull_hook}
use docker_go_sdk.Container.Create.Launch.{Runtime, Hooks, new_creating, launch, connect_networks}
use docker_go_sdk.Container.Create.Launch.Images.{IsPulledThenCreated, launch-images}
use docker_go_sdk.Container.Create.Launch.Steps.{IsSubstituted}
use docker_go_sdk.Container.Create.Launch.Laws.{
  NetworkJournal, connections, connect_networks-journal, IsLaunched, launch_sound,
}
use docker_go_sdk.Container.Create.Pull.{
  ImageEvent, pulled, created, ImageJournal, pull_hook-journal,
}
use docker_go_sdk.Container.Definition.{Definition, new_definition}
use docker_go_sdk.Container.Files.{File, Copier, regular}
use docker_go_sdk.Container.Host.{EndpointSettings}
use docker_go_sdk.Container.Operations.{Daemon, Container}
use docker_go_sdk.GoError.{ok}
use docker_go_sdk.Lifecycle.{no_hooks}

abbrev World : Type 0
World = List ImageEvent × List (String × String × EndpointSettings)

abbrev client : Client World
client = record {
  network_inspect = λ n w. (ok n, w);
  network_connect = λ network id settings w. (none, (w.0, w.1 ++ (network, id, settings) ∷ []));
  image_inspect = λ image w. (ok (record { os = "linux"; architecture = "arm64" }), w);
  is_not_found = λ e. false;
  pull = λ image platforms w. (none, (w.0 ++ pulled image ∷ [], w.1));
  container_create =
      λ options w. (ok "0123456789abcdef", (w.0 ++ created options.config.image ∷ [], w.1));
  parse_platform = λ text. ok (record { os = "linux"; architecture = "amd64" });
  parse_specs = λ ports. ok ([], []);
  parse_port = λ port. ok port;
  parse_addr = λ addr. ok addr;
}

abbrev daemon : Daemon World
daemon = record {
  container_start = λ id w. (none, w);
  container_stop = λ id timeout w. (none, w);
  container_remove = λ id volumes force w. (none, w);
  volume_remove = λ volume force w. (none, w);
  close = λ w. w;
  print_logs = λ id w. w;
}

abbrev copier : Copier World
copier = record {
  is_dir = λ path w. ok false;
  read_file = λ path w. ok [];
  base_name = λ path w. ok path;
  tree = λ path w. regular (ok (ok []));
  parent = λ path. path;
  archive = λ entries. ok [];
  send = λ id target content w. (none, w);
}

abbrev runtime : Runtime World Unit Unit
runtime = record {
  client = client;
  daemon = daemon;
  copier = copier;
  is_container = λ mode. false;
  wait_until_ready = λ strategy id w. (none, w);
}

abbrev image_journal : ImageJournal client
image_journal = record {
  journal = λ w. w.0;
  journal-network_inspect = λ n w. refl;
  journal-image_inspect = λ image w. refl;
  journal-pull = λ image platforms w. refl;
  journal-create = λ options w. refl;
}

abbrev network_journal : NetworkJournal runtime
network_journal = record {
  journal = λ w. w.1;
  network_id = λ n. n;
  inspect_lem = λ n w. refl;
  connect_lem = λ network id settings w. refl;
}

abbrev no_hooks_for : Unit {0} → String → Hooks runtime
no_hooks_for h id = no_hooks

abbrev plain : Definition Unit File Unit ContainerConfig
plain = record new_definition {
  image = "redis";
  image_substitutors = record { substitute = λ image. ok "hub.example/redis" } ∷ [];
  networks = "front" ∷ "back" ∷ [];
  network_aliases = ("back", "cache" ∷ []) ∷ [];
  always_pull_image = true;
}

abbrev empty_world : World
empty_world = ([], [])

abbrev wanting : Creating World Unit Unit
wanting =
    new_creating runtime
      (record plain { always_pull_image = false; image_platform = "linux/amd64" }) empty_world

pull_hook-journal_example : (pull_hook client wanting).1.world.0 ≡ [] ++ pulled "redis" ∷ []
pull_hook-journal_example = pull_hook-journal client image_journal wanting

connect_networks-journal_example :
    (connect_networks runtime "id"
      (("back", "cache" ∷ []) ∷ [])
      ("back" ∷ "side" ∷ [])
      empty_world).1.1
    ≡ [] ++ connections runtime (λ n. n) "id" (("back", "cache" ∷ []) ∷ []) ("back" ∷ "side" ∷ [])
unfolding connect_networks
connect_networks-journal_example =
    connect_networks-journal runtime network_journal "id" (("back", "cache" ∷ []) ∷ [])
      ("back" ∷ "side" ∷ []) empty_world refl

launch-images_example :
    (ctr : Container (Creating World Unit Unit) World) × (image : String) × ((launch runtime
        no_hooks_for plain empty_world).0
      ≡ (some ctr, none))
    × IsSubstituted plain.image_substitutors "redis" image
    × (ctr.image ≡ image)
    × IsPulledThenCreated runtime no_hooks_for image_journal empty_world ctr "redis" image
unfolding launch join created_hook apply_phase apply_container_hooks start starting_hook
    apply_phase_logged apply_lifecycle_hooks_logged started_hook readied_hook
launch-images_example =
    launch-images runtime no_hooks_for image_journal plain empty_world refl refl refl refl

launch_sound_example : IsLaunched runtime no_hooks_for plain empty_world
unfolding launch join created_hook apply_phase apply_container_hooks start starting_hook
    apply_phase_logged apply_lifecycle_hooks_logged started_hook readied_hook
launch_sound_example = launch_sound runtime no_hooks_for plain empty_world refl

abbrev container : Container (Creating World Unit Unit) World
container = record {
  container_id = "0123456789abcdef";
  short_id = "0123456789ab";
  image = "redis";
  exposed_ports = [];
  lifecycle_hooks = no_hooks ∷ [];
}
