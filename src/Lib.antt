-- ===== src/Lib.antt =====
-- Docker SDK for Go: containers, their wait strategies, the registry credentials and the Docker
-- contexts.
--
-- The SDK is a set of Go modules over the Docker client. `container` creates, starts, stops and
-- terminates containers and runs hooks around each step; `container/wait` waits until a container
-- is ready; `config` reads the configuration file and finds the credentials of a registry, for
-- pulls; `context` keeps the Docker contexts, which say what host a client connects to, in a
-- directory beside that file. `Run` builds a definition from options, lets the hooks before the
-- creation change it, asks the daemon for the container, and starts it. A container's operations
-- call the daemon, and its hooks may call anything, a wait strategy among others.
--
-- Files:
-- - Common and its children: lists, byte texts (Go strings that the code walks through), Go maps
--   as association lists, signed integers.
-- - GoError: Go's error values with `errors.Is`, `errors.Join` and `%w`; GoError/Action: functions
--   that return a value or an error and change a world.
-- - Lifecycle: container/lifecycle.go. `combine_container_hooks` is `combineContainerHooks`,
--   `apply_container_hooks` is `applyContainerHooks`, `apply_definition_hooks` is
--   `applyDefinitionHooks`, and the two `apply_lifecycle_hooks` are the methods of that name.
-- - Container/Operations: `start`, `stop`, `terminate_container`, `terminate` and their options,
--   from container/container.start.go, container.stop.go, container.terminate.go and the hooks of
--   container/lifecycle.*.go. The state is the flag `isRunning` and a world that holds the daemon.
-- - Container/Cleanup: `isCleanupSafe` of container/testing.go.
-- - Container/Definition: the definition of a container, its validation (container/definition.go),
--   the beginning of `Run` (container/container.run.go) and the options (container/options.go).
-- - Container/Host: the values of the Docker API that a definition changes.
-- - Container/Create: the hooks before the creation, `pull_hook` and `pre_create_container_hook`, of
--   container/lifecycle.go and container/lifecycle.create.go; in Launch, `launch` and `run` are `Run` of
--   container/container.run.go, with container/image_substitutors.go.
-- - Container/Files: container/files.go and the hook that copies files. The host's files are a tree.
-- - Container/Endpoints: container/ports.go and container/container.network.go.
-- - Container/Ports: `mergePortBindings` of container/lifecycle.create.go.
-- - Container/Durable: the scripts of container/durable_startup.go (Script), the files that they are
--   kept in (Layout), and, in Words, an independent reader of such scripts that follows the POSIX
--   rules of quotation.
-- - Wait: container/wait. Walk is walk.go, All is all.go, Target is wait.go, Poll is the loop that
--   health.go, log.go, exit.go, exec.go, host_port.go and http.go share, and Health, Log, Exit, Exec,
--   HostPort and Http are these.
-- - Config: config and config/auth. Registry is auth/registry.go, Credentials is
--   credentials_helpers.go, and Resolve, Cache, Images and Proxy are parts of config.go. Base64 is
--   the decoder of the standard library that config.go calls. Load is load.go and `Save`.
-- - Context: context. Tree is the directory of the contexts, Store is store.go, MetadataJson the
--   JSON form of the metadata there, Commands is context.go, context.add.go and context.delete.go,
--   and Current is current.go and rootless.go.
-- The module Laws, or a module named for what it shows, holds the proofs of a part; the modules
-- called Tests hold runs of the code.
--
-- Bounds and fuel: times are natural numbers of nanoseconds. A polling loop runs on fuel, one unit
-- for a round; the fuel `suc timeout` is enough since each round that goes on moves the clock,
-- under a positive poll interval and a clock that does not run backwards; each loop of a port or
-- an HTTP wait has a unit for each nanosecond up to the deadline, and one more. Everything else is
-- structural recursion. Durations of containers are signed; their conversion to whole seconds
-- rounds toward zero.
--
-- Parameters: the Docker client, the operating system, the parser of image references, compiled
-- regular expressions, the JSON codec, the HTTP client, the digest of names, the archiver and the
-- classification of errors by errdefs. Their documented behaviour is a hypothesis where a theorem
-- needs it (Timely, PortTimely, HttpTimely, PortForeign, CtxIsForeign, LooksThrough, Decodes, Journal,
-- ImageJournal, NetworkJournal, Punctual).
--
-- Not modelled: contexts' cancellation in the operations of a container, loggers, goroutines (the
-- cache is seen by one), partial results of failing system calls, the sharing of maps and slices
-- between a definition and the values made from it, a creating hook that replaces the definition's
-- own hooks, wait strategies that are nil pointers, the strategies on files, SQL and TLS, and the packages client, image, network,
-- volume and legacyadapters.
pub mod Common
pub mod GoError
pub mod Lifecycle
pub mod Container
pub mod Wait
pub mod Config
pub mod Context
