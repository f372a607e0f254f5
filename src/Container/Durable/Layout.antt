-- ===== src/Container/Durable/Layout.antt =====
-- The files that the scripts are kept in: namespaces, their directories and the numbers of the commands.
-- The parts of a path are clean, so `path.Join` puts a slash between them.
pub mod Laws
mod Tests
use docker_go_sdk.Common.{
  ℕ, suc, ◌+◌, ◌*◌, String, Bool, true, false, not, ◌&&◌, ◌||◌, Option, none, some, List, [], ◌∷◌,
  ◌++◌, if◌then◌else◌,
}
use docker_go_sdk.Common.Bytes.{Bytes, codes, bytes_eq, cut_prefix, cut_byte, has_suffix, is_some}
use docker_go_sdk.Container.Durable.Script.{
  Executable, render_durable_script, render_durable_dispatcher, is_namespace_name,
}
use docker_go_sdk.GoError.{Error, new, sentinel, wrap, Result, ok, err}
use docker_go_sdk.Lifecycle.{Hook}

abbrev pub durable_startup_dir : Bytes
durable_startup_dir = codes "/etc/durable-startup.d"

abbrev pub default_durable_namespace : Bytes
default_durable_namespace = codes "default"

abbrev pub durable_startup_dispatcher_path : Bytes
durable_startup_dispatcher_path = codes "/etc/durable-startup.d/run.sh"

-- 0o755
abbrev pub durable_startup_file_mode : ℕ
durable_startup_file_mode = 7 * 64 + 5 * 8 + 5

-- The fields of a `File` that are read and set here; `content` is what the reader gives.
pub record ScriptFile : Type 0 where
  pub container_path : Bytes
  pub content : Bytes
  pub mode : ℕ

-- `fmt.Sprintf("%03d", n)`, `fmt.Sscanf(s, "%d", …)` and `path.Dir`.
pub record Formats : Type 0 where
  pub pad : ℕ → Bytes
  pub scan : Bytes → Option ℕ
  pub dir_of : Bytes → Bytes

-- The namespaces seen, each with its index.
abbrev pub Namespaces : Type 0
Namespaces = List (Bytes × ℕ)

unfoldable pub find_namespace : Bytes → Namespaces → Option ℕ
unfolding bytes_eq
find_namespace name [] = none
find_namespace name ((k, idx) ∷ known) =
    let rest = find_namespace name known in if bytes_eq k name then some idx else rest

abbrev pub is_dispatcher : ScriptFile → Bool
is_dispatcher f = bytes_eq f.container_path durable_startup_dispatcher_path

module _ (fmt : Formats) where
  abbrev add_index : Bytes → Option ℕ → Namespaces → Namespaces
  add_index ns none known = known
  add_index ns (some idx) known =
      if is_some (find_namespace ns known) then known else (ns, idx) ∷ known

  -- The parts of "NNN-name".
  abbrev note_parts : Option (Bytes × Bytes) → Namespaces → Namespaces
  note_parts none known = known
  note_parts (some ([], ns)) known = known
  note_parts (some (c ∷ number, [])) known = known
  note_parts (some (c ∷ number, b ∷ ns)) known = add_index (b ∷ ns) (fmt.scan (c ∷ number)) known

  abbrev note_directory : Option (Bytes × Bytes) → Namespaces → Namespaces
  note_directory none known = known
  note_directory (some ([], rest)) known = known
  note_directory (some (c ∷ sub, rest)) known = note_parts (cut_byte b'-' (c ∷ sub)) known

  abbrev note_relative : Option Bytes → Namespaces → Namespaces
  note_relative none known = known
  note_relative (some rel) known = note_directory (cut_byte b'/' rel) known

  -- The loop over the files, with the flag `dispatcherPresent`.
  unfoldable pub scan_files : Namespaces → Bool → List ScriptFile → Namespaces × Bool
  unfolding cut_byte cut_prefix find_namespace
  scan_files known present [] = (known, present)
  scan_files known present (f ∷ files) =
      let prefix = durable_startup_dir ++ b'/' ∷ [] in
      let noted = note_relative (cut_prefix prefix f.container_path) known in
      let dispatcher = is_dispatcher f in
      scan_files (if dispatcher then known else noted) (present || dispatcher) files

  unfoldable pub count_non_default : Namespaces → ℕ
  count_non_default [] = 0
  count_non_default ((ns, idx) ∷ known) =
      let rest = count_non_default known in
      if bytes_eq ns default_durable_namespace then rest else suc rest

  abbrev in_startup_dir : ℕ → Bytes → Bytes
  in_startup_dir idx name = durable_startup_dir ++ (b'/' ∷ (fmt.pad idx ++ (b'-' ∷ name)))

  abbrev namespace_dir : Bytes → Option ℕ → Namespaces → Bytes
  namespace_dir name (some idx) known = in_startup_dir idx name
  namespace_dir name none known =
      if bytes_eq name default_durable_namespace
      then durable_startup_dir ++ codes "/000-default"
      else in_startup_dir (count_non_default known + 1) name

  unfoldable pub resolve_durable_namespace_dir : List ScriptFile → Bytes → Bytes × Bool
  unfolding scan_files find_namespace count_non_default
  resolve_durable_namespace_dir files name =
      let (known, present) = scan_files [] false files in
      (namespace_dir name (find_namespace name known) known, present)

  unfoldable pub next_durable_cmd_index : List ScriptFile → Bytes → ℕ
  unfolding has_suffix
  next_durable_cmd_index [] ns_dir = 0
  next_durable_cmd_index (f ∷ files) ns_dir =
      let rest = next_durable_cmd_index files ns_dir in
      if bytes_eq (fmt.dir_of f.container_path) ns_dir
        && has_suffix (codes "-cmd.sh") f.container_path
      then suc rest
      else rest

  -- The loop that renders: the first error ends it.
  unfoldable pub render_all : List (Option Executable) → Result (List Bytes)
  unfolding render_durable_script
  render_all [] = ok []
  render_all (e ∷ execs) = elim (render_durable_script e) [
    | err x ↦ err (wrap "render durable startup command: " x)
    | ok content ↦ elim (render_all execs) [ err x ↦ err x | ok contents ↦ ok (content ∷ contents) ]
  ]

  abbrev pub cmd_path : Bytes → ℕ → Bytes
  cmd_path ns_dir n = (ns_dir ++ (b'/' ∷ fmt.pad n)) ++ codes "-cmd.sh"

  unfoldable pub script_files : Bytes → ℕ → List Bytes → List ScriptFile
  script_files ns_dir n [] = []
  script_files ns_dir n (content ∷ contents) =
      record {
        container_path = cmd_path ns_dir n;
        content = content;
        mode = durable_startup_file_mode;
      }
      ∷ script_files ns_dir (suc n) contents

  abbrev pub dispatcher_file : ScriptFile
  dispatcher_file = record {
    container_path = durable_startup_dispatcher_path;
    content = render_durable_dispatcher durable_startup_dir;
    mode = durable_startup_file_mode;
  }

  abbrev pub dispatcher_files : Bool → List ScriptFile
  dispatcher_files true = []
  dispatcher_files false = dispatcher_file ∷ []

  abbrev append_rendered : Bytes → Result (List Bytes) → Hook (List ScriptFile)
  append_rendered name (err e) files = (some e, files)
  append_rendered name (ok contents) files =
      let (ns_dir, present) = resolve_durable_namespace_dir files name in
      let start = next_durable_cmd_index files ns_dir in
      (none, files ++ (script_files ns_dir start contents ++ dispatcher_files present))

  -- `appendDurableScripts`
  unfoldable pub append_durable_scripts : Bytes → List (Option Executable) → Hook (List ScriptFile)
  unfolding resolve_durable_namespace_dir next_durable_cmd_index render_all script_files
  append_durable_scripts name [] files = (some (new "at least one executable is required"), files)
  append_durable_scripts name (e ∷ execs) files =
      append_rendered name (render_all (e ∷ execs)) files

  abbrev pub with_durable_startup_command : List (Option Executable) → Hook (List ScriptFile)
  with_durable_startup_command execs = append_durable_scripts default_durable_namespace execs

  -- `WithDurableStartupCommandsFromDir`
  unfoldable pub with_durable_startup_commands_from_dir :
      Bytes → List (Option Executable) → Hook (List ScriptFile)
  unfolding append_durable_scripts is_namespace_name
  with_durable_startup_commands_from_dir dir_name execs files =
      if bytes_eq dir_name default_durable_namespace
      then (some (sentinel "ErrDurableStartupReservedNamespace"), files)
      else if is_namespace_name dir_name
      then append_durable_scripts dir_name execs files
      else (some (new "invalid durable startup namespace"), files)
