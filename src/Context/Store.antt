-- ===== src/Context/Store.antt =====
-- context/store.go: the contexts as files under a directory.
pub mod Laws
use docker_go_sdk.Common.{
  String, Bool, true, false, not, ◌&&◌, ◌||◌, Option, none, some, List, [], ◌∷◌, ◌++◌, str_eq,
  if◌then◌else◌,
}
use docker_go_sdk.Common.Bytes.{Bytes}
use docker_go_sdk.Common.Dict.{Dict, lookup}
use docker_go_sdk.Config.Load.{ConfigFile}
use docker_go_sdk.GoError.{
  Error, sentinel, new, wrap, wrapped, error_is, both, Result, ok, err, context,
}
use docker_go_sdk.Context.{Metadata, Endpoint, Context}
use docker_go_sdk.Context.MetadataJson.{JsonText, marshal_json, unmarshal_json}
use docker_go_sdk.Context.Tree.{
  Node, file, dir, closed, Entries, nil, entry, find, put, drop, err_not_exist, read_in,
  file_exists,
}

-- The fields of a context that `encoding/json` reads and writes, the metadata in the form of
-- `MarshalJSON`.
pub record Document (V : Type 0) : Type 0 where
  pub name : String
  pub metadata : Option (Dict V)
  pub endpoints : Dict (Option Endpoint)

-- What the store calls: the codec of `encoding/json`, `digest.FromString(…).Encoded()`, the order
-- of the names in a directory, and the faults of the file system.
pub record Platform (V : Type 0) : Type 0 where
  pub json : JsonText V
  pub encode : Document V → Result Bytes
  pub decode : Bytes → Result (Document V)
  pub digest : String → String
  pub less : String → String → Bool
  pub mkdir_fault : String → Option Error
  pub write_fault : String → Option Error
  pub remove_fault : String → Option Error

abbrev pub meta_file : String
meta_file = "meta.json"

abbrev pub err_docker_host_not_set : Error
err_docker_host_not_set = sentinel "ErrDockerHostNotSet"

abbrev pub err_docker_context_not_found : Error
err_docker_context_not_found = sentinel "ErrDockerContextNotFound"

abbrev is_file : Option Node → Bool
is_file (some (file bytes)) = true
is_file _ = false

unfoldable pub has_meta_file : Entries → Bool
unfolding find
has_meta_file es = is_file (find meta_file es)

-- `findMetadataDirs`: the directories with a metadata file, below which the walk does not go.
unfoldable mutual
  unfolding has_meta_file

  pub walk_node : Node → Result (List Entries)
  walk_node (file bytes) = ok []
  walk_node (closed e) = err e
  walk_node (dir es) = let rest = walk_entries es in if has_meta_file es then ok (es ∷ []) else rest

  pub walk_entries : Entries → Result (List Entries)
  walk_entries nil = ok []
  walk_entries (entry k n es) = both (walk_node n) (walk_entries es)

unfoldable pub find_metadata_dirs : Option Node → Result (List Entries)
unfolding walk_node
find_metadata_dirs none = err err_not_exist
find_metadata_dirs (some n) = walk_node n

module _ {V : Type 0} (p : Platform V) where
  abbrev pub marshal_metadata : Option (Metadata V) → Option (Dict V)
  marshal_metadata none = none
  marshal_metadata (some m) = some (marshal_json p.json m)

  abbrev pub unmarshal_metadata : Option (Dict V) → Option (Metadata V)
  unmarshal_metadata none = none
  unmarshal_metadata (some raw) =
      some (unmarshal_json p.json (record { description = ""; additional_fields = [] }) raw)

  abbrev pub to_document : Context V → Document V
  to_document ctx = record {
    name = ctx.name;
    metadata = marshal_metadata ctx.metadata;
    endpoints = ctx.endpoints;
  }

  abbrev pub of_document : Document V → Context V
  of_document doc = record {
    name = doc.name;
    encoded_name = "";
    is_current = false;
    metadata = unmarshal_metadata doc.metadata;
    endpoints = doc.endpoints;
  }

  abbrev parsed : Result (Document V) → Result (Context V)
  parsed (err e) = err (wrap "parse metadata: " e)
  parsed (ok doc) = ok (of_document doc)

  abbrev parse_contents : Result Bytes → Result (Context V)
  parse_contents (err e) = err e
  parse_contents (ok bytes) = parsed (p.decode bytes)

  unfoldable pub load : Entries → Result (Context V)
  unfolding read_in
  load es = parse_contents (read_in meta_file es)

  abbrev pub append_loaded :
      Result (Context V) → Result (List (Context V)) → Result (List (Context V))
  append_loaded (ok ctx) (ok rest) = ok (ctx ∷ rest)
  append_loaded (ok ctx) (err e) = err e
  append_loaded (err e) rest =
      if error_is e "os.ErrNotExist" then rest else err (wrap "load context: " e)

  unfoldable pub load_all : List Entries → Result (List (Context V))
  unfolding load error_is
  load_all [] = ok []
  load_all (es ∷ dirs) = append_loaded (load es) (load_all dirs)

  abbrev pub load_found : Result (List Entries) → Result (List (Context V))
  load_found (err e) = err (wrap "find contexts: " e)
  load_found (ok dirs) = load_all dirs

  unfoldable pub list : Option Node → Result (List (Context V))
  unfolding find_metadata_dirs load_all
  list root = load_found (find_metadata_dirs root)

  abbrev pub docker_host : Option (Option Endpoint) → String
  docker_host (some (some ep)) = ep.host
  docker_host _ = ""

  abbrev marked : Context V → Result ConfigFile → Result (Context V)
  marked ctx (err e) = err (wrap "load config: " e)
  marked ctx (ok cfg) = ok (record ctx {
    is_current = str_eq cfg.current_context ctx.name;
    encoded_name = p.digest ctx.name;
  })

  -- What `inspect` returns for the context that it has found, with the result of `config.Load`.
  abbrev pub inspected : Context V → Result ConfigFile → Result (Context V)
  inspected ctx cfg =
      if str_eq (docker_host (lookup "docker" ctx.endpoints)) ""
      then err err_docker_host_not_set
      else marked ctx cfg

  unfoldable pub inspect_among : String → List (Context V) → Result ConfigFile → Result (Context V)
  unfolding lookup
  inspect_among ctx_name [] cfg = err err_docker_context_not_found
  inspect_among ctx_name (ctx ∷ contexts) cfg =
      if str_eq ctx.name ctx_name then inspected ctx cfg else inspect_among ctx_name contexts cfg

  abbrev inspect_listed :
      String → Result (List (Context V)) → Result ConfigFile → Result (Context V)
  inspect_listed ctx_name (err e) cfg = err (wrap "list contexts: " e)
  inspect_listed ctx_name (ok contexts) cfg = inspect_among ctx_name contexts cfg

  unfoldable pub inspect : String → Option Node → Result ConfigFile → Result (Context V)
  unfolding list inspect_among
  inspect ctx_name root cfg = inspect_listed ctx_name (list root) cfg

  -- The name of the directory of a context, which `add` computes if it is not there yet.
  abbrev pub encoded : Context V → String
  encoded ctx = if str_eq ctx.encoded_name "" then p.digest ctx.name else ctx.encoded_name

  -- The directories of a root that `os.MkdirAll` makes where there is none.
  abbrev below : Option Node → Entries
  below (some (dir es)) = es
  below _ = nil

  abbrev set_dir : String → Entries → Option Node → Option Node
  set_dir k es root = some (dir (put p.less k (dir es) (below root)))

  abbrev write_meta : String → Bytes → Option Node → Option Error × Option Node
  write_meta k bytes root = elim (p.write_fault k) [
    | some e ↦ (some (wrap "write: " e), root)
    | none ↦ (none, set_dir k (entry meta_file (file (ok bytes)) nil) root)
  ]

  abbrev write_encoded : String → Result Bytes → Option Node → Option Error × Option Node
  write_encoded k (err e) root = (some (wrap "json marshal: " e), root)
  write_encoded k (ok bytes) root = write_meta k bytes root

  abbrev make_dir : String → Result Bytes → Option Node → Option Error × Option Node
  make_dir k bytes root = elim (p.mkdir_fault k) [
    | some e ↦ (some (wrap "mkdir: " e), root)
    | none ↦ write_encoded k bytes (set_dir k nil root)
  ]

  -- `add`: the error, and what stands at the root then.
  unfoldable pub add : Context V → Option Node → Option Error × Option Node
  unfolding file_exists put
  add ctx root =
      if file_exists (encoded ctx) root
      then (some (new "context already exists: "), root)
      else make_dir (encoded ctx) (p.encode (to_document ctx)) root

  abbrev removed : String → Option Node → Option Node
  removed k (some (dir es)) = some (dir (drop k es))
  removed k root = root

  -- `delete`; a directory that is not there is no error for `os.RemoveAll`.
  unfoldable pub delete : String → Option Node → Option Error × Option Node
  unfolding drop
  delete k root = elim (p.remove_fault k) [
    | some e ↦ (some e, root)
    | none ↦ (none, removed k root)
  ]
