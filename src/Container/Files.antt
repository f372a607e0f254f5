-- ===== src/Container/Files.antt =====
-- container/files.go, and the hook of container/lifecycle.create.go that copies files: which files an
-- archive gets, and what is copied into a container. The name of an entry of an archive is the list of its
-- parts, which the slash separates.
pub mod Laws
mod Tests
use docker_go_sdk.Common.{
  ℕ, String, Bool, true, false, Option, none, some, List, [], ◌∷◌, ◌++◌, str_eq, if◌then◌else◌,
}
use docker_go_sdk.Common.Bytes.{Bytes}
use docker_go_sdk.GoError.{Error, new, wrap, wrapped, both, Result, ok, err, context}
use docker_go_sdk.Lifecycle.{Hook, and_then}

-- `File`: the reader, by what reading all of it returns, and the paths and the mode.
pub record File : Type 0 where
  pub reader : Option (Result Bytes)
  pub host_path : String
  pub container_path : String
  pub mode : ℕ

unfoldable pub validate : File → Option Error
validate f =
    let check =
      if str_eq f.container_path "" then some (new "container path must be specified") else none in
    elim f.reader [
      | some r ↦ check
      | none ↦
          if str_eq f.host_path ""
          then some (new "reader or host path must be specified")
          else check
    ]

-- What `filepath.Walk` meets in a directory, in its order.
mutual
  pub data HostNode : Type 0 where
    -- A file: what opening it returns, and then what copying it to the archive does.
    regular : Result (Result Bytes) → HostNode
    symlink : HostNode
    folder : HostNodes → HostNode
    -- What cannot be read.
    failing : Error → HostNode

  pub data HostNodes : Type 0 where
    nil : HostNodes
    cons : String → HostNode → HostNodes → HostNodes

-- An entry of an archive; the content of a directory is `none`.
pub record TarEntry : Type 0 where
  pub name : List String
  pub mode : ℕ
  pub content : Option Bytes

abbrev tar_content : ℕ → List String → Result (Result Bytes) → Result (List TarEntry)
tar_content mode name (err e) = err (wrap "open file: " e)
tar_content mode name (ok (err e)) = err (wrap "copy: " e)
tar_content mode name (ok (ok bytes)) =
    ok (record { name = name; mode = mode; content = some bytes } ∷ [])

-- The walk of `tarDir`, with the name that the node has in the archive.
unfoldable mutual
  pub tar_node : ℕ → List String → HostNode → Result (List TarEntry)
  tar_node mode name (regular r) = tar_content mode name r
  tar_node mode name symlink = ok []
  tar_node mode name (folder nodes) =
      both (ok (record { name = name; mode = mode; content = none } ∷ []))
        (tar_nodes mode name nodes)
  tar_node mode name (failing e) = err (wrap "walk the file system: " e)

  pub tar_nodes : ℕ → List String → HostNodes → Result (List TarEntry)
  tar_nodes mode name nil = ok []
  tar_nodes mode name (cons k node nodes) =
      both (tar_node mode (name ++ k ∷ []) node) (tar_nodes mode name nodes)

-- The host's files, the archiver (tar and gzip) and the daemon.
pub record Copier (W : Type 0) : Type 0 where
  -- `isDir`: opening the path and asking for its kind
  pub is_dir : String → W → Result Bool
  pub read_file : String → W → Result Bytes
  -- the last part of the absolute path, and what `filepath.Walk` meets there
  pub base_name : String → W → Result String
  pub tree : String → W → HostNode
  -- `filepath.Dir`
  pub parent : String → String
  pub archive : List TarEntry → Result Bytes
  -- the client's `CopyToContainer`, with the container's ID and the destination
  pub send : String → String → Bytes → Hook W

module _ {W : Type 0} (c : Copier W) where
  abbrev archived : Result (List TarEntry) → Result Bytes
  archived (err e) = err e
  archived (ok entries) = c.archive entries

  abbrev tar_tree : ℕ → HostNode → Result String → Result Bytes
  tar_tree mode node (err e) = err (wrap "error getting absolute path: " e)
  tar_tree mode node (ok base) = archived (tar_node mode (base ∷ []) node)

  unfoldable pub tar_dir : String → ℕ → W → Result Bytes
  unfolding tar_node
  tar_dir src mode w = tar_tree mode (c.tree src w) (c.base_name src w)

  -- `tarFile`
  unfoldable pub tar_file : String → Bytes → ℕ → Result Bytes
  tar_file path content mode =
      c.archive (record { name = path ∷ []; mode = mode; content = some content } ∷ [])

  abbrev send_archive : String → String → String → Result Bytes → Hook W
  send_archive text id target (err e) w = (some (wrap text e), w)
  send_archive text id target (ok buffer) w =
      let (e, w') = c.send id target buffer w in (wrapped "copy to container: " e, w')

  abbrev send_dir : String → File → Result Bool → Hook W
  send_dir id f (err e) w = (some (wrap "is dir: " e), w)
  send_dir id f (ok false) w = (some (new "path is not a directory"), w)
  send_dir id f (ok true) w =
      send_archive "tar dir: " id (c.parent f.container_path) (tar_dir f.host_path f.mode w) w

  -- `CopyDirToContainer` of the file's paths and mode.
  unfoldable pub copy_dir_to_container : String → File → Hook W
  unfolding tar_dir
  copy_dir_to_container id f w = send_dir id f (c.is_dir f.host_path w) w

  -- `CopyToContainer` to the file's path.
  unfoldable pub copy_to_container : String → Bytes → File → Hook W
  unfolding tar_file
  copy_to_container id content f =
      send_archive "tar file: " id "/" (tar_file f.container_path content f.mode)

  abbrev copy_content : String → String → File → Result Bytes → Hook W
  copy_content text id f (err e) w = (some (wrap text e), w)
  copy_content text id f (ok content) w =
      let (e, w') = copy_to_container id content f w in (wrapped "copy to container: " e, w')

  abbrev copy_path : String → File → Result Bool → Hook W
  copy_path id f (err e) w = (some e, w)
  copy_path id f (ok true) w =
      let (e, w') = copy_dir_to_container id f w in (wrapped "copy dir to container: " e, w')
  copy_path id f (ok false) w = copy_content "read file: " id f (c.read_file f.host_path w) w

  abbrev copy_source : String → File → Option (Result Bytes) → Hook W
  copy_source id f (some r) w = copy_content "read all: " id f r w
  copy_source id f none w = copy_path id f (c.is_dir f.host_path w) w

  abbrev copy_valid : String → File → Option Error → Hook W
  copy_valid id f (some e) w = (some (wrap "invalid file: " e), w)
  copy_valid id f none w = copy_source id f f.reader w

  -- The body of the loop of `defaultCopyFileToContainerHook`.
  unfoldable pub copy_file : String → File → Hook W
  unfolding validate copy_to_container copy_dir_to_container
  copy_file id f w = copy_valid id f (validate f) w

  -- The hook, for the container with the ID: the first error ends it.
  unfoldable pub copy_files : String → List File → Hook W
  unfolding copy_file
  copy_files id [] w = (none, w)
  copy_files id (f ∷ files) w = and_then (copy_file id f w) (copy_files id files)
