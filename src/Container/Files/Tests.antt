-- ===== src/Container/Files/Tests.antt =====
-- A directory with a file, a link and a directory, and its archive.
use docker_go_sdk.Common.{String, refl, Option, none, some, List, [], ◌∷◌, All, Contains}
use docker_go_sdk.Common.Bytes.{Bytes}
use docker_go_sdk.Container.Files.{
  HostNode, regular, symlink, folder, nil, cons, TarEntry, tar_node,
}
use docker_go_sdk.Container.Files.Laws.{Holds, IsFrom, entry_at, tar_node_lem}
use docker_go_sdk.GoError.{ok}

abbrev tree : HostNode
tree = folder (
    cons "a" (regular (ok (ok (1 ∷ []))))
      (cons "link" symlink (cons "sub" (folder (cons "b" (regular (ok (ok (2 ∷ [])))) nil)) nil)))

abbrev entries : List TarEntry
entries =
    record { name = "dir" ∷ []; mode = 7; content = none }
    ∷ record { name = "dir" ∷ "a" ∷ []; mode = 7; content = some (1 ∷ []) }
    ∷ record { name = "dir" ∷ "sub" ∷ []; mode = 7; content = none }
    ∷ record { name = "dir" ∷ "sub" ∷ "b" ∷ []; mode = 7; content = some (2 ∷ []) }
    ∷ []

tar_node_example :
    All (IsFrom 7 ("dir" ∷ []) tree) entries
    × ((path : List String) (content : Option Bytes)
        → Holds tree path content
        → Contains (entry_at 7 ("dir" ∷ []) path content) entries)
unfolding tar_node
tar_node_example = tar_node_lem 7 ("dir" ∷ []) tree entries refl
