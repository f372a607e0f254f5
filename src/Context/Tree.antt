-- ===== src/Context/Tree.antt =====
-- The files under the directory of the contexts, and what context/store.go asks of the operating
-- system about them. A directory's entries stand in the order in which `filepath.Walk` visits them.
pub mod Laws
use docker_go_sdk.Common.{String, Bool, true, false, Option, none, some, str_eq, if◌then◌else◌}
use docker_go_sdk.Common.Bytes.{Bytes, is_some}
use docker_go_sdk.GoError.{Error, new, sentinel, Result, ok, err}

mutual
  pub data Node : Type 0 where
    -- A file: what `os.ReadFile` returns for it.
    file : Result Bytes → Node
    dir : Entries → Node
    -- A directory that cannot be read, with the error of that.
    closed : Error → Node

  pub data Entries : Type 0 where
    nil : Entries
    entry : String → Node → Entries → Entries

unfoldable pub find : String → Entries → Option Node
find k nil = none
find k (entry j n es) = if str_eq j k then some n else find k es

-- The directory with an entry more, before the first that `less` puts behind it, or with the
-- entry of this name replaced.
unfoldable pub put : (String → String → Bool) → String → Node → Entries → Entries
put less k n nil = entry k n nil
put less k n (entry j m es) =
    let rest = put less k n es in
    if str_eq j k
    then entry k n es
    else if less k j
    then entry k n (entry j m es)
    else entry j m rest

unfoldable pub drop : String → Entries → Entries
drop k nil = nil
drop k (entry j n es) = let rest = drop k es in if str_eq j k then rest else entry j n rest

-- `os.ErrNotExist`
abbrev pub err_not_exist : Error
err_not_exist = sentinel "os.ErrNotExist"

abbrev contents : Option Node → Result Bytes
contents none = err err_not_exist
contents (some (file bytes)) = bytes
contents (some (dir es)) = err (new "is a directory")
contents (some (closed e)) = err (new "is a directory")

-- `os.ReadFile` of the file with this name in a directory.
unfoldable pub read_in : String → Entries → Result Bytes
unfolding find
read_in k es = contents (find k es)

-- `fileExists` of rootless.go, for the name in what stands at a path: any error of `os.Stat` but
-- that there is no such file counts as existence.
unfoldable pub file_exists : String → Option Node → Bool
unfolding find
file_exists k none = false
file_exists k (some (dir es)) = is_some (find k es)
file_exists k (some (file bytes)) = true
file_exists k (some (closed e)) = true
