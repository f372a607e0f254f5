-- ===== src/Container/Durable/Layout/Tests.antt =====
-- Two options for durable commands, one after the other.
use docker_go_sdk.Common.{◌+◌, ◌≡◌, refl, Option, some, List, [], ◌∷◌, ◌++◌, arith}
use docker_go_sdk.Common.Bytes.{codes}
use docker_go_sdk.Container.Durable.Layout.{
  Formats, ScriptFile, append_durable_scripts, with_durable_startup_command,
}
use docker_go_sdk.Container.Durable.Layout.Laws.{dispatchers, append_durable_scripts-dispatchers}
use docker_go_sdk.Container.Durable.Script.{Executable}

-- One digit, and every directory is that of the default namespace.
abbrev formats : Formats
formats = record {
  pad = λ n. codes "00" ++ (n + 48) ∷ [];
  scan = λ s. some 0;
  dir_of = λ path. codes "/etc/durable-startup.d/000-default";
}

abbrev echo : Option Executable
echo = some (record { as_command = codes "echo" ∷ []; options = [] })

abbrev once : List ScriptFile
once = (with_durable_startup_command formats (echo ∷ []) []).1

append_durable_scripts-dispatchers_example :
    dispatchers (append_durable_scripts formats (codes "db") (echo ∷ echo ∷ []) once).1 ≡ 1
unfolding dispatchers append_durable_scripts
append_durable_scripts-dispatchers_example =
    append_durable_scripts-dispatchers formats (codes "db") (echo ∷ echo ∷ []) once
      (omega (
        arith,
        append_durable_scripts-dispatchers formats (codes "default") (echo ∷ []) [] (omega arith)
            refl,
      ))
      refl
