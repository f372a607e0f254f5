-- ===== src/Container/Durable/Tests.antt =====
-- A script with an environment, a working directory and a quotation mark.
use docker_go_sdk.Common.{All, true, ◌≡◌, refl, none, some, [], ◌∷◌}
use docker_go_sdk.Common.Bytes.{Bytes, codes}
use docker_go_sdk.GoError.{ok}
use docker_go_sdk.Container.Durable.Script.{
  ExecConfig, Executable, apply_options, no_exec_config, render_durable_script, shell_single_quote,
}
use docker_go_sdk.Container.Durable.Script.Runs.{
  inner_script, inner_commands, script_commands, render_durable_script_lem,
}
use docker_go_sdk.Container.Durable.Script.Laws.{has_plain_name}
use docker_go_sdk.Container.Durable.Words.{shell_commands}

abbrev settings : ExecConfig → ExecConfig
settings po = record po {
  env = codes "A=b c" ∷ codes "=x" ∷ [];
  working_dir = codes "/srv";
  user = codes "app";
}

abbrev executable : Executable
executable = record {
  as_command = codes "echo" ∷ codes "it's" ∷ [];
  options = none ∷ some settings ∷ [];
}

abbrev options : ExecConfig
options = record {
  user = codes "app";
  env = codes "A=b c" ∷ codes "=x" ∷ [];
  working_dir = codes "/srv";
}

abbrev script : Bytes
script =
    codes
      "#!/bin/sh\nset -e\nexec su -s /bin/sh -c 'set -e\nexport A='\\''b c'\\''\ncd '\\''/srv'\\''\nexec '\\''echo'\\'' '\\''it'\\''\\'\\'''\\''s'\\''\n' 'app'\n"

rendered_test : render_durable_script (some executable) ≡ ok script
unfolding render_durable_script
rendered_test = refl

quote_test : shell_single_quote (codes "it's") ≡ codes "'it'\\''s'"
unfolding shell_single_quote
quote_test = refl

plain_names :
    All (λ entry. has_plain_name entry ≡ true) (apply_options executable.options no_exec_config).env
unfolding apply_options has_plain_name
plain_names = (refl, (refl, tt))

render_durable_script_example :
    (shell_commands script
      ≡ some (
          script_commands
            (codes "app")
            (inner_script executable.as_command options)
            (inner_commands executable.as_command options)))
    × (shell_commands (inner_script executable.as_command options)
        ≡ some (inner_commands executable.as_command options))
unfolding apply_options
render_durable_script_example =
    render_durable_script_lem executable script rendered_test plain_names
