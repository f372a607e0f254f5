-- ===== src/Container/Durable/Script/Runs.antt =====
-- The commands that a shell runs for a rendered script.
use docker_go_sdk.Common.{◌≡◌, ap, ◌∙◌, Bool, true, false, Option, some, List, [], ◌∷◌, ◌++◌, All}
use docker_go_sdk.Common.Bytes.{Bytes, codes}
use docker_go_sdk.Container.Durable.Script.{
  shell_single_quote, script_body, script_text, ExecConfig, no_exec_config, Executable,
  apply_options, is_allowed_user, render_checked, render_command, render_durable_script,
}
use docker_go_sdk.Container.Durable.Script.Laws.{
  feed_quote, feed_body, body_commands, has_plain_name,
}
use docker_go_sdk.Container.Durable.Words.{feed, finished, shell_commands}
use docker_go_sdk.GoError.{ok}

-- `shellSingleQuote` turns any text, with quotation marks, line ends and every other byte, into one
-- word of the shell, which stands for that text.
pub shell_single_quote_lem :
    (s : Bytes) → shell_commands (shell_single_quote s ++ b'\n' ∷ []) ≡ some ((s ∷ []) ∷ [])
unfolding shell_commands feed
shell_single_quote_lem s = ap finished (feed_quote s (b'\n' ∷ []) [] [])

abbrev set_e : List Bytes
set_e = codes "set" ∷ codes "-e" ∷ []

abbrev pub inner_script : List Bytes → ExecConfig → Bytes
inner_script cmd po = codes "set -e\n" ++ script_body cmd po

abbrev pub inner_commands : List Bytes → ExecConfig → List (List Bytes)
inner_commands cmd po = set_e ∷ body_commands cmd po

-- With no user the script runs the body itself, and otherwise `su` with the inner script.
abbrev pub script_commands : Bytes → Bytes → List (List Bytes) → List (List Bytes)
script_commands [] inner commands = commands
script_commands (c ∷ user) inner commands =
    set_e
    ∷ (codes "exec"
        ∷ codes "su"
        ∷ codes "-s"
        ∷ codes "/bin/sh"
        ∷ codes "-c"
        ∷ inner
        ∷ (c ∷ user)
        ∷ [])
    ∷ []

inner_script_lem :
    (cmd : List Bytes) (po : ExecConfig)
    → All (λ entry. has_plain_name entry ≡ true) po.env
    → shell_commands (inner_script cmd po) ≡ some (inner_commands cmd po)
unfolding shell_commands feed
inner_script_lem cmd po h = ap finished (feed_body cmd po (set_e ∷ []) h)

script_text_lem :
    (user : Bytes) (cmd : List Bytes) (po : ExecConfig)
    → All (λ entry. has_plain_name entry ≡ true) po.env
    → shell_commands (script_text user (script_body cmd po))
      ≡ some (script_commands user (inner_script cmd po) (inner_commands cmd po))
unfolding shell_commands feed script_text
script_text_lem [] cmd po h = inner_script_lem cmd po h
script_text_lem (c ∷ user) cmd po h =
    let su = codes "exec" ∷ codes "su" ∷ codes "-s" ∷ codes "/bin/sh" ∷ codes "-c" ∷ [] in
    let inner = inner_script cmd po in
    ap finished (
      feed_quote inner (b' ' ∷ (shell_single_quote (c ∷ user) ++ b'\n' ∷ [])) su (set_e ∷ [])
      ∙ feed_quote (c ∷ user) (b'\n' ∷ []) (su ++ inner ∷ []) (set_e ∷ []))

rendered_text :
    (b : Bool) (cmd : List Bytes) (po : ExecConfig) (script : Bytes)
    → render_checked b cmd po ≡ ok script
    → script ≡ script_text po.user (script_body cmd po)
rendered_text true cmd po script h = cc
rendered_text false cmd po script h = cc

rendered :
    (cmd : List Bytes) (options : List (Option (ExecConfig → ExecConfig))) (script : Bytes)
    → render_command cmd options ≡ ok script
    → script
      ≡ script_text
          (apply_options options no_exec_config).user
          (script_body cmd (apply_options options no_exec_config))
rendered [] options script h = cc
rendered (c ∷ cmd) options script h =
    let po = apply_options options no_exec_config in
    rendered_text (is_allowed_user po.user) (c ∷ cmd) po script h

-- If `renderDurableScript` renders a script, and each name in the environment consists of bytes
-- that the shell does not treat in a special way, then a shell that reads the script finds `set -e`,
-- an export of each entry of the environment that has a name, with its value, a change to the
-- working directory if there is one, and `exec` with exactly the arguments of the command. With a
-- user, it finds `set -e` and the call of `su` for that user and an inner script, in which the shell
-- finds those commands.
pub render_durable_script_lem :
    (e : Executable) (script : Bytes)
    → render_durable_script (some e) ≡ ok script
    → All (λ entry. has_plain_name entry ≡ true) (apply_options e.options no_exec_config).env
    → (shell_commands script
        ≡ some (
            script_commands
              (apply_options e.options no_exec_config).user
              (inner_script e.as_command (apply_options e.options no_exec_config))
              (inner_commands e.as_command (apply_options e.options no_exec_config))))
      × (shell_commands (inner_script e.as_command (apply_options e.options no_exec_config))
          ≡ some (inner_commands e.as_command (apply_options e.options no_exec_config)))
unfolding render_durable_script
render_durable_script_lem e script h names =
    let po = apply_options e.options no_exec_config in
    (
      ap shell_commands (rendered e.as_command e.options script h)
          ∙ script_text_lem po.user e.as_command po names,
      inner_script_lem e.as_command po names,
    )
