-- ===== src/Container/Durable/Script.antt =====
-- The text of the scripts, and how the shell's arguments are quoted.
pub mod Laws
pub mod Runs
use docker_go_sdk.Common.{
  ℕ, String, Bool, true, false, not, ◌&&◌, ◌||◌, Option, none, some, List, [], ◌∷◌, ◌++◌, leb, ◌==◌,
  if◌then◌else◌,
}
use docker_go_sdk.Common.Bytes.{Bytes, codes, cut_byte}
use docker_go_sdk.GoError.{Error, new, Result, ok, err}

-- `strings.ReplaceAll(s, old, new)` for one byte `old`.
unfoldable pub replace_byte : ℕ → Bytes → Bytes → Bytes
replace_byte old replacement [] = []
replace_byte old replacement (c ∷ s) =
    let rest = replace_byte old replacement s in if c == old then replacement ++ rest else c ∷ rest

-- A quotation mark inside quotation marks: end of the quotation, `\'`, and its start again.
abbrev pub escaped_quote : Bytes
escaped_quote = codes "'\\''"

-- `shellSingleQuote`
unfoldable pub shell_single_quote : Bytes → Bytes
unfolding replace_byte
shell_single_quote [] = codes "''"
shell_single_quote (c ∷ s) = b'\'' ∷ replace_byte b'\'' escaped_quote (c ∷ s) ++ b'\'' ∷ []

-- The fields of `exec.ProcessOptions.ExecConfig` that the scripts use.
pub record ExecConfig : Type 0 where
  pub user : Bytes
  pub env : List Bytes
  pub working_dir : Bytes

abbrev pub no_exec_config : ExecConfig
no_exec_config = record { user = []; env = []; working_dir = [] }

-- An `Executable`: what `AsCommand` and `Options` return. An option may be nil.
pub record Executable : Type 0 where
  pub as_command : List Bytes
  pub options : List (Option (ExecConfig → ExecConfig))

unfoldable pub apply_options : List (Option (ExecConfig → ExecConfig)) → ExecConfig → ExecConfig
apply_options [] po = po
apply_options (none ∷ options) po = apply_options options po
apply_options (some opt ∷ options) po = apply_options options (opt po)

abbrev is_lower : ℕ → Bool
is_lower c = leb b'a' c && leb c b'z'

abbrev pub is_letter : ℕ → Bool
is_letter c = is_lower c || (leb b'A' c && leb c b'Z')

abbrev pub is_digit : ℕ → Bool
is_digit c = leb b'0' c && leb c b'9'

unfoldable pub every : (ℕ → Bool) → Bytes → Bool
every test [] = true
every test (c ∷ s) = test c && every test s

-- `durableUserRe`: `^[a-zA-Z_][a-zA-Z0-9_-]*$`
unfoldable pub is_login_name : Bytes → Bool
unfolding every
is_login_name [] = false
is_login_name (c ∷ s) =
    (is_letter c || c == b'_') && every (λ d. is_letter d || is_digit d || d == b'_' || d == b'-') s

-- `durableNamespaceNameRe`: `^[a-z0-9][a-z0-9_-]*$`
unfoldable pub is_namespace_name : Bytes → Bool
unfolding every
is_namespace_name [] = false
is_namespace_name (c ∷ s) =
    (is_lower c || is_digit c) && every (λ d. is_lower d || is_digit d || d == b'_' || d == b'-') s

-- The `export` line of `env[:eq]` and `env[eq+1:]`; none for an entry with no name.
abbrev pub export_line : Option (Bytes × Bytes) → Bytes
export_line none = []
export_line (some ([], value)) = []
export_line (some (c ∷ name, value)) =
    codes "export " ++ ((c ∷ name) ++ (b'=' ∷ (shell_single_quote value ++ b'\n' ∷ [])))

unfoldable pub export_lines : List Bytes → Bytes
unfolding cut_byte shell_single_quote
export_lines [] = []
export_lines (entry ∷ env) = export_line (cut_byte b'=' entry) ++ export_lines env

unfoldable pub cd_line : Bytes → Bytes
unfolding shell_single_quote
cd_line [] = []
cd_line (c ∷ dir) = codes "cd " ++ shell_single_quote (c ∷ dir) ++ b'\n' ∷ []

unfoldable pub quoted_arguments : List Bytes → Bytes
unfolding shell_single_quote
quoted_arguments [] = []
quoted_arguments (arg ∷ args) = b' ' ∷ shell_single_quote arg ++ quoted_arguments args

-- The body: exports, `cd` and `exec`.
unfoldable pub script_body : List Bytes → ExecConfig → Bytes
unfolding export_lines cd_line quoted_arguments
script_body cmd po =
    export_lines po.env
    ++ (cd_line po.working_dir ++ (codes "exec" ++ (quoted_arguments cmd ++ b'\n' ∷ [])))

-- The script for the user, where an empty name means that the user stays the same.
unfoldable pub script_text : Bytes → Bytes → Bytes
unfolding shell_single_quote
script_text [] body = codes "#!/bin/sh\n" ++ (codes "set -e\n" ++ body)
script_text (c ∷ user) body =
    let inner = codes "set -e\n" ++ body in
    codes "#!/bin/sh\n"
    ++ (codes "set -e\n"
        ++ (codes "exec su -s /bin/sh -c"
            ++ (b' '
                ∷ (shell_single_quote inner
                    ++ (b' ' ∷ (shell_single_quote (c ∷ user) ++ b'\n' ∷ []))))))

unfoldable pub is_allowed_user : Bytes → Bool
unfolding is_login_name
is_allowed_user [] = true
is_allowed_user (c ∷ user) = is_login_name (c ∷ user)

abbrev pub render_checked : Bool → List Bytes → ExecConfig → Result Bytes
render_checked false cmd po = err (new "durable startup WithUser: only login names are supported")
render_checked true cmd po = ok (script_text po.user (script_body cmd po))

abbrev pub render_command : List Bytes → List (Option (ExecConfig → ExecConfig)) → Result Bytes
render_command [] options = err (new "executable produced empty command")
render_command (name ∷ args) options =
    let po = apply_options options no_exec_config in
    render_checked (is_allowed_user po.user) (name ∷ args) po

-- `renderDurableScript`, where the argument may be nil.
unfoldable pub render_durable_script : Option Executable → Result Bytes
unfolding script_text script_body apply_options is_allowed_user
render_durable_script none = err (new "executable is nil")
render_durable_script (some e) = render_command e.as_command e.options

-- `renderDurableDispatcher`
unfoldable pub render_durable_dispatcher : Bytes → Bytes
unfolding shell_single_quote
render_durable_dispatcher root =
    codes "#!/bin/sh\nset -e\nLC_ALL=C\nexport LC_ALL\nROOT="
    ++ shell_single_quote root
    ++ codes
        "\n[ -d \"$ROOT\" ] || exit 0\nfor ns in \"$ROOT\"/*/; do\n\t[ -d \"$ns\" ] || continue\n\tfor f in \"$ns\"*-cmd.sh; do\n\t\t[ -f \"$f\" ] || continue\n\t\t\"$f\"\n\tdone\ndone\n"
