-- ===== src/Container/Durable/Layout/Laws.antt =====
-- What the options for durable commands add to the files of a definition.
use docker_go_sdk.Common.{
  ℕ, zero, suc, ◌+◌, ◌≤◌, ◌≡◌, refl, ap, ◌∙◌, inl, inr, Bool, true, false, ◌||◌, Option, none, some,
  List, [], ◌∷◌, ◌++◌, arith, ltb, Bool-cases, if◌then◌else◌,
}
use docker_go_sdk.Common.Bytes.{Bytes, codes, bytes_eq, has_suffix}
use docker_go_sdk.Common.Bytes.Laws.{bytes_eq_refl, bytes_eq_iff}
use docker_go_sdk.Container.Durable.Layout.{
  Formats, ScriptFile, Namespaces, is_dispatcher, scan_files, resolve_durable_namespace_dir,
  cmd_path, script_files, dispatcher_files, append_rendered, append_durable_scripts,
  durable_startup_dispatcher_path, render_all,
}
use docker_go_sdk.Container.Durable.Script.{Executable}
use docker_go_sdk.GoError.{Error, Result, ok, err}

has_suffix-append : (s suffix : Bytes) → has_suffix suffix (s ++ suffix) ≡ true
unfolding has_suffix bytes_eq
has_suffix-append [] [] = refl
has_suffix-append [] (c ∷ suffix) = rw (bytes_eq_refl (c ∷ suffix)) refl
has_suffix-append (c ∷ s) suffix = ground (arith, has_suffix-append s suffix)

-- How many of the files are dispatchers.
unfoldable pub dispatchers : List ScriptFile → ℕ
dispatchers [] = 0
dispatchers (f ∷ files) = let rest = dispatchers files in if is_dispatcher f then suc rest else rest

dispatchers-append :
    (xs ys : List ScriptFile) → dispatchers (xs ++ ys) ≡ dispatchers xs + dispatchers ys
unfolding dispatchers
dispatchers-append [] ys = omega arith
dispatchers-append (f ∷ xs) ys = ground (arith, dispatchers-append xs ys)

module _ (fmt : Formats) where
  -- The path of a command ends otherwise than that of the dispatcher.
  cmd_path-ne :
      (ns_dir : Bytes) (n : ℕ)
      → bytes_eq (cmd_path fmt ns_dir n) durable_startup_dispatcher_path ≡ false
  unfolding has_suffix bytes_eq
  cmd_path-ne ns_dir n =
      elim (Bool-cases (bytes_eq (cmd_path fmt ns_dir n) durable_startup_dispatcher_path)) [
        | inr q ↦ q
        | inl q ↦ absurd (
            cc (
              has_suffix-append (ns_dir ++ (b'/' ∷ fmt.pad n)) (codes "-cmd.sh"),
              ap (has_suffix (codes "-cmd.sh"))
                  ((bytes_eq_iff (cmd_path fmt ns_dir n) durable_startup_dispatcher_path).0 q),
              ends,
            ))
      ]
    where
      ends : has_suffix (codes "-cmd.sh") durable_startup_dispatcher_path ≡ false
      ends = refl

  script_files-dispatchers :
      (ns_dir : Bytes) (n : ℕ) (contents : List Bytes)
      → dispatchers (script_files fmt ns_dir n contents) ≡ 0
  unfolding dispatchers script_files
  script_files-dispatchers ns_dir n [] = refl
  script_files-dispatchers ns_dir n (content ∷ contents) =
      rw (cmd_path-ne ns_dir n) (script_files-dispatchers ns_dir (suc n) contents)

  flag_step :
      (present found : Bool) (n : ℕ)
      → ((present || found) || ltb 0 n) ≡ (present || ltb 0 (if found then suc n else n))
  flag_step true found n = refl
  flag_step false true n = ground arith
  flag_step false false n = refl

  -- The flag tells whether there is a dispatcher.
  scan_files-present :
      (files : List ScriptFile) (known : Namespaces) (present : Bool)
      → (scan_files fmt known present files).1 ≡ (present || ltb 0 (dispatchers files))
  unfolding scan_files dispatchers
  scan_files-present [] known false = refl
  scan_files-present [] known true = refl
  scan_files-present (f ∷ files) known present =
      scan_files-present files _ (present || is_dispatcher f)
      ∙ flag_step present (is_dispatcher f) (dispatchers files)

  dispatcher_files-flag : (n : ℕ) → n ≤ 1 → n + dispatchers (dispatcher_files fmt (ltb 0 n)) ≡ 1
  unfolding dispatchers bytes_eq
  dispatcher_files-flag zero h = refl
  dispatcher_files-flag (suc zero) h = refl
  dispatcher_files-flag (suc (suc n)) h = absurd (omega arith)

  append-dispatchers :
      (files scripts : List ScriptFile) (present : Bool)
      → present ≡ ltb 0 (dispatchers files)
      → dispatchers scripts ≡ 0
      → dispatchers files ≤ 1
      → dispatchers (files ++ (scripts ++ dispatcher_files fmt present)) ≡ 1
  append-dispatchers files scripts present e s h =
      rw
        (
          dispatchers-append files (scripts ++ dispatcher_files fmt present),
          dispatchers-append scripts (dispatcher_files fmt present),
          s,
          e,
        )
        (omega (arith, dispatcher_files-flag (dispatchers files) h))

  append_rendered_lem :
      (name : Bytes) (r : Result (List Bytes)) (files : List ScriptFile)
      → dispatchers files ≤ 1
      → (append_rendered fmt name r files).0 ≡ none
      → dispatchers (append_rendered fmt name r files).1 ≡ 1
  unfolding resolve_durable_namespace_dir
  append_rendered_lem name (err e) files h okay = absurd (cc okay)
  append_rendered_lem name (ok contents) files h okay =
      append-dispatchers files (script_files fmt _ _ contents) _ (scan_files-present files [] false)
        (script_files-dispatchers _ _ contents) h

  append_rendered_error :
      (name : Bytes) (r : Result (List Bytes)) (files : List ScriptFile) (e : Error)
      → (append_rendered fmt name r files).0 ≡ some e
      → (append_rendered fmt name r files).1 ≡ files
  append_rendered_error name (err x) files e h = refl
  append_rendered_error name (ok contents) files e h = absurd (cc h)

  -- An option for durable commands that reports an error leaves the files as they were: none of its
  -- commands is kept.
  pub append_durable_scripts_error :
      (name : Bytes) (execs : List (Option Executable)) (files : List ScriptFile) (e : Error)
      → (append_durable_scripts fmt name execs files).0 ≡ some e
      → (append_durable_scripts fmt name execs files).1 ≡ files
  unfolding append_durable_scripts
  append_durable_scripts_error name [] files e h = refl
  append_durable_scripts_error name (x ∷ execs) files e h =
      append_rendered_error name (render_all fmt (x ∷ execs)) files e h

  -- From files with at most one dispatcher, an option for durable commands that reports no error
  -- leaves files with exactly one.
  pub append_durable_scripts-dispatchers :
      (name : Bytes) (execs : List (Option Executable)) (files : List ScriptFile)
      → dispatchers files ≤ 1
      → (append_durable_scripts fmt name execs files).0 ≡ none
      → dispatchers (append_durable_scripts fmt name execs files).1 ≡ 1
  unfolding append_durable_scripts
  append_durable_scripts-dispatchers name [] files h okay = absurd (cc okay)
  append_durable_scripts-dispatchers name (x ∷ execs) files h okay =
      append_rendered_lem name (render_all fmt (x ∷ execs)) files h okay
