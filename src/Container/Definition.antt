-- ===== src/Container/Definition.antt =====
-- container/definition.go, and the part of container/container.run.go that builds the definition.
-- The types of the hooks (`H`), of the files (`F`), of the wait strategies' leaves (`L`) and of the
-- container's configuration (`C`) are parameters. The options of the pull are left out. Of the two mount errors the text behind the wrapped error is left out.
pub mod Options
pub mod Mounts
mod Tests
use docker_go_sdk.Common.{
  String, Bool, true, false, ◌||◌, Option, none, some, List, [], ◌∷◌, ◌++◌, str_eq, if◌then◌else◌,
}
use docker_go_sdk.Common.Bytes.{Bytes, split, bytes_eq}
use docker_go_sdk.Common.Dict.{Dict}
use docker_go_sdk.Container.Host.{
  HostConfig, empty_host_config, EndpointSettings, Platform, ImageSubstitutor,
}
use docker_go_sdk.GoError.{Error, sentinel, new, wrap, wrapped, join, Result, ok, err}
use docker_go_sdk.Lifecycle.{Hook, append_error}
use docker_go_sdk.Wait.{Strategy}

abbrev pub err_duplicate_mount_target : String
err_duplicate_mount_target = "duplicate mount target detected"

abbrev pub err_invalid_bind_mount : String
err_invalid_bind_mount = "invalid bind mount"

-- A validate function: the two of `Run`, which read the definition when they are called, and any
-- other, by what it returns.
pub data Validation : Type 0 where
  image_required : Validation
  mounts : Validation
  custom : Option Error → Validation

pub record Definition (H F L C : Type 0) : Type 0 where
  pub config_modifier : Option (C → C)
  pub cmd : List String
  pub entrypoint : List String
  pub env : Dict String
  pub files : List F
  pub host_config_modifier : Option (HostConfig → HostConfig)
  pub endpoint_settings_modifier : Option (Dict EndpointSettings → Dict EndpointSettings)
  pub image_substitutors : List ImageSubstitutor
  pub validate_funcs : List Validation
  pub labels : Dict String
  pub lifecycle_hooks : List H
  pub network_aliases : Dict (List String)
  pub networks : List String
  pub waiting_for : Option (Strategy L)
  pub exposed_ports : List String
  pub image : String
  pub image_platform : String
  pub platform : Option Platform
  pub name : String
  pub always_pull_image : Bool
  pub started : Bool

-- `targets[targetPath]`, of the targets seen so far.
unfoldable pub is_seen : Bytes → List Bytes → Bool
unfolding bytes_eq
is_seen target [] = false
is_seen target (t ∷ targets) = bytes_eq target t || is_seen target targets

-- The target of a bind: the second of its two or three parts.
abbrev pub target_of_parts : List Bytes → Option Bytes
target_of_parts (source ∷ target ∷ []) = some target
target_of_parts (source ∷ target ∷ mode ∷ []) = some target
target_of_parts _ = none

unfoldable pub bind_target : Bytes → Option Bytes
unfolding split
bind_target bind = target_of_parts (split b':' bind)

abbrev pub check_target : Option Bytes → List Bytes → (List Bytes → Option Error) → Option Error
check_target none targets continue = some (wrap "" (sentinel err_invalid_bind_mount))
check_target (some target) targets continue =
    if is_seen target targets
    then some (wrap "" (sentinel err_duplicate_mount_target))
    else continue (target ∷ targets)

-- The loop of `validateMounts`.
unfoldable pub validate_binds : List Bytes → List Bytes → Option Error
unfolding bind_target is_seen
validate_binds [] targets = none
validate_binds (bind ∷ binds) targets =
    check_target (bind_target bind) targets (validate_binds binds)

module _ {H F L C : Type 0} where
  unfoldable pub validate_mounts : Definition H F L C → Option Error
  unfolding validate_binds
  validate_mounts d = elim d.host_config_modifier [
    | none ↦ none
    | some modifier ↦ validate_binds (modifier empty_host_config).binds []
  ]

  unfoldable pub run_validation : Validation → Definition H F L C → Option Error
  unfolding validate_mounts
  run_validation image_required d =
      if str_eq d.image "" then some (new "image is required") else none
  run_validation mounts d = validate_mounts d
  run_validation (custom result) d = result

  -- The loop of `validate`.
  unfoldable pub validate_from :
      List (Option Error) → List Validation → Definition H F L C → Option Error
  unfolding run_validation join
  validate_from errs [] d = join errs
  validate_from errs (fn ∷ fns) d = validate_from (append_error errs (run_validation fn d)) fns d

  unfoldable pub validate : Definition H F L C → Option Error
  unfolding validate_from
  validate d = validate_from [] d.validate_funcs d

  -- The definition that `Run` starts from.
  abbrev pub new_definition : Definition H F L C
  new_definition = record {
    config_modifier = none;
    cmd = [];
    entrypoint = [];
    env = [];
    files = [];
    host_config_modifier = none;
    endpoint_settings_modifier = none;
    image_substitutors = [];
    validate_funcs = image_required ∷ mounts ∷ [];
    labels = [];
    lifecycle_hooks = [];
    network_aliases = [];
    networks = [];
    waiting_for = none;
    exposed_ports = [];
    image = "";
    image_platform = "";
    platform = none;
    name = "";
    always_pull_image = false;
    started = true;
  }

  abbrev after_option :
      Option Error × Definition H F L C
      → (Definition H F L C → Result (Definition H F L C))
      → Result (Definition H F L C)
  after_option (none, d) continue = continue d
  after_option (some e, d) continue = err (wrap "customize: " e)

  -- The loop over the options, each a `ContainerCustomizer`.
  unfoldable pub customize :
      List (Hook (Definition H F L C)) → Definition H F L C → Result (Definition H F L C)
  customize [] d = ok d
  customize (opt ∷ opts) d = after_option (opt d) (customize opts)

  abbrev pub validated : Result (Definition H F L C) → Result (Definition H F L C)
  validated (err e) = err e
  validated (ok d) = elim (validate d) [ none ↦ ok d | some e ↦ err (wrap "validate: " e) ]

  -- `Run`, up to the validation of the definition.
  unfoldable pub define : List (Hook (Definition H F L C)) → Result (Definition H F L C)
  unfolding customize validate
  define opts = validated (customize opts new_definition)
