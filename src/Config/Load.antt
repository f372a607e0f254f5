-- ===== src/Config/Load.antt =====
-- config/load.go and the method `Save` of config/config.go: where the configuration file is, and its
-- reading and writing. The operating system and the JSON codec are parameters.
pub mod Laws
use docker_go_sdk.Common.{
  String, Bool, true, false, not, ◌&&◌, Option, none, some, str_eq, if◌then◌else◌,
}
use docker_go_sdk.Common.Bytes.{Bytes}
use docker_go_sdk.Config.Resolve.{Config}
use docker_go_sdk.GoError.{Error, new, wrap, wrapped, Result, ok, err, context}

-- The fields of `Config` that the loading and the contexts use, besides those of Resolve.
pub record ConfigFile : Type 0 where
  pub config : Config
  pub current_context : String
  pub filepath : String

-- The environment variables are empty texts where they are not set. `join` is `filepath.Join`.
pub record Machine (W : Type 0) : Type 0 where
  pub goos : String
  pub getenv : String → W → String
  pub user_home_dir : W → String
  pub current_user_home : W → Result String
  pub join : String → String → String
  -- `os.Stat` finds the path, or fails for another reason than that there is no such file
  pub file_exists : String → W → Bool
  pub read_file : String → W → Result Bytes
  pub write_file : String → Bytes → W → Option Error × W
  pub unmarshal : Bytes → Result ConfigFile
  pub unmarshal_text : String → Result ConfigFile
  pub marshal : ConfigFile → Result Bytes

module _ {W : Type 0} (m : Machine W) where
  abbrev home_or_error : String → Result String
  home_or_error home =
      if str_eq home "" then err (new "user home directory not determined") else ok home

  abbrev user_home : Result String → Result String
  user_home (ok home) = ok home
  user_home (err e) = err (new "user home directory not determined")

  unfoldable pub get_home_dir : W → Result String
  get_home_dir w =
      if str_eq (m.user_home_dir w) "" && not (str_eq m.goos "windows")
      then user_home (m.current_user_home w)
      else home_or_error (m.user_home_dir w)

  abbrev existing_dir : String → W → Result String
  existing_dir dir w = if m.file_exists dir w then ok dir else err (new "file does not exist")

  abbrev config_dir : Result String → W → Result String
  config_dir (err e) w = err (wrap "user home dir: " e)
  config_dir (ok home) w = existing_dir (m.join home ".docker") w

  unfoldable pub dir : W → Result String
  unfolding get_home_dir
  dir w =
      if str_eq (m.getenv "DOCKER_CONFIG" w) ""
      then config_dir (get_home_dir w) w
      else existing_dir (m.getenv "DOCKER_CONFIG" w) w

  abbrev file_in : Result String → W → Result String
  file_in (err e) w = err (wrap "config dir: " e)
  file_in (ok d) w =
      if m.file_exists (m.join d "config.json") w
      then ok (m.join d "config.json")
      else err (new "config file does not exist")

  unfoldable pub filepath : W → Result String
  unfolding dir
  filepath w = file_in (dir w) w

  abbrev decoded_file : Result Bytes → Result ConfigFile
  decoded_file (err e) = err (wrap "open config: " e)
  decoded_file (ok bytes) = context "decode config: " (m.unmarshal bytes)

  unfoldable pub load_from_filepath : String → W → Result ConfigFile
  load_from_filepath path w = decoded_file (m.read_file path w)

  abbrev located : String → Result ConfigFile → Result ConfigFile
  located path (err e) = err (wrap "load config: " e)
  located path (ok cfg) = ok (record cfg { filepath = path })

  abbrev load_at : Result String → W → Result ConfigFile
  load_at (err e) w = err (wrap "config path: " e)
  load_at (ok path) w = located path (load_from_filepath path w)

  unfoldable pub load : W → Result ConfigFile
  unfolding filepath load_from_filepath
  load w =
      if str_eq (m.getenv "DOCKER_AUTH_CONFIG" w) ""
      then load_at (filepath w) w
      else context "unmarshal DOCKER_AUTH_CONFIG: "
          (m.unmarshal_text (m.getenv "DOCKER_AUTH_CONFIG" w))

  abbrev written : Result Bytes → String → W → Option Error × W
  written (err e) path w = (some (wrap "json marshal: " e), w)
  written (ok bytes) path w = m.write_file path bytes w

  unfoldable pub save : ConfigFile → W → Option Error × W
  save cfg w = written (m.marshal cfg) cfg.filepath w
