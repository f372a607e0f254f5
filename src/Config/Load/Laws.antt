-- ===== src/Config/Load/Laws.antt =====
-- Where a loaded configuration comes from, and how the loading fails.
use docker_go_sdk.Common.{String, ◌≡◌, inl, inr, str_eq, Bool-cases}
use docker_go_sdk.Config.Load.{
  ConfigFile, Machine, located, load_at, filepath, load_from_filepath, load,
}
use docker_go_sdk.GoError.{Error, wrap, Result, ok, err, context}

-- The error is one that `fmt.Errorf` has wrapped.
abbrev pub IsWrapped : Error → Type 0
IsWrapped e = (text : String) × (inner : Error) × (e ≡ wrap text inner)

context-IsWrapped :
    {A : Type 0} (text : String) (r : Result A) (e : Error) → context text r ≡ err e → IsWrapped e
context-IsWrapped text (ok a) e h = absurd (cc h)
context-IsWrapped text (err x) e h = (text, x, cc h)

module _ {W : Type 0} (m : Machine W) where
  located-IsWrapped :
      (path : String) (r : Result ConfigFile) (e : Error) → located m path r ≡ err e → IsWrapped e
  located-IsWrapped path (ok cfg) e h = absurd (cc h)
  located-IsWrapped path (err x) e h = ("load config: ", x, cc h)

  load_at-IsWrapped :
      (path : Result String) (w : W) (e : Error) → load_at m path w ≡ err e → IsWrapped e
  load_at-IsWrapped (ok path) w e h = located-IsWrapped path (load_from_filepath m path w) e h
  load_at-IsWrapped (err x) w e h = ("config path: ", x, cc h)

  -- Each error of the loading is a wrapped one.
  pub load-IsWrapped : (w : W) (e : Error) → load m w ≡ err e → IsWrapped e
  unfolding load
  load-IsWrapped w e h = elim (Bool-cases (str_eq (m.getenv "DOCKER_AUTH_CONFIG" w) "")) [
    | inl q ↦ load_at-IsWrapped (filepath m w) w e (rw q at h)
    | inr q ↦ context-IsWrapped _ _ e (rw q at h)
  ]
