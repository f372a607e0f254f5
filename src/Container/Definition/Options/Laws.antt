-- ===== src/Container/Definition/Options/Laws.antt =====
-- What the options on environments and networks leave.
use docker_go_sdk.Common.{String, ◌≡◌, refl, none}
use docker_go_sdk.Common.Dict.{Dict, lookup, copy, last_or, lookup-copy}
use docker_go_sdk.Container.Definition.{Definition}
use docker_go_sdk.Container.Definition.Options.{with_env}

module _ {H F L C : Type 0} where
  -- Two `WithEnv` options, one after the other: each variable has its value from the second map,
  -- else from the first, else the one that the definition had before. Neither returns an error.
  pub with_env-with_env :
      (k : String) (first second : Dict String) (d : Definition H F L C)
      → ((with_env second (with_env first d).1).0 ≡ none)
        × (lookup k (with_env second (with_env first d).1).1.env
            ≡ last_or k second (last_or k first (lookup k d.env)))
  unfolding with_env
  with_env-with_env k first second d =
      (refl, rw (lookup-copy k (copy d.env first) second, lookup-copy k d.env first))
