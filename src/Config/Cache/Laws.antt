-- ===== src/Config/Cache/Laws.antt =====
-- The cache changes no answer.
use docker_go_sdk.Common.{All, ◌∷◌, true, false}
use mathlib.Core.Path.{subst}
use docker_go_sdk.Common.{
  String, ◌≡◌, refl, Option, none, some, [], arith, eq_iff, eq_refl, sym, str_eq, if◌then◌else◌,
}
use docker_go_sdk.Common.Dict.{Dict, insert, lookup, lookup-insert}
use docker_go_sdk.Config.Credentials.{AuthConfig, System}
use docker_go_sdk.Config.Resolve.{Config, resolve_auth_config_for_hostname}
use docker_go_sdk.Config.Cache.{Cached, auth_config_for_hostname, store_result, on_miss}
use docker_go_sdk.GoError.{Result, ok, err}

module _ {W : Type 0} (sys : System W) (c : Config) where
  -- What a miss that resolved leaves in the cache is found again.
  hit_after_store :
      (entries : Dict AuthConfig) (hostname : String) (r : Result AuthConfig × W) (s' : Cached W)
      (a : AuthConfig)
      → store_result sys c entries hostname r ≡ (ok a, s')
      → lookup hostname s'.entries ≡ some a
  hit_after_store entries hostname (ok a', w) s' a h =
      ground (arith, lookup-insert hostname hostname a' entries, eq_refl hostname)
  hit_after_store entries hostname (err e, w) s' a h = cc

  hit_after :
      (hostname : String) (found : Option AuthConfig) (s s' : Cached W) (a : AuthConfig)
      → lookup hostname s.entries ≡ found
      → on_miss sys c found hostname s ≡ (ok a, s')
      → lookup hostname s'.entries ≡ some a
  hit_after hostname none s s' a found h =
      hit_after_store s.entries hostname (resolve_auth_config_for_hostname sys c hostname s.world)
        s' a h
  hit_after hostname (some a') s s' a found h = cc

  -- The second of two calls for one host name returns what the first returned, and asks no helper:
  -- it leaves the world and the cache as they are.
  pub auth_config_for_hostname_again :
      (hostname : String) (s s' : Cached W) (a : AuthConfig)
      → auth_config_for_hostname sys c hostname s ≡ (ok a, s')
      → auth_config_for_hostname sys c hostname s' ≡ (ok a, s')
  unfolding auth_config_for_hostname
  auth_config_for_hostname_again hostname s s' a h =
      subst (λ found. on_miss sys c found hostname s' ≡ (ok a, s'))
        (sym (hit_after hostname (lookup hostname s.entries) s s' a refl h)) refl

-- When the answer for a host name does not change with the world:
module _ {W : Type 0} (sys : System W) (c : Config) (answer : String → Result AuthConfig)
    (is_stable : (hostname : String) (w : W)
      → (resolve_auth_config_for_hostname sys c hostname w).0 ≡ answer hostname) where
  -- Each entry of the cache is the answer for its host name.
  abbrev pub IsCoherent : Dict AuthConfig → Type 0
  IsCoherent entries = All (λ entry. answer entry.0 ≡ ok entry.1) entries

  lookup-IsCoherent :
      (hostname : String) (a : AuthConfig) (entries : Dict AuthConfig)
      → IsCoherent entries
      → lookup hostname entries ≡ some a
      → answer hostname ≡ ok a
  unfolding lookup
  lookup-IsCoherent hostname a [] coherent found = cc
  lookup-IsCoherent hostname a ((other, b) ∷ entries) (holds, rest) found =
      ground (arith, eq_iff other hostname, lookup-IsCoherent hostname a entries rest)

  insert-IsCoherent :
      (hostname : String) (a : AuthConfig) (entries : Dict AuthConfig)
      → IsCoherent entries
      → answer hostname ≡ ok a
      → IsCoherent (insert hostname a entries)
  unfolding insert
  insert-IsCoherent hostname a [] coherent answered = (answered, tt)
  insert-IsCoherent hostname a ((other, b) ∷ entries) (holds, rest) answered =
      elim (str_eq other hostname)
        as (λ same.
          IsCoherent
            (if same then (hostname, a) ∷ entries else (other, b) ∷ insert hostname a entries)) [
              | true ↦ (answered, rest)
              | false ↦ (holds, insert-IsCoherent hostname a entries rest answered)
            ]

  stored :
      (entries : Dict AuthConfig) (hostname : String) (r : Result AuthConfig × W)
      → IsCoherent entries
      → r.0 ≡ answer hostname
      → ((store_result sys c entries hostname r).0 ≡ answer hostname)
        × IsCoherent (store_result sys c entries hostname r).1.entries
  stored entries hostname (ok a, w) coherent answered =
      (answered, insert-IsCoherent hostname a entries coherent (sym answered))
  stored entries hostname (err e, w) coherent answered = (answered, coherent)

  answered :
      (hostname : String) (found : Option AuthConfig) (s : Cached W)
      → IsCoherent s.entries
      → lookup hostname s.entries ≡ found
      → ((on_miss sys c found hostname s).0 ≡ answer hostname)
        × IsCoherent (on_miss sys c found hostname s).1.entries
  answered hostname none s coherent found =
      stored s.entries hostname (resolve_auth_config_for_hostname sys c hostname s.world) coherent
        (is_stable hostname s.world)
  answered hostname (some a) s coherent found =
      (sym (lookup-IsCoherent hostname a s.entries coherent found), coherent)

  -- Where the answer for a host name does not change with the world: from a coherent cache, whose
  -- entries are such answers, a lookup gives the answer that resolving without a cache gives,
  -- whether an error or credentials, and leaves a coherent cache.
  pub auth_config_for_hostname_refines :
      (hostname : String) (s : Cached W)
      → IsCoherent s.entries
      → ((auth_config_for_hostname sys c hostname s).0 ≡ answer hostname)
        × IsCoherent (auth_config_for_hostname sys c hostname s).1.entries
  unfolding auth_config_for_hostname
  auth_config_for_hostname_refines hostname s coherent =
      answered hostname (lookup hostname s.entries) s coherent refl
