-- ===== src/Config/Proxy/Laws.antt =====
-- What `ParseProxyConfig` leaves under each key.
use mathlib.Core.Path.{subst}
use docker_go_sdk.Common.{
  String, ◌≡◌, refl, ◌∙◌, ap, true, false, Bool-cases, inl, inr, ◌||◌, Option, none, some, List, [],
  ◌∷◌, arith, eq_iff, str_eq, if◌then◌else◌,
}
use docker_go_sdk.Common.Dict.{Dict, lookup, lookup-insert}
use docker_go_sdk.Config.Resolve.{Config, ProxyConfig}
use docker_go_sdk.Config.Proxy.{
  host_or, no_proxies, proxy_for, permitted, insert_new, set_proxies, parse_proxy_config,
}

abbrev pub or_else {ℓ} : {A : Type ℓ} → Option A → Option A → Option A
or_else none otherwise = otherwise
or_else (some a) otherwise = some a

-- The value of the first entry with this key, in upper or lower case, that is not empty.
unfoldable assigned : String → List (String × (String × String)) → Option (Option String)
assigned k [] = none
assigned k ((upper, (lower, value)) ∷ rest) =
    let later = assigned k rest in
    if str_eq value ""
    then later
    else if str_eq upper k || str_eq lower k
    then some (some value)
    else later

lookup-insert_new :
    (j k v : String) (m : Dict (Option String))
    → lookup k (insert_new j v m)
      ≡ or_else (lookup k m) (if str_eq j k then some (some v) else none)
unfolding insert_new
lookup-insert_new j k v m = ground (arith, lookup-insert j k (some v) m, eq_iff j k)

lookup-set_proxies :
    (k : String) (table : List (String × (String × String))) (m : Dict (Option String))
    → lookup k (set_proxies table m) ≡ or_else (lookup k m) (assigned k table)
unfolding set_proxies assigned
lookup-set_proxies k [] m = ground arith
lookup-set_proxies k ((upper, (lower, value)) ∷ rest) m = ground (
  arith,
  lookup-set_proxies k rest m,
  lookup-set_proxies k rest (insert_new lower value (insert_new upper value m)),
  lookup-insert_new lower k value (insert_new upper value m),
  lookup-insert_new upper k value m,
)

-- The setting of a configuration that a key names, in upper or lower case; empty for other keys.
abbrev pub setting : ProxyConfig → String → String
setting conf k =
    if str_eq "HTTP_PROXY" k || str_eq "http_proxy" k
    then conf.http_proxy
    else if str_eq "HTTPS_PROXY" k || str_eq "https_proxy" k
    then conf.https_proxy
    else if str_eq "NO_PROXY" k || str_eq "no_proxy" k
    then conf.no_proxy
    else if str_eq "FTP_PROXY" k || str_eq "ftp_proxy" k
    then conf.ftp_proxy
    else if str_eq "ALL_PROXY" k || str_eq "all_proxy" k
    then conf.all_proxy
    else ""

-- The configuration of the host, or else the default one.
abbrev pub chosen : Config → String → Option ProxyConfig
chosen c host = or_else (lookup host c.proxies) (lookup "default" c.proxies)

abbrev pub stated : String → Option (Option String)
stated value = if str_eq value "" then none else some (some value)

-- What a configuration adds under a key: its setting, unless that is empty.
abbrev pub added : String → Option ProxyConfig → Option (Option String)
added k none = none
added k (some conf) = stated (setting conf k)

assigned-http_proxy :
    (conf : ProxyConfig)
    → (assigned "HTTP_PROXY" (permitted conf) ≡ added "HTTP_PROXY" (some conf))
      × (assigned "http_proxy" (permitted conf) ≡ added "http_proxy" (some conf))
unfolding assigned
assigned-http_proxy conf = (ground arith, ground arith)

assigned-https_proxy :
    (conf : ProxyConfig)
    → (assigned "HTTPS_PROXY" (permitted conf) ≡ added "HTTPS_PROXY" (some conf))
      × (assigned "https_proxy" (permitted conf) ≡ added "https_proxy" (some conf))
unfolding assigned
assigned-https_proxy conf = (ground arith, ground arith)

assigned-no_proxy :
    (conf : ProxyConfig)
    → (assigned "NO_PROXY" (permitted conf) ≡ added "NO_PROXY" (some conf))
      × (assigned "no_proxy" (permitted conf) ≡ added "no_proxy" (some conf))
unfolding assigned
assigned-no_proxy conf = (ground arith, ground arith)

assigned-ftp_proxy :
    (conf : ProxyConfig)
    → (assigned "FTP_PROXY" (permitted conf) ≡ added "FTP_PROXY" (some conf))
      × (assigned "ftp_proxy" (permitted conf) ≡ added "ftp_proxy" (some conf))
unfolding assigned
assigned-ftp_proxy conf = (ground arith, ground arith)

assigned-all_proxy :
    (conf : ProxyConfig)
    → (assigned "ALL_PROXY" (permitted conf) ≡ added "ALL_PROXY" (some conf))
      × (assigned "all_proxy" (permitted conf) ≡ added "all_proxy" (some conf))
unfolding assigned
assigned-all_proxy conf = (ground arith, ground arith)

absent :
    (conf : ProxyConfig) (k : String)
    → str_eq "HTTP_PROXY" k ≡ false
    → str_eq "http_proxy" k ≡ false
    → str_eq "HTTPS_PROXY" k ≡ false
    → str_eq "https_proxy" k ≡ false
    → str_eq "NO_PROXY" k ≡ false
    → str_eq "no_proxy" k ≡ false
    → str_eq "FTP_PROXY" k ≡ false
    → str_eq "ftp_proxy" k ≡ false
    → str_eq "ALL_PROXY" k ≡ false
    → str_eq "all_proxy" k ≡ false
    → assigned k (permitted conf) ≡ added k (some conf)
unfolding assigned
absent conf k h1 h2 h3 h4 h5 h6 h7 h8 h9 h10 =
    rw (h1, h2, h3, h4, h5, h6, h7, h8, h9, h10) (ground arith)

at_key :
    (conf : ProxyConfig) (k name : String)
    → str_eq name k ≡ true
    → assigned name (permitted conf) ≡ added name (some conf)
    → assigned k (permitted conf) ≡ added k (some conf)
at_key conf k name h e =
    subst (λ key. assigned key (permitted conf) ≡ added key (some conf)) ((eq_iff name k).0 h) e

assigned-permitted :
    (conf : ProxyConfig) (k : String) → assigned k (permitted conf) ≡ added k (some conf)
assigned-permitted conf k = elim (Bool-cases (str_eq "HTTP_PROXY" k)) [
  | inl h ↦ at_key conf k "HTTP_PROXY" h (assigned-http_proxy conf).0
  | inr h1 ↦ elim (Bool-cases (str_eq "http_proxy" k)) [
    | inl h ↦ at_key conf k "http_proxy" h (assigned-http_proxy conf).1
    | inr h2 ↦ elim (Bool-cases (str_eq "HTTPS_PROXY" k)) [
      | inl h ↦ at_key conf k "HTTPS_PROXY" h (assigned-https_proxy conf).0
      | inr h3 ↦ elim (Bool-cases (str_eq "https_proxy" k)) [
        | inl h ↦ at_key conf k "https_proxy" h (assigned-https_proxy conf).1
        | inr h4 ↦ elim (Bool-cases (str_eq "NO_PROXY" k)) [
          | inl h ↦ at_key conf k "NO_PROXY" h (assigned-no_proxy conf).0
          | inr h5 ↦ elim (Bool-cases (str_eq "no_proxy" k)) [
            | inl h ↦ at_key conf k "no_proxy" h (assigned-no_proxy conf).1
            | inr h6 ↦ elim (Bool-cases (str_eq "FTP_PROXY" k)) [
              | inl h ↦ at_key conf k "FTP_PROXY" h (assigned-ftp_proxy conf).0
              | inr h7 ↦ elim (Bool-cases (str_eq "ftp_proxy" k)) [
                | inl h ↦ at_key conf k "ftp_proxy" h (assigned-ftp_proxy conf).1
                | inr h8 ↦ elim (Bool-cases (str_eq "ALL_PROXY" k)) [
                  | inl h ↦ at_key conf k "ALL_PROXY" h (assigned-all_proxy conf).0
                  | inr h9 ↦ elim (Bool-cases (str_eq "all_proxy" k)) [
                    | inl h ↦ at_key conf k "all_proxy" h (assigned-all_proxy conf).1
                    | inr h10 ↦ absent conf k h1 h2 h3 h4 h5 h6 h7 h8 h9 h10
                  ]
                ]
              ]
            ]
          ]
        ]
      ]
    ]
  ]
]

setting-no_proxies : (k : String) → setting no_proxies k ≡ ""
setting-no_proxies k = ground arith

host_or-added :
    (k : String) (given default_ : Option ProxyConfig)
    → added k (some (host_or given default_)) ≡ added k (or_else given default_)
host_or-added k (some conf) default_ = refl
host_or-added k none (some conf) = refl
host_or-added k none none = ap stated (setting-no_proxies k)

proxy_for-chosen :
    (c : Config) (host k : String) → added k (some (proxy_for c host)) ≡ added k (chosen c host)
unfolding proxy_for
proxy_for-chosen c host k = host_or-added k (lookup host c.proxies) (lookup "default" c.proxies)

-- Under each key, `ParseProxyConfig` leaves what the container's options have there, even a nil
-- value, and otherwise the setting of the chosen configuration that the key names, in upper or lower
-- case, where that setting is not empty: the configuration under the host, or else the one under
-- "default". It adds no other key.
pub parse_proxy_config_lem :
    (c : Config) (host k : String) (run_opts : Dict (Option String))
    → lookup k (parse_proxy_config c host run_opts)
      ≡ or_else (lookup k run_opts) (added k (chosen c host))
unfolding parse_proxy_config
parse_proxy_config_lem c host k run_opts =
    lookup-set_proxies k (permitted (proxy_for c host)) run_opts
    ∙ ap (or_else (lookup k run_opts))
        (assigned-permitted (proxy_for c host) k ∙ proxy_for-chosen c host k)
