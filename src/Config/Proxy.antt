-- ===== src/Config/Proxy.antt =====
-- config/config.go: `ParseProxyConfig`.
pub mod Laws
use docker_go_sdk.Common.{String, Bool, Option, none, some, List, [], ◌∷◌, str_eq, if◌then◌else◌}
use docker_go_sdk.Common.Bytes.{is_some}
use docker_go_sdk.Common.Dict.{Dict, lookup, insert}
use docker_go_sdk.Config.Resolve.{Config, ProxyConfig}

-- The zero value of `ProxyConfig`, which a Go map gives for a missing key.
abbrev pub no_proxies : ProxyConfig
no_proxies = record {
  http_proxy = "";
  https_proxy = "";
  no_proxy = "";
  ftp_proxy = "";
  all_proxy = "";
}

abbrev or_zero : Option ProxyConfig → ProxyConfig
or_zero none = no_proxies
or_zero (some conf) = conf

abbrev pub host_or : Option ProxyConfig → Option ProxyConfig → ProxyConfig
host_or none default_ = or_zero default_
host_or (some conf) default_ = conf

-- The configuration under the host, or else under `default`.
unfoldable pub proxy_for : Config → String → ProxyConfig
unfolding lookup
proxy_for c host = host_or (lookup host c.proxies) (lookup "default" c.proxies)

-- `permitted`, each key with its `strings.ToLower`.
abbrev pub permitted : ProxyConfig → List (String × (String × String))
permitted conf =
    ("HTTP_PROXY", ("http_proxy", conf.http_proxy))
    ∷ ("HTTPS_PROXY", ("https_proxy", conf.https_proxy))
    ∷ ("NO_PROXY", ("no_proxy", conf.no_proxy))
    ∷ ("FTP_PROXY", ("ftp_proxy", conf.ftp_proxy))
    ∷ ("ALL_PROXY", ("all_proxy", conf.all_proxy))
    ∷ []

-- if _, ok := m[k]; !ok { m[k] = v }, where the values are pointers that may be nil.
unfoldable pub insert_new : String → String → Dict (Option String) → Dict (Option String)
unfolding lookup insert
insert_new k v m = let added = insert k (some v) m in if is_some (lookup k m) then m else added

unfoldable pub set_proxies :
    List (String × (String × String)) → Dict (Option String) → Dict (Option String)
unfolding insert_new
set_proxies [] m = m
set_proxies ((upper, (lower, value)) ∷ rest) m =
    let skipped = set_proxies rest m in
    let added = set_proxies rest (insert_new lower value (insert_new upper value m)) in
    if str_eq value "" then skipped else added

-- The arguments are the host and `runOpts`, whose nil is the empty map.
unfoldable pub parse_proxy_config : Config → String → Dict (Option String) → Dict (Option String)
unfolding proxy_for set_proxies
parse_proxy_config c host run_opts = set_proxies (permitted (proxy_for c host)) run_opts
