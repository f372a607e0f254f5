-- ===== src/Config/Resolve/Laws.antt =====
-- Where the credentials of a registry come from.
use docker_go_sdk.Common.{String, ◌≡◌, refl, ◌≢◌, [], ◌∷◌, ◌++◌, All}
use docker_go_sdk.Common.Bytes.{Bytes}
use docker_go_sdk.Common.Bytes.Laws.{cut_byte-append}
use docker_go_sdk.Config.Base64.{decode}
use docker_go_sdk.Config.Base64.RoundTrip.{encode, IsByte, decode-encode, encode-cons}
use docker_go_sdk.Config.Credentials.{System}
use docker_go_sdk.Config.Registry.{resolve_registry_host, resolve_registry_host_idem}
use docker_go_sdk.Config.Resolve.{
  Config, decode_base64_auth, decoded, resolve_auth_config_for_hostname,
}
use docker_go_sdk.GoError.{ok}

decode_base64_auth_lem : (s : Bytes) → s ≢ [] → decode_base64_auth s ≡ decoded (decode s)
unfolding decode_base64_auth
decode_base64_auth_lem [] h = absurd (h refl)
decode_base64_auth_lem (c ∷ s) h = refl

encode_pair : (user pass : Bytes) → encode (user ++ b':' ∷ pass) ≢ []
encode_pair [] pass = encode-cons b':' pass
encode_pair (c ∷ user) pass = encode-cons c (user ++ b':' ∷ pass)

-- The stored form of a user name and a password, the standard Base64 of the two with a colon
-- between them, is decoded to the same two, if the user name has no colon.
pub decode_base64_auth-encode :
    (user pass : Bytes)
    → All (λ c. c ≢ b':') user
    → All IsByte (user ++ b':' ∷ pass)
    → decode_base64_auth (encode (user ++ b':' ∷ pass)) ≡ ok (user, pass)
decode_base64_auth-encode user pass no_colon bytes = rw (
  decode_base64_auth_lem (encode (user ++ b':' ∷ pass)) (encode_pair user pass),
  decode-encode (user ++ b':' ∷ pass) bytes,
  cut_byte-append b':' user pass no_colon,
)

-- All spellings of Docker Hub have the credentials of its index.
pub resolve_auth_config-resolved :
    {W : Type 0} (sys : System W) (c : Config) (host : String) (w : W)
    → resolve_auth_config_for_hostname sys c (resolve_registry_host host) w
      ≡ resolve_auth_config_for_hostname sys c host w
unfolding resolve_auth_config_for_hostname
resolve_auth_config-resolved sys c host w = rw (resolve_registry_host_idem host)
