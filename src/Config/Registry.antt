-- ===== src/Config/Registry.antt =====
-- config/auth/registry.go. The parser of image references, github.com/distribution/reference, is a
-- parameter: it gives the parts of a reference, each empty where the reference has no such part.
use docker_go_sdk.Common.{String, ◌≡◌, ◌||◌, arith, str_eq, if◌then◌else◌}
use docker_go_sdk.GoError.{Result, context}

abbrev pub index_docker_io : String
index_docker_io = "https://index.docker.io/v1/"

abbrev pub docker_registry : String
docker_registry = "docker.io"

pub record ImageReference : Type 0 where
  pub registry : String
  pub repository : String
  pub tag : String
  pub digest : String

abbrev pub ReferenceParser : Type 0
ReferenceParser = String → Result ImageReference

unfoldable pub parse_image_ref : ReferenceParser → String → Result ImageReference
parse_image_ref parse image_ref = context "parse image ref: " (parse image_ref)

unfoldable pub resolve_registry_host : String → String
resolve_registry_host host =
    if str_eq host "index.docker.io"
      || str_eq host "docker.io"
      || str_eq host index_docker_io
      || str_eq host "registry-1.docker.io"
      || str_eq host "index.docker.io/v1"
      || str_eq host "index.docker.io/v1/"
    then index_docker_io
    else host

-- A resolved host name is resolved to itself.
pub resolve_registry_host_idem :
    (host : String)
    → resolve_registry_host (resolve_registry_host host) ≡ resolve_registry_host host
unfolding resolve_registry_host
resolve_registry_host_idem host = ground arith
