-- ===== src/Container/Endpoints/Tests.antt =====
-- Ports that the daemon reports, and the port that they map.
use Prim.Native.String
use docker_go_sdk.Common.{String, ◌≡◌, refl, ◌⊎◌, none, some, List, [], ◌∷◌, All, Contains}
use docker_go_sdk.Container.Endpoints.{
  Port, Reporter, lowest_from, find_mapped, mapped_port, endpoint, not_found,
}
use docker_go_sdk.Container.Endpoints.Laws.{
  IsLowest, lowest_from-IsLowest, IsUnbound, find_mapped_lem,
}
use docker_go_sdk.GoError.{ok, err}

abbrev web : Port
web = record { num = 80; proto = "tcp" }

abbrev dns : Port
dns = record { num = 53; proto = "udp" }

abbrev bound : List (Port × List String)
bound = (dns, []) ∷ (web, "32768" ∷ []) ∷ []

abbrev reporter : Reporter Unit
reporter = record {
  inspect = λ w. (ok (record { network_mode = "bridge"; ports = bound; networks = [] }), w);
  host = λ w. (ok "localhost", w);
  parse_port = λ text. ok (record { num = 32768; proto = "tcp" });
  join_host_port = λ host num. String.◌++◌ host ":32768";
}

mapped_port_test : mapped_port reporter web tt ≡ (ok (record { num = 32768; proto = "tcp" }), tt)
unfolding mapped_port
mapped_port_test = refl

endpoint_test : endpoint reporter "tcp" tt ≡ (err (not_found "port not found"), tt)
unfolding endpoint
endpoint_test = refl

lowest_from-IsLowest_example :
    (p : Port) × (lowest_from none (web ∷ dns ∷ []) ≡ some p)
    × Contains p (web ∷ dns ∷ [])
    × IsLowest p (web ∷ dns ∷ [])
lowest_from-IsLowest_example = lowest_from-IsLowest web (dns ∷ [])

find_mapped_example :
    ((b : String) × (bs : List String) × Contains (web, b ∷ bs) bound
      × (find_mapped reporter web bound
          ≡ reporter.parse_port (String.◌++◌ b (String.◌++◌ "/" "tcp"))))
    ⊎ (All (IsUnbound reporter web) bound
        × (find_mapped reporter web bound ≡ err (not_found "port not found")))
find_mapped_example = find_mapped_lem reporter web bound
