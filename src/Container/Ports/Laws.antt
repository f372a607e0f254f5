-- ===== src/Container/Ports/Laws.antt =====
-- What `mergePortBindings` leaves under each port.
use mathlib.Core.Path.{subst}
use mathlib.Core.List.{map}
use docker_go_sdk.Common.{
  String, ◌≡◌, refl, sym, ◌∙◌, ap, false, Option, none, some, List, [], ◌∷◌, str_eq, if◌then◌else◌,
  arith, eq_iff, All, Bool-cases, inl, inr, Bool, true, ◌||◌, Option-cases,
}
use docker_go_sdk.Common.Dict.{lookup, insert, lookup-insert}
use docker_go_sdk.Container.Ports.{
  PortBinding, PortMap, mapped_ports, is_mapped, override_mapped, allocate, allocate_all,
  allocate_ports, merge_port_bindings,
}

-- The last entry of the list with the key, and otherwise the given value.
unfoldable pub last_binding :
    String → PortMap → Option (List PortBinding) → Option (List PortBinding)
last_binding k [] otherwise = otherwise
last_binding k ((j, v) ∷ config) otherwise =
    last_binding k config (if str_eq j k then some v else otherwise)

abbrev is_port : String → Option String → Bool
is_port port none = false
is_port port (some p) = str_eq port p

-- One of the texts parses to the port.
unfoldable pub exposes : (String → Option String) → String → List String → Bool
exposes parse port [] = false
exposes parse port (text ∷ texts) = is_port port (parse text) || exposes parse port texts

-- The binding with a host port: "0", which lets the daemon choose, where none is given.
abbrev pub with_port : PortBinding → PortBinding
with_port b = record {
  host_ip = b.host_ip;
  host_port = if str_eq "" b.host_port then "0" else b.host_port;
}

abbrev pub with_ports : Option (List PortBinding) → Option (List PortBinding)
with_ports none = none
with_ports (some bs) = some (map with_port bs)

abbrev map_bindings : Option (List PortBinding) → Option (List PortBinding)
map_bindings none = none
map_bindings (some bs) = some (allocate_all bs)

allocate-with_port : (b : PortBinding) → allocate b ≡ with_port b
allocate-with_port b = elim (Bool-cases (str_eq b.host_port "")) [
  | inl h ↦ rw (h, flipped b.host_port true h) refl
  | inr h ↦ rw (h, flipped b.host_port false h) refl
]
  where
    flipped : (text : String) (r : Bool) → str_eq text "" ≡ r → str_eq "" text ≡ r
    flipped text r e = ground (arith, eq_iff text "", eq_iff "" text)

allocate_all-eq-map : (bs : List PortBinding) → allocate_all bs ≡ map with_port bs
unfolding allocate_all
allocate_all-eq-map [] = refl
allocate_all-eq-map (b ∷ bs) = rw (allocate-with_port b, allocate_all-eq-map bs)

map_bindings-eq : (o : Option (List PortBinding)) → map_bindings o ≡ with_ports o
map_bindings-eq none = refl
map_bindings-eq (some bs) = ap some (allocate_all-eq-map bs)

is_mapped-eq-exposes :
    (parse : String → Option String) (port : String) (texts : List String)
    → is_mapped port (mapped_ports parse texts) ≡ exposes parse port texts
unfolding is_mapped mapped_ports exposes
is_mapped-eq-exposes parse port [] = refl
is_mapped-eq-exposes parse port (text ∷ texts) = elim (Option-cases (parse text)) [
  | inl e ↦ rw e (is_mapped-eq-exposes parse port texts)
  | inr (p, e) ↦
      rw (e, is_mapped-eq-exposes parse port texts) (ground (arith, eq_iff p port, eq_iff port p))
]

lookup-allocate_ports :
    (k : String) (m : PortMap) → lookup k (allocate_ports m) ≡ map_bindings (lookup k m)
unfolding lookup allocate_ports
lookup-allocate_ports k [] = refl
lookup-allocate_ports k ((j, v) ∷ m) = ground (arith, lookup-allocate_ports k m)

override_one :
    (mapped : List String) (k j : String) (v : List PortBinding) (m : PortMap)
    → lookup k (if is_mapped j mapped then insert j v m else m)
      ≡ (if is_mapped k mapped then (if str_eq j k then some v else lookup k m) else lookup k m)
override_one mapped k j v m = ground (arith, lookup-insert j k v m, eq_iff j k)

lookup-override_mapped :
    (mapped : List String) (k : String) (config exposed : PortMap)
    → lookup k (override_mapped mapped config exposed)
      ≡ (if is_mapped k mapped then last_binding k config (lookup k exposed) else lookup k exposed)
unfolding override_mapped last_binding
lookup-override_mapped mapped k [] exposed = ground arith
lookup-override_mapped mapped k ((j, v) ∷ config) exposed = ground (
  arith,
  override_one mapped k j v exposed,
  lookup-override_mapped mapped k config
      (if is_mapped j mapped then insert j v exposed else exposed),
)

-- Under each port, `mergePortBindings` leaves the configured bindings where one of the exposed texts
-- parses to the port and the configuration has it, and otherwise the bindings that the port had, in
-- both cases with the host port "0" in place of an empty one. Texts that do not parse change nothing.
-- It adds no other port.
pub merge_port_bindings_lem :
    (parse : String → Option String) (config exposed : PortMap) (exposed_ports : List String)
    (port : String)
    → lookup port (merge_port_bindings parse config exposed exposed_ports)
      ≡ with_ports (
          if exposes parse port exposed_ports
          then last_binding port config (lookup port exposed)
          else lookup port exposed)
unfolding merge_port_bindings
merge_port_bindings_lem parse config exposed exposed_ports port =
    lookup-allocate_ports port (override_mapped (mapped_ports parse exposed_ports) config exposed)
    ∙ map_bindings-eq _
    ∙ ap with_ports (
        lookup-override_mapped (mapped_ports parse exposed_ports) port config exposed
        ∙ ap
            (λ (b : Bool).
              if b then last_binding port config (lookup port exposed) else lookup port exposed)
            (is_mapped-eq-exposes parse port exposed_ports))

-- No binding of the list leaves the host port open.
abbrev pub AreAllocated : List PortBinding → Type 0
AreAllocated bs = All (λ b. str_eq b.host_port "" ≡ false) bs

with_port-AreAllocated : (bs : List PortBinding) → AreAllocated (map with_port bs)
with_port-AreAllocated [] = tt
with_port-AreAllocated (b ∷ bs) = (
  elim (Bool-cases (str_eq "" b.host_port)) [
    | inl h ↦ rw h refl
    | inr h ↦ rw h (ground (arith, eq_iff "" b.host_port, eq_iff b.host_port ""))
  ],
  with_port-AreAllocated bs,
)

bindings_injective : {a b : List PortBinding} → some a ≡ some b → a ≡ b
bindings_injective h = cc

with_ports-AreAllocated :
    (o : Option (List PortBinding)) (bs : List PortBinding)
    → with_ports o ≡ some bs
    → AreAllocated bs
with_ports-AreAllocated none bs h = cc
with_ports-AreAllocated (some given) bs h =
    subst AreAllocated (bindings_injective h) (with_port-AreAllocated given)

-- No binding that `mergePortBindings` returns has an empty host port.
pub merge_port_bindings-AreAllocated :
    (parse : String → Option String) (config exposed : PortMap) (exposed_ports : List String)
    (port : String) (bs : List PortBinding)
    → lookup port (merge_port_bindings parse config exposed exposed_ports) ≡ some bs
    → AreAllocated bs
merge_port_bindings-AreAllocated parse config exposed exposed_ports port bs h =
    with_ports-AreAllocated _ bs
      (sym (merge_port_bindings_lem parse config exposed exposed_ports port) ∙ h)
