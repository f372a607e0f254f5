-- ===== src/Container/Definition/Options/Networks.antt =====
-- The networks of a definition and their aliases, and the option that fails first.
use mathlib.Core.Path.{subst}
use docker_go_sdk.Common.{
  String, ◌≡◌, sym, ap, inl, inr, Option-cases, Bool, true, false, ◌||◌, some, List, [], ◌∷◌, ◌++◌,
  arith, eq_refl, str_eq, if◌then◌else◌, All, Bool-cases,
}
use docker_go_sdk.Common.Dict.{Dict, insert}
use docker_go_sdk.Container.Definition.{Definition, customize, define, new_definition, validated}
use docker_go_sdk.Container.Definition.Options.{
  attach_network, with_network_name, with_bridge_network,
}
use docker_go_sdk.GoError.{Error, ok, err, wrap}
use docker_go_sdk.Lifecycle.{Hook}

unfoldable pub has : String → List String → Bool
has name [] = false
has name (n ∷ names) = str_eq n name || has name names

-- Each network with aliases is one of the networks, and not "bridge".
abbrev pub AreAliased : Dict (List String) → List String → Type 0
AreAliased aliases networks =
    All (λ entry. (has entry.0 networks ≡ true) × (str_eq entry.0 "bridge" ≡ false)) aliases

has-snoc :
    (name last : String) (names : List String)
    → has name names ≡ true
    → has name (names ++ last ∷ []) ≡ true
unfolding has
has-snoc name last [] h = cc
has-snoc name last (n ∷ names) h = ground (arith, has-snoc name last names)

has-last : (name : String) (names : List String) → has name (names ++ name ∷ []) ≡ true
unfolding has
has-last name [] = ground (arith, eq_refl name)
has-last name (n ∷ names) = ground (arith, has-last name names)

more-AreAliased :
    (aliases : Dict (List String)) (networks : List String) (last : String)
    → AreAliased aliases networks
    → AreAliased aliases (networks ++ last ∷ [])
more-AreAliased [] networks last h = tt
more-AreAliased ((n, names) ∷ aliases) networks last ((member, no_bridge), h) =
    ((has-snoc n last networks member, no_bridge), more-AreAliased aliases networks last h)

insert-AreAliased :
    (name : String) (names : List String) (aliases : Dict (List String)) (networks : List String)
    → has name networks ≡ true
    → str_eq name "bridge" ≡ false
    → AreAliased aliases networks
    → AreAliased (insert name names aliases) networks
unfolding insert
insert-AreAliased name names [] networks member no_bridge h = ((member, no_bridge), tt)
insert-AreAliased name names ((n, old) ∷ aliases) networks member no_bridge (first, h) =
    elim (str_eq n name)
      as (λ same.
        AreAliased (if same then (name, names) ∷ aliases else (n, old) ∷ insert name names aliases)
          networks) [
            | true ↦ ((member, no_bridge), h)
            | false ↦ (first, insert-AreAliased name names aliases networks member no_bridge h)
          ]

module _ {H F L C : Type 0} where
  -- `WithNetworkName`, whether it succeeds or not, and `WithBridgeNetwork` keep this: each network
  -- with aliases is one of the definition's networks, and it is not "bridge".
  pub with_network_name-AreAliased :
      (aliases : List String) (name : String) (d : Definition H F L C)
      → AreAliased d.network_aliases d.networks
      → AreAliased
          (with_network_name aliases name d).1.network_aliases
          (with_network_name aliases name d).1.networks
        × AreAliased (with_bridge_network d).1.network_aliases (with_bridge_network d).1.networks
  unfolding with_network_name attach_network
  with_network_name-AreAliased aliases name d h = (
    elim (Bool-cases (str_eq name "bridge")) [
      | inl e ↦ rw e h
      | inr e ↦ rw e (
          insert-AreAliased name aliases d.network_aliases (d.networks ++ name ∷ [])
            (has-last name d.networks) e (more-AreAliased d.network_aliases d.networks name h))
    ],
    more-AreAliased d.network_aliases d.networks "bridge" h,
  )

  same_definition : {a b : Definition H F L C} → ok a ≡ ok b → a ≡ b
  same_definition h = cc

  customize_first_error :
      (before after : List (Hook (Definition H F L C))) (opt : Hook (Definition H F L C))
      (d d' : Definition H F L C) (e : Error)
      → customize before d ≡ ok d'
      → (opt d').0 ≡ some e
      → customize (before ++ opt ∷ after) d ≡ err (wrap "customize: " e)
  unfolding customize
  customize_first_error [] after opt d d' e okay fails =
      let here : (opt d).0 ≡ some e =
        subst (λ x. (opt x).0 ≡ some e) (sym (same_definition okay)) fails in
      rw here
  customize_first_error (b ∷ before) after opt d d' e okay fails = elim (Option-cases (b d).0) [
    | inr (x, failed) ↦ absurd (ground (arith, failed, okay))
    | inl fine ↦
        rw fine (customize_first_error before after opt (b d).1 d' e (rw fine at okay) fails)
  ]

  -- `Run` passes over its options in order: where the options before one succeed and this one fails
  -- on what they leave, it returns that error, and the options behind it are not applied.
  pub define_first_error :
      (before after : List (Hook (Definition H F L C))) (opt : Hook (Definition H F L C))
      (d : Definition H F L C) (e : Error)
      → customize before new_definition ≡ ok d
      → (opt d).0 ≡ some e
      → define (before ++ opt ∷ after) ≡ err (wrap "customize: " e)
  unfolding define
  define_first_error before after opt d e okay fails =
      ap validated (customize_first_error before after opt new_definition d e okay fails)
