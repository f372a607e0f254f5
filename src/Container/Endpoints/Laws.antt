-- ===== src/Container/Endpoints/Laws.antt =====
-- The lowest port, and the port that is mapped to another.
use Prim.Native.String
use docker_go_sdk.Common.{
  ℕ, ◌≤◌, String, ◌≡◌, refl, sym, ap, ◌∙◌, ◌⊎◌, inl, inr, true, false, none, some, List, [], ◌∷◌,
  All, Contains, arith, eq_iff, ltb, ==_iff, Bool-cases,
}
use docker_go_sdk.Container.Endpoints.{
  Port, same_port, lowest_from, Reporter, find_mapped, not_found,
}
use docker_go_sdk.GoError.{err}

-- No port of the list has a lower number.
abbrev pub IsLowest : Port → List Port → Type 0
IsLowest p ports = All (λ q. p.num ≤ q.num) ports

lowest_from-some :
    (best : Port) (ports : List Port)
    → (p : Port) × (lowest_from (some best) ports ≡ some p)
      × ((p ≡ best) ⊎ Contains p ports)
      × (p.num ≤ best.num)
      × IsLowest p ports
unfolding lowest_from
lowest_from-some best [] = (best, refl, inl refl, omega arith, tt)
lowest_from-some best (q ∷ ports) = elim (Bool-cases (ltb q.num best.num)) [
  | inl h ↦
      let (p, e, c, le, all) = lowest_from-some q ports in
      (p, rw h e, inr c, ground arith, (le, all))
  | inr h ↦
      let (p, e, c, le, all) = lowest_from-some best ports in
      (p, rw h e, widen c, le, (ground arith, all))
]
  where
    widen : {p : Port} → ((p ≡ best) ⊎ Contains p ports) → (p ≡ best) ⊎ ((p ≡ q) ⊎ Contains p ports)
    widen (inl e) = inl e
    widen (inr c) = inr (inr c)

-- Of ports that are not none, the loop finds one of them, and none of them has a lower number.
pub lowest_from-IsLowest :
    (port : Port) (ports : List Port)
    → (p : Port) × (lowest_from none (port ∷ ports) ≡ some p)
      × Contains p (port ∷ ports)
      × IsLowest p (port ∷ ports)
unfolding lowest_from
lowest_from-IsLowest port ports =
    let (p, e, c, le, all) = lowest_from-some port ports in (p, e, c, (le, all))

Port-eq : (p q : Port) → p.num ≡ q.num → p.proto ≡ q.proto → p ≡ q
Port-eq p q e f =
    ap (λ (n : ℕ). record { num = n; proto = p.proto }) e
    ∙ ap (λ (s : String). record { num = q.num; proto = s }) f

same_port_sound : (p q : Port) → same_port p q ≡ true → p ≡ q
same_port_sound p q h =
    Port-eq p q (ground (arith, ==_iff p.num q.num)) (ground (arith, eq_iff p.proto q.proto))

same_port_refl : (p : Port) → same_port p p ≡ true
same_port_refl p = ground (arith, ==_iff p.num p.num, eq_iff p.proto p.proto)

module _ {W : Type 0} (d : Reporter W) where
  -- The entry binds no host port to the port.
  abbrev pub IsUnbound : Port → Port × List String → Type 0
  IsUnbound port entry = entry.0 ≡ port → entry.1 ≡ []

  -- A mapped port is read from the first binding of an entry for the asked port that has one, with the
  -- protocol of the asked port; and it is not found exactly where no such entry has a binding.
  pub find_mapped_lem :
      (port : Port) (ports : List (Port × List String))
      → ((b : String) × (bs : List String) × Contains (port, b ∷ bs) ports
          × (find_mapped d port ports ≡ d.parse_port (String.◌++◌ b (String.◌++◌ "/" port.proto))))
        ⊎ (All (IsUnbound port) ports
            × (find_mapped d port ports ≡ err (not_found "port not found")))
  unfolding find_mapped
  find_mapped_lem port [] = inr (tt, refl)
  find_mapped_lem port ((k, []) ∷ ports) = elim (find_mapped_lem port ports) [
    | inl (b, bs, c, e) ↦ inl (b, bs, inr c, e)
    | inr (all, e) ↦ inr ((λ same. refl, all), e)
  ]
  find_mapped_lem port ((k, b ∷ bs) ∷ ports) = elim (Bool-cases (same_port k port)) [
    | inl q ↦
        let same = same_port_sound k port q in
        inl (
          b,
          bs,
          inl (ap (λ p. (p, b ∷ bs)) (sym same)),
          rw q (ap (λ p. d.parse_port (String.◌++◌ b (String.◌++◌ "/" p.proto))) same),
        )
    | inr q ↦ elim (find_mapped_lem port ports) [
      | inl (b', bs', c, e) ↦ inl (b', bs', inr c, rw q e)
      | inr (all, e) ↦ inr ((λ same. absurd (differ k port same q), all), rw q e)
    ]
  ]
    where
      differ : (k p : Port) → k ≡ p → same_port k p ≡ false → ⊥
      differ k p e h = absurd (cc (rw e at h, same_port_refl p))
