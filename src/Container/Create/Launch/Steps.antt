-- ===== src/Container/Create/Launch/Steps.antt =====
-- The steps of `Run` from the substitution of the image to the start, from its last result back.
use mathlib.Core.Path.{subst}
use docker_go_sdk.Common.{
  ap, ◌⊎◌, inl, inr, String, ◌≡◌, refl, sym, ◌∙◌, Bool, true, false, Option, none, some, List, [],
  ◌∷◌,
}
use docker_go_sdk.Container.Create.{ContainerConfig, CreateOptions, Creating}
use docker_go_sdk.Container.Create.Launch.{
  Runtime, substitute_all, connect_networks, finish, start_if, behind_first,
}
use docker_go_sdk.Container.Definition.{Definition}
use docker_go_sdk.Container.Files.{File}
use docker_go_sdk.Container.Host.{ImageSubstitutor}
use docker_go_sdk.Container.Operations.{
  State, Container, ◌>>◌, returning, call, created_hook, start,
}
use docker_go_sdk.GoError.{Error, wrapped, Result, ok, err}
use docker_go_sdk.Lifecycle.{Hook, and_then}

-- The substitutors, one after the other, turn the image into the other, each without an error.
abbrev pub IsSubstituted : List ImageSubstitutor → String → String → Type 0
IsSubstituted [] image last = last ≡ image
IsSubstituted (is ∷ rest) image last =
    (modified : String) × (is.substitute image ≡ ok modified) × IsSubstituted rest modified last

pub substitute_all-IsSubstituted :
    (list : List ImageSubstitutor) (image last : String)
    → substitute_all list image ≡ ok last
    → IsSubstituted list image last
unfolding substitute_all
substitute_all-IsSubstituted [] image last h = cc h
substitute_all-IsSubstituted (is ∷ rest) image last h =
    go (λ modified. substitute_all-IsSubstituted rest modified last) (is.substitute image) refl
  where
    go :
        ((modified : String)
          → substitute_all rest modified ≡ ok last
          → IsSubstituted rest modified last)
        → (q : Result String) → is.substitute image ≡ q
        → IsSubstituted (is ∷ rest) image last
    go later (err e) same = absurd (cc (rw same at h))
    go later (ok modified) same = (modified, same, later modified (rw same at h))

-- The options that the daemon is asked with: those that the creating hooks have left, with the image.
abbrev pub asked : {W H L : Type 0} → Creating W H L → String → CreateOptions
asked s image = record {
  config = record s.input { image = image };
  host_config = s.host;
  endpoints = s.endpoints;
  platform = s.def.platform;
  name = s.def.name;
}

module _ {W H L : Type 0} (r : Runtime W H L) where
  abbrev pub further : List String → List String
  further [] = []
  further (first ∷ networks) = networks

  further-eq : (networks : List String) → behind_first r networks ≡ further networks
  further-eq [] = refl
  further-eq (first ∷ networks) = refl

  -- The end of a run: no start was asked for, or the start returned no error.
  abbrev pub IsStarted : Bool → Container (Creating W H L) W → State W → State W → Type 0
  IsStarted started ctr s end =
      ((started ≡ false) × (end ≡ s)) ⊎ ((started ≡ true) × (start r.daemon ctr s ≡ (none, end)))

  -- Each step behind the creation has returned no error, from the world that the creation leaves to the
  -- end: the connections to the further networks, the created hook, and the start, if there is one.
  abbrev pub IsFinished :
      Definition H File L ContainerConfig → Container (Creating W H L) W → W → State W → Type 0
  IsFinished d ctr w end =
      (w1 : W) × (s2 : State W) × (connect_networks r ctr.container_id d.network_aliases
          (further d.networks) w
        ≡ (none, w1))
      × (created_hook r.daemon ctr (record { world = w1; is_running = false }) ≡ (none, s2))
      × IsStarted d.started ctr s2 end

  and_then_inv :
      {S : Type 0} (first : Option Error × S) (rest : Hook S)
      → (and_then first rest).0 ≡ none
      → (s : S) × (first ≡ (none, s)) × ((rest s).0 ≡ none) × ((and_then first rest).1 ≡ (rest s).1)
  and_then_inv (some e, s) rest h = absurd (cc h)
  and_then_inv (none, s) rest h = (s, refl, h, refl)

  wrapped_inv :
      {S : Type 0} (text : String) (answer : Option Error × S) (s : S)
      → ◌≡◌ {A = Option Error × S} (wrapped text answer.0, answer.1) (none, s)
      → answer ≡ (none, s)
  wrapped_inv text (none, s') s h = h
  wrapped_inv text (some e, s') s h = absurd (cc h)

  start_if_inv :
      (b : Bool) (ctr : Container (Creating W H L) W) (s : State W)
      → (start_if r b ctr s).0 ≡ none
      → IsStarted b ctr s (start_if r b ctr s).1
  start_if_inv false ctr s h = inl (refl, refl)
  start_if_inv true ctr s h = inr (
    refl,
    wrapped_inv "start container: " (start r.daemon ctr s) _
        (ap (λ e. (e, (start r.daemon ctr s).1)) h),
  )

  called_inv :
      (answer : Option Error × W) (s : State W)
      → ◌≡◌ {A = Option Error × State W}
          (answer.0, record { world = answer.1; is_running = false })
          (none, s)
      → (w : W) × (answer ≡ (none, w)) × (s ≡ record { world = w; is_running = false })
  called_inv (e, w) s h = (w, ap (λ x. (x.0, w)) h, sym (ap (λ x. x.1) h))

  pub finish_inv :
      (d : Definition H File L ContainerConfig) (ctr : Container (Creating W H L) W) (w : W)
      → (finish r d ctr (record { world = w; is_running = false })).0 ≡ none
      → IsFinished d ctr w (finish r d ctr (record { world = w; is_running = false })).1
  unfolding finish
  finish_inv d ctr w h =
      let created_then = returning "created hook: " (created_hook r.daemon ctr) in
      let s0 : State W = record { world = w; is_running = false } in
      let answer =
        connect_networks r ctr.container_id d.network_aliases (behind_first r d.networks) w in
      let (s1, e1, h1, end1) =
        and_then_inv
          (call (connect_networks r ctr.container_id d.network_aliases (behind_first r d.networks))
            s0)
          (created_then >> start_if r d.started ctr) h in
      let (s2, e2, h2, end2) = and_then_inv (created_then s1) (start_if r d.started ctr) h1 in
      let (w1, e3, at1) = called_inv answer s1 e1 in
      let hooked = wrapped_inv "created hook: " (created_hook r.daemon ctr s1) s2 e2 in
      (
        w1,
        s2,
        subst
            (λ (networks : List String).
              connect_networks r ctr.container_id d.network_aliases networks w ≡ (none, w1))
            (further-eq d.networks) e3,
        subst (λ (u : State W). created_hook r.daemon ctr u ≡ (none, s2)) at1 hooked,
        subst (IsStarted d.started ctr s2) (sym (end1 ∙ end2)) (start_if_inv d.started ctr s2 h2),
      )
