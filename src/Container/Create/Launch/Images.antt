-- ===== src/Container/Create/Launch/Images.antt =====
-- The image that is pulled and the one that the container is created from.
use mathlib.Core.Path.{subst}
use docker_go_sdk.Common.{
  String, ◌≡◌, refl, sym, ap, ◌∙◌, Bool, true, false, Option, none, some, List, [], ◌∷◌, ◌++◌,
  append_assoc, eq_iff, if◌then◌else◌,
}
use docker_go_sdk.Container.Create.{
  ContainerConfig, Client, CreateOptions, Creating, pull_hook, pre_create_container_hook,
  bind_ports, attach_first, create_with, parse_port_specs, pull_if, should_pull_by,
}
use docker_go_sdk.Container.Create.Launch.{Runtime, Hooks, hooks_of, labelled, new_creating, launch}
use docker_go_sdk.Container.Create.Launch.Laws.{launch_sound}
use docker_go_sdk.Container.Create.Launch.Steps.{IsSubstituted, asked}
use docker_go_sdk.Container.Operations.{Container}
use docker_go_sdk.Container.Create.Pull.{ImageEvent, pulled, created, ImageJournal}
use docker_go_sdk.Container.Definition.{Definition}
use docker_go_sdk.Container.Files.{File}
use docker_go_sdk.Container.Ports.{PortMap}
use docker_go_sdk.GoError.{Result, ok, err}
use docker_go_sdk.Lifecycle.Apply.{state_after}
use docker_go_sdk.Wait.{Strategy}

module _ {W H L : Type 0} (c : Client W) (j : ImageJournal c) where
  -- The definition and the journal of the images.
  abbrev view : Creating W H L → Definition H File L ContainerConfig × List ImageEvent
  view s = (s.def, j.journal s.world)

  bind_ports-view :
      (is_container : String → Bool) (specs : Result (List String × PortMap)) (s : Creating W H L)
      → view (bind_ports c is_container specs s).1 ≡ view s
  bind_ports-view is_container (err e) s = refl
  bind_ports-view is_container (ok (ports, bindings)) s = refl

  attach_first-view :
      (is_container : String → Bool) (name : String) (answer : Result String × W)
      → (s : Creating W H L) → j.journal answer.1 ≡ j.journal s.world
      → view (attach_first c is_container name answer s).1 ≡ view s
  attach_first-view is_container name (err e, w) s h = ap (λ l. (s.def, l)) h
  attach_first-view is_container name (ok id, w) s h =
      bind_ports-view is_container (parse_port_specs c s.def.exposed_ports) _
      ∙ ap (λ l. (s.def, l)) h

  create_with-view :
      (is_container : String → Bool) (networks : List String) (s : Creating W H L)
      → view (create_with c is_container networks s).1 ≡ view s
  create_with-view is_container [] s =
      bind_ports-view is_container (parse_port_specs c s.def.exposed_ports) _
  create_with-view is_container (name ∷ rest) s =
      attach_first-view is_container name (c.network_inspect name s.world) s
        (j.journal-network_inspect name s.world)

  -- The default hook before the creation changes neither the definition nor the images.
  pre_create-view :
      (is_container : String → Bool) (s : Creating W H L)
      → view (pre_create_container_hook c is_container s).1 ≡ view s
  unfolding pre_create_container_hook
  pre_create-view is_container s = create_with-view is_container s.def.networks s

  always-view :
      (b : Bool) (s : Creating W H L)
      → b ≡ true
      → view
          (pull_if c none
            (if b
              then (ok true, s.world)
              else should_pull_by c none (c.image_inspect s.def.image s.world))
            s).1
        ≡ (s.def, j.journal s.world ++ pulled s.def.image ∷ [])
  always-view true s h = ap (λ l. (s.def, l)) (j.journal-pull s.def.image [] s.world)
  always-view false s h = absurd (cc h)

  pull_hook-view :
      (s : Creating W H L)
      → s.def.image_platform ≡ ""
      → s.def.always_pull_image ≡ true
      → view (pull_hook c s).1 ≡ (s.def, j.journal s.world ++ pulled s.def.image ∷ [])
  unfolding pull_hook
  pull_hook-view s plain always =
      rw ((eq_iff s.def.image_platform "").1 plain) (always-view s.def.always_pull_image s always)

  -- The default hook and then the pull hook, which pulls the definition's image.
  hooks-view :
      (is_container : String → Bool) (s : Creating W H L)
      → s.def.image_platform ≡ ""
      → s.def.always_pull_image ≡ true
      → view (pull_hook c (pre_create_container_hook c is_container s).1).1
        ≡ (s.def, j.journal s.world ++ pulled s.def.image ∷ [])
  hooks-view is_container s plain always =
      let s1 = (pre_create_container_hook c is_container s).1 in
      let kept = pre_create-view is_container s in
      pull_hook-view s1 (ap (λ v. v.0.image_platform) kept ∙ plain)
        (ap (λ v. v.0.always_pull_image) kept ∙ always)
      ∙ ap (λ v. (v.0, v.1 ++ pulled v.0.image ∷ [])) kept

module _ {W H L : Type 0} (r : Runtime W H L) (hooks_for : H → String → Hooks r) where
  hooks_of-state_after :
      (files : List File) (waiting_for : Option (Strategy L)) (s0 s : Creating W H L)
      → state_after (hooks_of r hooks_for [] "" files waiting_for).pre_creates s0 ≡ s
      → s ≡ (pull_hook r.client (pre_create_container_hook r.client r.is_container s0).1).1
  unfolding hooks_of
  hooks_of-state_after files waiting_for s0 s h = sym h

  -- The container has been created from the image, after a pull of the other, and with no other event of
  -- an image up to then.
  abbrev pub IsPulledThenCreated :
      ImageJournal r.client → W → Container (Creating W H L) W → String → String → Type 0
  IsPulledThenCreated j w ctr from image =
      (options : CreateOptions) × (v : W) × (w' : W) × (r.client.container_create options v
        ≡ (ok ctr.container_id, w'))
      × (options.config.image ≡ image)
      × (j.journal w' ≡ j.journal w ++ pulled from ∷ created image ∷ [])

  -- Substitutors change what a container is created from, and not what is pulled. Where `Run` returns no
  -- error, for a definition that always pulls, without a platform and without hooks of its own: the
  -- container that it returns has the image of the substitutors and was created by the daemon from that
  -- image, and up to the creation the journal of the images has a pull of the definition's own image and
  -- then that creation.
  pub launch-images :
      (j : ImageJournal r.client) (d : Definition H File L ContainerConfig) (w : W)
      → d.always_pull_image ≡ true
      → d.image_platform ≡ ""
      → d.lifecycle_hooks ≡ []
      → (launch r hooks_for d w).0.1 ≡ none
      → (ctr : Container (Creating W H L) W) × (image : String) × ((launch r hooks_for d w).0
          ≡ (some ctr, none))
        × IsSubstituted d.image_substitutors d.image image
        × (ctr.image ≡ image)
        × IsPulledThenCreated j w ctr d.image image
  unfolding labelled
  launch-images j d w always plain bare h =
      let (s, image, ctr, returned, (_, hooked), (w', sub, made, same, done)) =
        launch_sound r hooks_for d w h in
      let s0 = new_creating r (labelled r d) w in
      let left =
        subst
          (λ (hooks : List H).
            state_after (hooks_of r hooks_for hooks "" d.files d.waiting_for).pre_creates s0 ≡ s)
          bare hooked in
      let seen =
        ap (view r.client j) (hooks_of-state_after d.files d.waiting_for s0 s left)
        ∙ hooks-view r.client j r.is_container s0 plain always in
      (
        ctr,
        image,
        returned,
        subst (λ v. IsSubstituted v.0.image_substitutors v.0.image image) seen sub,
        same,
        (
          asked s image,
          s.world,
          w',
          made,
          refl,
          ap (λ answer. j.journal answer.1) (sym made)
              ∙ j.journal-create (asked s image) s.world
              ∙ ap (λ v. v.1 ++ created image ∷ []) seen
              ∙ append_assoc (j.journal w) (pulled d.image ∷ []) (created image ∷ []),
        ),
      )
