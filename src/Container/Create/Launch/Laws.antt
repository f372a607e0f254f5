-- ===== src/Container/Create/Launch/Laws.antt =====
-- What `Run` returns and asks of the daemon.

use docker_go_sdk.Common.{
  All, ap, String, ◌≡◌, refl, sym, ◌∙◌, Bool, true, false, Option, none, some, List, [], ◌∷◌, ◌++◌,
  append_assoc, append-nil,
}
use docker_go_sdk.Common.Dict.{Dict}
use docker_go_sdk.Container.Create.{ContainerConfig, Creating}
use docker_go_sdk.Container.Create.Launch.{
  Runtime, Hooks, hooks_with, labelled, new_creating, creating_hook, substitute_all, create_options,
  with_image, container_of, connect_networks, connect_to, extra_settings, finish, start_if,
  after_creating, substituted, created, launch, behind_first,
}
use docker_go_sdk.Container.Definition.{Definition}
use docker_go_sdk.Container.Files.{File}
use docker_go_sdk.Container.Host.{EndpointSettings}
use docker_go_sdk.Container.Operations.{
  State, Container, ◌>>◌, returning, call, created_hook, start,
}
use docker_go_sdk.Container.Operations.Journal.{PhaseKeeps}
use docker_go_sdk.Container.Operations.Flag.{start-is_running}
use docker_go_sdk.GoError.{Error, wrapped, Result, ok, err}
use docker_go_sdk.Wait.{Strategy}
use docker_go_sdk.GoError.Laws.{IsNone}
use docker_go_sdk.Lifecycle.{Hook, and_then, apply_definition_hooks}
use docker_go_sdk.Lifecycle.Apply.{
  state_after, outcomes, apply_definition_hooks_inv, apply_definition_hooks-IsNone,
  apply_lifecycle_hooks_single,
}
use docker_go_sdk.Container.Create.Launch.Steps.{
  IsSubstituted, substitute_all-IsSubstituted, asked, IsFinished, finish_inv,
}

module _ {W H L : Type 0} (r : Runtime W H L) (hooks_for : H → String → Hooks r) where
  -- Once the daemon has created the container, `Run` returns it, whatever fails afterwards, so that
  -- the caller can remove it: for a creating phase and substitutors that return no error and a
  -- daemon that creates the container, the first result is the container with the daemon's ID
  -- and the image of the substitutors.
  pub launch-created :
      (d : Definition H File L ContainerConfig) (w : W) (s : Creating W H L) (image id : String)
      → (w' : W)
      → creating_hook r
          (hooks_with r hooks_for d "" d.waiting_for)
          (new_creating r (labelled r d) w)
        ≡ (none, s)
      → substitute_all s.def.image_substitutors s.def.image ≡ ok image
      → r.client.container_create (create_options r (with_image r image s)) s.world ≡ (ok id, w')
      → (launch r hooks_for d w).0.0
        ≡ some (container_of r (hooks_with r hooks_for d) (with_image r image s) id)
  unfolding launch
  launch-created d w s image id w' h sub made = rw (h, sub, made)

  -- The daemon has created the container from the options of the creating hooks and the image that the
  -- substitutors give, and each later step has returned no error.
  abbrev pub IsCreatedBy : Creating W H L → String → Container (Creating W H L) W → State W → Type 0
  IsCreatedBy s image ctr end =
      (w' : W) × IsSubstituted s.def.image_substitutors s.def.image image
      × (r.client.container_create (asked s image) s.world ≡ (ok ctr.container_id, w'))
      × (ctr.image ≡ image)
      × IsFinished r s.def ctr w' end

  -- Each of the pre-create hooks has run, in order, and returned no error; the last one has left `s`.
  abbrev pub IsPrepared : Definition H File L ContainerConfig → W → Creating W H L → Type 0
  IsPrepared d w s =
      let pre_creates = (hooks_with r hooks_for d "" d.waiting_for).pre_creates in
      let s0 = new_creating r (labelled r d) w in
      All IsNone (outcomes pre_creates s0) × (state_after pre_creates s0 ≡ s)

  -- A run without an error: what it returned, and how it came about.
  abbrev pub IsLaunched : Definition H File L ContainerConfig → W → Type 0
  IsLaunched d w =
      (s : Creating W H L) × (image : String) × (ctr : Container (Creating W H L) W) × ((launch r
          hooks_for d w).0
        ≡ (some ctr, none))
      × IsPrepared d w s
      × IsCreatedBy s image ctr (launch r hooks_for d w).1

  creating_hook-IsPrepared :
      (d : Definition H File L ContainerConfig) (w : W) (s : Creating W H L)
      → creating_hook r
          (hooks_with r hooks_for d "" d.waiting_for)
          (new_creating r (labelled r d) w)
        ≡ (none, s)
      → IsPrepared d w s
  unfolding creating_hook
  creating_hook-IsPrepared d w s h =
      let hooks = hooks_with r hooks_for d "" d.waiting_for in
      let s0 = new_creating r (labelled r d) w in
      let applied =
        apply_lifecycle_hooks_single (λ hooks. apply_definition_hooks hooks.pre_creates) hooks s0 s
          h in
      (
        apply_definition_hooks-IsNone hooks.pre_creates s0 s applied,
        apply_definition_hooks_inv hooks.pre_creates s0 s applied,
      )

  created_inv :
      (hooks : String → Option (Strategy L) → Hooks r) (s : Creating W H L)
      → (answer : Result String × W) → (created r hooks s answer).0.1 ≡ none
      → (ctr : Container (Creating W H L) W) × (w : W) × (answer ≡ (ok ctr.container_id, w))
        × ((created r hooks s answer).0 ≡ (some ctr, none))
        × (ctr.image ≡ s.def.image)
        × IsFinished r s.def ctr w (created r hooks s answer).1
  created_inv hooks s (err e, w) h = absurd (cc h)
  created_inv hooks s (ok id, w) h =
      let ctr = container_of r hooks s id in
      (ctr, w, refl, ap (λ e. (some ctr, e)) h, refl, finish_inv r s.def ctr w h)

  substituted_inv :
      (hooks : String → Option (Strategy L) → Hooks r) (s : Creating W H L) (answer : Result String)
      → (substituted r hooks s answer).0.1 ≡ none
      → (image : String) × (ctr : Container (Creating W H L) W) × (w : W) × (answer ≡ ok image)
        × ((substituted r hooks s answer).0 ≡ (some ctr, none))
        × (r.client.container_create (asked s image) s.world ≡ (ok ctr.container_id, w))
        × (ctr.image ≡ image)
        × IsFinished r s.def ctr w (substituted r hooks s answer).1
  substituted_inv hooks s (err e) h = absurd (cc h)
  substituted_inv hooks s (ok image) h =
      let (ctr, w, made, returned, same, done) = created_inv hooks (with_image r image s) _ h in
      (image, ctr, w, refl, returned, made, same, done)

  after_creating_inv :
      (hooks : String → Option (Strategy L) → Hooks r) (answer : Option Error × Creating W H L)
      → (after_creating r hooks answer).0.1 ≡ none
      → (s : Creating W H L) × (image : String) × (ctr : Container (Creating W H L) W)
        × ((after_creating r hooks answer).0 ≡ (some ctr, none))
        × (answer ≡ (none, s))
        × IsCreatedBy s image ctr (after_creating r hooks answer).1
  after_creating_inv hooks (some e, s) h = absurd (cc h)
  after_creating_inv hooks (none, s) h =
      let (image, ctr, w, sub, returned, made, same, done) = substituted_inv hooks s _ h in
      let chain = substitute_all-IsSubstituted s.def.image_substitutors s.def.image image sub in
      (s, image, ctr, returned, refl, (w, chain, made, same, done))

  -- Where `Run` returns no error, each pre-create hook has run and returned no error, each substitutor
  -- has, and the container that is returned is the one that the daemon created, from the options that
  -- the hooks have left and the image of the substitutors. Every step behind the creation has then run
  -- and returned no error: the connections to the networks behind the first, the created hook, and,
  -- where the definition asks for it, the start, which leaves the final state.
  pub launch_sound :
      (d : Definition H File L ContainerConfig) (w : W)
      → (launch r hooks_for d w).0.1 ≡ none
      → IsLaunched d w
  unfolding launch
  launch_sound d w h =
      let (s, image, ctr, returned, hooked, made) =
        after_creating_inv (hooks_with r hooks_for d) _ h in
      (s, image, ctr, returned, creating_hook-IsPrepared d w s hooked, made)

module _ {W H L : Type 0} (r : Runtime W H L) where
  abbrev pub Connect : Type 0
  Connect = String × String × EndpointSettings

  -- The connections that the daemon is asked for, in a journal that only they are written into.
  pub record NetworkJournal : Type 0 where
    pub journal : W → List Connect
    pub network_id : String → String
    pub inspect_lem : (n : String) (w : W) → r.client.network_inspect n w ≡ (ok (network_id n), w)
    pub connect_lem :
        (network id : String) (settings : EndpointSettings) (w : W)
        → journal (r.client.network_connect network id settings w).1
          ≡ journal w ++ (network, id, settings) ∷ []

  abbrev pub connections :
      (String → String) → String → Dict (List String) → List String → List Connect
  connections ids id aliases [] = []
  connections ids id aliases (n ∷ networks) =
      (ids n, id, extra_settings r n aliases) ∷ connections ids id aliases networks

  and_then_journal :
      {A : Type 0} (journal : W → List A) (first : Option Error × W) (rest : Hook W)
      → (log : List A) (event : A) (more : List A) → journal first.1 ≡ log ++ event ∷ []
      → ((w : W) → (rest w).0 ≡ none → journal (rest w).1 ≡ journal w ++ more)
      → (and_then first rest).0 ≡ none
      → journal (and_then first rest).1 ≡ log ++ event ∷ more
  and_then_journal journal (some e, w) rest log event more h f okay = absurd (cc okay)
  and_then_journal journal (none, w) rest log event more h f okay =
      f w okay ∙ rw h (append_assoc log (event ∷ []) more)

  -- Where the networks can be inspected and the loop over them returns no error, the daemon has been
  -- asked to connect the container with each, in the order of the definition, with the aliases that the
  -- definition has for it.
  pub connect_networks-journal :
      (j : NetworkJournal) (id : String) (aliases : Dict (List String)) (networks : List String)
      → (w : W) → (connect_networks r id aliases networks w).0 ≡ none
      → j.journal (connect_networks r id aliases networks w).1
        ≡ j.journal w ++ connections j.network_id id aliases networks
  unfolding connect_networks
  connect_networks-journal j id aliases [] w h = sym (append-nil (j.journal w))
  connect_networks-journal j id aliases (n ∷ networks) w h =
      and_then_journal j.journal
        (connect_to r id (extra_settings r n aliases) (r.client.network_inspect n w))
        (connect_networks r id aliases networks) (j.journal w)
        (j.network_id n, id, extra_settings r n aliases)
        (connections j.network_id id aliases networks)
        (rw (j.inspect_lem n w) (j.connect_lem (j.network_id n) id (extra_settings r n aliases) w))
        (λ w' okay. connect_networks-journal j id aliases networks w' okay) h

  and_then_sound :
      {S : Type 0} (P : S → Type 0) (first : Option Error × S) (rest : Hook S)
      → ((s : S) → (rest s).0 ≡ none → P (rest s).1)
      → (and_then first rest).0 ≡ none
      → P (and_then first rest).1
  and_then_sound P (some e, s) rest f h = absurd (cc h)
  and_then_sound P (none, s) rest f h = f s h

  wrapped-none : (text : String) (e : Option Error) → wrapped text e ≡ none → e ≡ none
  wrapped-none text none h = refl
  wrapped-none text (some e) h = absurd (cc h)

  start_if-is_running :
      (b : Bool) (ctr : Container (Creating W H L) W) (s : State W)
      → PhaseKeeps (λ t. t.is_running) (λ hooks. hooks.post_readies) ctr
      → b ≡ true
      → (start_if r b ctr s).0 ≡ none
      → (start_if r b ctr s).1.is_running ≡ true
  start_if-is_running true ctr s keeps e h =
      start-is_running r.daemon ctr s keeps
        (wrapped-none "start container: " (start r.daemon ctr s).0 h)
  start_if-is_running false ctr s keeps e h = absurd (cc e)

  -- Where the steps behind the creation return no error and the definition asks for a start, the
  -- container is marked as running, if the post-ready hooks leave the mark alone.
  pub finish-is_running :
      (d : Definition H File L ContainerConfig) (ctr : Container (Creating W H L) W) (s : State W)
      → PhaseKeeps (λ t. t.is_running) (λ hooks. hooks.post_readies) ctr
      → d.started ≡ true
      → (finish r d ctr s).0 ≡ none
      → (finish r d ctr s).1.is_running ≡ true
  unfolding finish
  finish-is_running d ctr s keeps started h =
      let created_then = returning "created hook: " (created_hook r.daemon ctr) in
      let connected =
        call (connect_networks r ctr.container_id d.network_aliases (behind_first r d.networks))
          s in
      and_then_sound (λ (t : State W). t.is_running ≡ true) connected
        (created_then >> start_if r d.started ctr)
        (λ s1.
          and_then_sound (λ (t : State W). t.is_running ≡ true) (created_then s1)
            (start_if r d.started ctr) (λ s2. start_if-is_running d.started ctr s2 keeps started))
        h
