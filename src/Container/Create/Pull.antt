-- ===== src/Container/Create/Pull.antt =====
-- When the pull hook pulls, and which image it pulls.
use docker_go_sdk.Common.{
  String, ◌≡◌, refl, sym, ◌∙◌, inl, inr, Bool, true, false, ◌||◌, Option, none, some, List, [], ◌∷◌,
  ◌++◌, append-nil, Bool-cases, str_eq, if◌then◌else◌,
}
use docker_go_sdk.Container.Create.{
  ContainerConfig, CreateOptions, Client, Creating, differs, should_pull_by, pull_hook, pull_for,
  pull_if, with_platform,
}
use docker_go_sdk.Container.Definition.{Definition}
use docker_go_sdk.Container.Files.{File}
use docker_go_sdk.Container.Host.{Platform}
use docker_go_sdk.GoError.{Result, ok, err}

-- The images that a world has been asked to pull and to create containers from.
pub data ImageEvent : Type 0 where
  pulled : String → ImageEvent
  created : String → ImageEvent

-- A journal of these events, which the inspections leave alone.
pub record ImageJournal {W : Type 0} (c : Client W) : Type 0 where
  pub journal : W → List ImageEvent
  pub journal-network_inspect : (n : String) (w : W) → journal (c.network_inspect n w).1 ≡ journal w
  pub journal-image_inspect :
      (image : String) (w : W) → journal (c.image_inspect image w).1 ≡ journal w
  pub journal-pull :
      (image : String) (platforms : List Platform) (w : W)
      → journal (c.pull image platforms w).1 ≡ journal w ++ pulled image ∷ []
  pub journal-create :
      (options : CreateOptions) (w : W)
      → journal (c.container_create options w).1 ≡ journal w ++ created options.config.image ∷ []

abbrev pub pulled_if : Bool → String → List ImageEvent
pulled_if needed image = if needed then pulled image ∷ [] else []

module _ {W : Type 0} (c : Client W) where
  -- Whether a pull is called for, by the wanted platform and the result of the inspection.
  abbrev pub is_needed : Option Platform → Result Platform → Bool
  is_needed platform (ok img) = differs platform img
  is_needed platform (err e) = c.is_not_found e

  module _ {H L : Type 0} (j : ImageJournal c) where
    pull_if-journal :
        (platform : Option Platform) (answer : Bool) (w : W) (s : Creating W H L)
        → j.journal (pull_if c platform (ok answer, w) s).1.world
          ≡ j.journal w ++ pulled_if answer s.def.image
    pull_if-journal platform true w s = j.journal-pull s.def.image _ w
    pull_if-journal platform false w s = sym (append-nil (j.journal w))

    pull_by-journal :
        (platform : Option Platform) (r : Result Platform) (w : W) (s : Creating W H L)
        → j.journal (pull_if c platform (should_pull_by c platform (r, w)) s).1.world
          ≡ j.journal w ++ pulled_if (is_needed platform r) s.def.image
    pull_by-journal platform (ok img) w s = pull_if-journal platform (differs platform img) w s
    pull_by-journal platform (err e) w s = elim (Bool-cases (c.is_not_found e)) [
      | inl q ↦ rw q (pull_if-journal platform true w s)
      | inr q ↦ rw q (sym (append-nil (j.journal w)))
    ]

    decided-journal :
        (always : Bool) (platform : Option Platform) (s : Creating W H L)
        → j.journal
            (pull_if c platform
              (if always
                then (ok true, s.world)
                else should_pull_by c platform (c.image_inspect s.def.image s.world))
              s).1.world
          ≡ j.journal s.world
            ++ pulled_if
                (always || is_needed platform (c.image_inspect s.def.image s.world).0)
                s.def.image
    decided-journal true platform s = pull_if-journal platform true s.world s
    decided-journal false platform s =
        pull_by-journal platform (c.image_inspect s.def.image s.world).0
          (c.image_inspect s.def.image s.world).1 s
        ∙ rw (j.journal-image_inspect s.def.image s.world) refl

    pull_for-journal :
        (platform : Option Platform) (s : Creating W H L)
        → j.journal (pull_for c platform s).1.world
          ≡ j.journal s.world
            ++ pulled_if
                (s.def.always_pull_image
                  || is_needed platform (c.image_inspect s.def.image s.world).0)
                s.def.image
    pull_for-journal platform s = decided-journal s.def.always_pull_image platform s

    -- What the definition wants of the platform; the inner result is `none` where it wants none.
    abbrev pub wanted_platform : Definition H File L ContainerConfig → Result (Option Platform)
    wanted_platform d =
        if str_eq d.image_platform ""
        then ok none
        else elim (c.parse_platform d.image_platform) [ err e ↦ err e | ok p ↦ ok (some p) ]

    abbrev pub pull_events : Creating W H L → Result (Option Platform) → List ImageEvent
    pull_events s (err e) = []
    pull_events s (ok platform) =
        pulled_if
          (s.def.always_pull_image || is_needed platform (c.image_inspect s.def.image s.world).0)
          s.def.image

    with_platform-journal :
        (s : Creating W H L) (r : Result Platform)
        → j.journal (with_platform c r s).1.world
          ≡ j.journal s.world ++ pull_events s (elim r [ err e ↦ err e | ok p ↦ ok (some p) ])
    with_platform-journal s (err e) = sym (append-nil (j.journal s.world))
    with_platform-journal s (ok p) =
        pull_for-journal (some p) (record s { def = record s.def { platform = some p } })

    -- The pull hook asks for at most one pull, of the definition's image, and for it exactly when the
    -- wanted platform can be read and: the definition always pulls, or the image is not found, or
    -- it is there for another platform than the wanted one. After any other error of the inspection
    -- nothing is pulled.
    pub pull_hook-journal :
        (s : Creating W H L)
        → j.journal (pull_hook c s).1.world
          ≡ j.journal s.world ++ pull_events s (wanted_platform s.def)
    unfolding pull_hook
    pull_hook-journal s = elim (Bool-cases (str_eq s.def.image_platform "")) [
      | inl q ↦ rw q (pull_for-journal none s)
      | inr q ↦ rw q (with_platform-journal s (c.parse_platform s.def.image_platform))
    ]
