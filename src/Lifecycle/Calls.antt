-- ===== src/Lifecycle/Calls.antt =====
-- The methods of the Podman client as steps of the lifecycle.
use paracetamol.Base.{
  ℕ, ◌==◌, Bool, true, false, not, Option, none, some, List, [], ◌∷◌, ◌≡◌, refl, ◌⊎◌, inl, inr,
  arith,
}
use paracetamol.Text.{Text, codes, equal}
use paracetamol.Scheduler.State.{Allocation}
use paracetamol.Podman.Machine.{
  Call, Reply, not_run, exited, podman, launch, look_path, probe, ControlError, command_failed,
  Machine, Host, Action, ◌>>=◌, ◌>>◌, fail_if, call,
}
use paracetamol.Podman.Client.{
  Formats, exists, capture, container_labels, managed_container_names, execute, remove_container,
  remove_arguments, inspect_arguments, names_arguments, exists_reply, names_reply, capture_reply,
  execute_reply, decoded_labels,
}
use paracetamol.Podman.Holds.{returns, raises, After, bind-After, if-After, fail_if-After}
use paracetamol.Lifecycle.Container.{container_name, is_owned}
use paracetamol.Lifecycle.Careful.{
  is_removal, exists_arguments, is_free, shows_owned, is_allowed, is_careful, launches, is_harmless,
  Kept,
}

module _ (host : Host) (formats : Formats) (n : ℕ) (f : Option Allocation) where
  harmless-Kept :
      (c : Call) (reply : Reply) (m : Machine)
      → is_harmless c ≡ true
      → Kept formats n f m
      → Kept formats n f (record m { calls = (c, reply) ∷ m.calls })
  unfolding is_careful is_allowed launches
  harmless-Kept (podman arguments) reply m e h = record {
    careful = ground (arith, e, h.careful);
    launched = h.launched;
    following = h.following;
  }
  harmless-Kept (launch command) reply m e h = absurd (ground (arith, e))
  harmless-Kept (look_path name) reply m e h = record {
    careful = h.careful;
    launched = h.launched;
    following = h.following;
  }
  harmless-Kept probe reply m e h = record {
    careful = h.careful;
    launched = h.launched;
    following = h.following;
  }

  -- `Kept`, whatever the result
  abbrev pub Keeps : {A : Type 0} → Action A → Machine → Type 0
  Keeps action m = After (λ a. Kept formats n f) (λ e. Kept formats n f) action m

  -- a harmless call, whose reply decides how to go on
  pub call-After :
      {A : Type 0} {Q : A → Machine → Type 0} {R : ControlError → Machine → Type 0} (c : Call)
      (next : Reply → Action A) (m : Machine)
      → is_harmless c ≡ true
      → Kept formats n f m
      → ((reply : Reply)
          → let m' = record m { calls = (c, reply) ∷ m.calls } in
            Kept formats n f m' → After Q R (next reply) m')
      → After Q R (call host c >>= next) m
  call-After c next m e h k = k (host m.calls c) (harmless-Kept c (host m.calls c) m e h)

  pub guard-After :
      {A : Type 0} {Q : A → Machine → Type 0} {R : ControlError → Machine → Type 0} (test : Bool)
      (e : ControlError) (next : Action A) (m : Machine)
      → (test ≡ true → R e m)
      → (test ≡ false → After Q R next m)
      → After Q R (fail_if test e >> next) m
  guard-After true e next m h k = raises (h refl)
  guard-After false e next m h k = k refl

  -- whether the container of the gateway exists; if not, its name is free
  unfoldable pub Present : Bool → Machine → Type 0
  Present b m = Kept formats n f m × ((b ≡ true) ⊎ (is_free m.calls ≡ true))

  exists_reply-After :
      (reply : Reply) (m : Machine)
      → let m' = record m { calls = (podman exists_arguments, reply) ∷ m.calls } in
        Kept formats n f m' → After Present (λ e. Kept formats n f) (exists_reply reply) m'
  unfolding Present is_free equal
  exists_reply-After not_run m h = raises h
  exists_reply-After (exited status out errors) m h =
      if-After (status == 0) _ _ _ (λ present. returns (h, inl refl))
        (λ p.
          if-After (status == 1) _ _ _ (λ absent. returns (h, inr (ground (arith, absent))))
            (λ q. raises h))

  pub exists_container :
      (m : Machine)
      → Kept formats n f m
      → After Present (λ e. Kept formats n f) (exists host (codes "container") container_name) m
  unfolding exists equal
  exists_container m h =
      call-After (podman exists_arguments) exists_reply m refl h
        (λ reply h'. exists_reply-After reply m h')

  -- the replies that decide nothing on what is known of the container
  exists_reply-Keeps :
      (reply : Reply) (m : Machine) → Kept formats n f m → Keeps (exists_reply reply) m
  exists_reply-Keeps not_run m h = raises h
  exists_reply-Keeps (exited status out errors) m h =
      if-After (status == 0) _ _ _ (λ p. returns h)
        (λ p. if-After (status == 1) _ _ _ (λ q. returns h) (λ q. raises h))

  pub image_exists :
      (name : Text) (m : Machine) → Kept formats n f m → Keeps (exists host (codes "image") name) m
  unfolding exists equal
  image_exists name m h =
      call-After (podman (codes "image" ∷ codes "exists" ∷ name ∷ [])) exists_reply m refl h
        (λ reply h'. exists_reply-Keeps reply _ h')

  names_reply-Keeps :
      (reply : Reply) (m : Machine) → Kept formats n f m → Keeps (names_reply reply) m
  names_reply-Keeps not_run m h = raises h
  names_reply-Keeps (exited status out errors) m h =
      if-After (status == 0) _ _ _ (λ p. returns h) (λ p. raises h)

  pub names_Keeps :
      (application : Text) (m : Machine)
      → Kept formats n f m
      → Keeps (managed_container_names host application) m
  unfolding managed_container_names equal
  names_Keeps application m h =
      call-After (podman (names_arguments application)) names_reply m refl h
        (λ reply h'. names_reply-Keeps reply _ h')

  capture_reply-Keeps :
      (reply : Reply) (m : Machine) → Kept formats n f m → Keeps (capture_reply reply) m
  capture_reply-Keeps not_run m h = raises h
  capture_reply-Keeps (exited status out errors) m h =
      if-After (status == 0) _ _ _ (λ p. returns h) (λ p. raises h)

  pub capture-Keeps :
      (arguments : List Text) (m : Machine)
      → not (is_removal arguments) ≡ true
      → Kept formats n f m
      → Keeps (capture host arguments) m
  unfolding capture
  capture-Keeps arguments m e h =
      call-After (podman arguments) capture_reply m e h (λ reply h'. capture_reply-Keeps reply _ h')

  -- what was captured of the labels tells whether they are those of the gateway
  unfoldable Inspected : Text → Machine → Type 0
  Inspected raw m =
      Kept formats n f m
      × (shows_owned formats m.calls ≡ elim (formats.decode_labels raw) as (λ x. Bool) [
        | none ↦ false
        | some labels ↦ is_owned labels
      ])

  inspect_reply-After :
      (reply : Reply) (m : Machine)
      → let m' = record m {
        calls = (podman (inspect_arguments container_name), reply) ∷ m.calls;
      } in
        Kept formats n f m' → After Inspected (λ e. Kept formats n f) (capture_reply reply) m'
  unfolding Inspected shows_owned equal
  inspect_reply-After not_run m h = raises h
  inspect_reply-After (exited status out errors) m h =
      if-After (status == 0) _ _ _ (λ p. returns (h, rw p refl)) (λ p. raises h)

  unfoldable pub Labelled : (Text → Text) → Machine → Type 0
  Labelled labels m = Kept formats n f m × (shows_owned formats m.calls ≡ is_owned labels)

  decoded-After :
      (labels : Option (Text → Text)) (m : Machine)
      → Kept formats n f m
      → shows_owned formats m.calls
        ≡ elim labels as (λ x. Bool) [ none ↦ false | some l ↦ is_owned l ]
      → After Labelled (λ e. Kept formats n f) (decoded_labels labels) m
  unfolding Labelled
  decoded-After none m h e = raises h
  decoded-After (some labels) m h e = returns (h, e)

  pub labels_After :
      (m : Machine)
      → Kept formats n f m
      → After Labelled (λ e. Kept formats n f) (container_labels host formats container_name) m
  unfolding container_labels capture Inspected equal
  labels_After m h =
      bind-After {Q = Inspected} (capture host (inspect_arguments container_name)) _ m
        (call-After (podman (inspect_arguments container_name)) capture_reply m refl h
          (λ reply h'. inspect_reply-After reply m h'))
        (λ raw m' q. decoded-After (formats.decode_labels raw) m' q.0 q.1)

  removal-Kept :
      (reply : Reply) (m : Machine)
      → shows_owned formats m.calls ≡ true
      → Kept formats n f m
      → Kept formats n f
          (record m { calls = (podman (remove_arguments container_name), reply) ∷ m.calls })
  unfolding is_careful is_allowed launches equal
  removal-Kept reply m e h = record {
    careful = rw e h.careful;
    launched = h.launched;
    following = h.following;
  }

  unfoldable pub Removed : Unit {0} → Machine → Type 0
  Removed done m = Kept formats n f m × (is_free m.calls ≡ true)

  remove_reply-After :
      (reply : Reply) (m : Machine)
      → let m' = record m { calls = (podman (remove_arguments container_name), reply) ∷ m.calls } in
        Kept formats n f m' → After Removed (λ e. Kept formats n f) (execute_reply reply) m'
  unfolding Removed is_free equal
  remove_reply-After not_run m h = raises h
  remove_reply-After (exited status out errors) m h =
      fail_if-After (not (status == 0)) command_failed _ (λ p. h) (λ p. (h, ground (arith, p)))

  pub remove_After :
      (m : Machine)
      → shows_owned formats m.calls ≡ true
      → Kept formats n f m
      → After Removed (λ e. Kept formats n f) (remove_container host container_name) m
  unfolding remove_container execute
  remove_After m e h =
      remove_reply-After (host m.calls (podman (remove_arguments container_name))) m
        (removal-Kept _ m e h)
