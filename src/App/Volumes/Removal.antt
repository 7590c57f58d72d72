-- ===== src/App/Volumes/Removal.antt =====
-- `VolumeService.Remove`: when a volume is removed. The control is observed: a world carries the
-- list of the volumes whose removal was asked for, newest first.
use compose_monitor.Base.{
  ◌<◌, ◌≡◌, refl, ◌∙◌, ap, inl, inr, true, false, List, ◌∷◌, ◌++◌, Option, none, some, arith, Text,
  bytes, if◌then◌else◌, Bool-cases, Option-cases,
}
use compose_monitor.Base.Failure.{Failure, Act, Result, ok, err, ◌>>=◌}
use compose_monitor.Base.Failure.Rules.{
  wrapped-rule, or_wrap-rule, >>=-rule, Answers, Answers-ok, Answers-err,
}
use compose_monitor.Domain.{Volume, ResourceUsage, volume_in_use}
use compose_monitor.App.Ports.{ResourceControl}
use compose_monitor.App.Networks.{count_of}
use compose_monitor.App.Volumes.{
  VolumeService, with_usage, with_volume_usage, complete, inspect_volume, remove_unused,
  remove_volume,
}

abbrev pub Observed : Type 0 → Type 0
Observed W = W × List Text

abbrev unseen : {W A : Type 0} → Act W A → Act (Observed W) A
unseen call (w, calls) = let (r, w') = call w in (r, (w', calls))

abbrev observe_control : {W : Type 0} → ResourceControl W → ResourceControl (Observed W)
observe_control c = record {
  remove = λ id (w, calls). let (r, w') = c.remove id w in (r, (w', id ∷ calls));
}

abbrev pub observed : {W : Type 0} → VolumeService W → VolumeService (Observed W)
observed s = record {
  source = record { list = unseen s.source.list; inspect = λ id. unseen (s.source.inspect id) };
  containers = record {
    list = unseen s.containers.list;
    inspect = λ id. unseen (s.containers.inspect id);
    logs = λ id tail. unseen (s.containers.logs id tail);
    usage = unseen s.containers.usage;
  };
  control = elim s.control [ none ↦ none | some c ↦ some (observe_control c) ];
}

-- The calls after a removal of what was judged: one more where it is not in use.
abbrev pub asked : Text → Option Volume → List Text → List Text
asked id none calls = calls
asked id (some n) calls = if volume_in_use n then calls else id ∷ calls

-- A container of the project was counted on the volume.
abbrev pub IsCounted : Result ResourceUsage → Volume → Type 0
IsCounted (ok usage) n = 0 < count_of n.name usage.volumes
IsCounted (err e) n = ⊥

counted_in_use :
    (r : Result ResourceUsage) (v : Volume)
    → IsCounted r v
    → volume_in_use (with_volume_usage r v) ≡ true
unfolding with_volume_usage volume_in_use
counted_in_use (ok usage) v counted = ground arith
counted_in_use (err e) v counted = absurd counted

free_of :
    (v : Volume) (e : Failure) → v.used_by ≡ 0 → volume_in_use (with_volume_usage (err e) v) ≡ false
unfolding with_volume_usage volume_in_use
free_of v e h = ground arith

module _ {W : Type 0} (s : VolumeService W) where
  abbrev judged_of : Result Volume → W → Option Volume
  judged_of (ok n) w = some (with_volume_usage (s.containers.usage w).0 n)
  judged_of (err e) w = none

  abbrev inspected : Text → W → Option Volume
  inspected id w = judged_of (s.source.inspect id w).0 (s.source.inspect id w).1

  -- The volume that `Remove` decides on: with its usage, where removal is allowed and the project
  -- has such a volume.
  abbrev pub judged : Text → W → Option Volume
  judged id w = elim s.control [ none ↦ none | some _ ↦ inspected id w ]

  remove_unused-calls :
      (c : ResourceControl W) (id : Text) (n : Volume) (w : Observed W)
      → (remove_unused (observed s) (observe_control c) id n w).1.1 ≡ asked id (some n) w.1
  unfolding remove_unused
  remove_unused-calls c id n w = elim (Bool-cases (volume_in_use n)) [
    | inl used ↦ rw (used, remove_unused) refl
    | inr free ↦
        rw (free, remove_unused)
          (or_wrap-rule (λ out. out.1.1 ≡ id ∷ w.1) (bytes "removing volume " ++ n.name)
            ((observe_control c).remove id) w (λ _ _. refl) (λ _ _. refl))
  ]

  inspect-Answers :
      (id : Text) (w : Observed W)
      → ((inspect_volume (observed s) id w).1.1 ≡ w.1)
        × Answers (inspected id w.0) (inspect_volume (observed s) id w).0
  unfolding inspect_volume complete with_usage
  inspect-Answers id w =
      wrapped-rule (λ out. (out.1.1 ≡ w.1) × Answers (inspected id w.0) out.0)
        (bytes "inspecting volume") ((observed s).source.inspect id) (complete (observed s)) w
        (λ n found. rw found (refl, refl)) (λ e failed. rw failed (refl, tt))

  judge-calls :
      (c : ResourceControl W) (id : Text) (w : Observed W)
      → ((inspect_volume (observed s) id >>= remove_unused (observed s) (observe_control c) id)
          w).1.1
        ≡ asked id (inspected id w.0) w.1
  judge-calls c id w =
      >>=-rule (λ out. out.1.1 ≡ asked id (inspected id w.0) w.1) (inspect_volume (observed s) id)
        (remove_unused (observed s) (observe_control c) id) w
        (λ n e.
          rw (Answers-ok (inspected id w.0) _ n e answer.1)
            (remove_unused-calls c id n _ ∙ ap (asked id (some n)) answer.0))
        (λ f e. rw (Answers-err (inspected id w.0) _ f e answer.1) answer.0)
    where
      answer :
          ((inspect_volume (observed s) id w).1.1 ≡ w.1)
          × Answers (inspected id w.0) (inspect_volume (observed s) id w).0
      answer = inspect-Answers id w

  -- `Remove` asks the runtime for one removal, of the ID it was given, where removal is allowed and
  -- the project has a volume of that ID which, with its usage counted, is not in
  -- use; and for none otherwise.
  pub remove_volume-calls :
      (id : Text) (w : Observed W)
      → (remove_volume (observed s) id w).1.1 ≡ asked id (judged id w.0) w.1
  unfolding remove_volume
  remove_volume-calls id w = elim (Option-cases s.control) [
    | inl off ↦ rw (off, remove_volume) refl
    | inr (c, on) ↦ rw (on, remove_volume) (judge-calls c id w)
  ]

  -- A volume that a container of the project was counted to mount is not removed.
  pub counted_volume_kept :
      (name : Text) (w : Observed W) (found : Volume)
      → (s.source.inspect name w.0).0 ≡ ok found
      → IsCounted (s.containers.usage (s.source.inspect name w.0).1).0 found
      → (remove_volume (observed s) name w).1.1 ≡ w.1
  counted_volume_kept name w found listed counted = remove_volume-calls name w ∙ kept
    where
      used :
          volume_in_use
            (with_volume_usage (s.containers.usage (s.source.inspect name w.0).1).0 found)
          ≡ true
      used = counted_in_use (s.containers.usage (s.source.inspect name w.0).1).0 found counted

      kept : asked name (judged name w.0) w.1 ≡ w.1
      kept = elim (Option-cases s.control) [
        | inl off ↦ rw off refl
        | inr (c, on) ↦ rw (on, listed, used) refl
      ]

  -- Where removal is allowed and the containers cannot be counted, a volume that the source gives
  -- with no count, as the runtime's adapter does, is not kept back by the check of its use: the
  -- control is asked for one removal of it. The error of the count is ignored, and the missing count
  -- is read as none.
  pub uncounted_removal_asked :
      (name : Text) (w : Observed W) (found : Volume) (c : ResourceControl W) (e : Failure)
      → s.control ≡ some c
      → (s.source.inspect name w.0).0 ≡ ok found
      → found.used_by ≡ 0
      → (s.containers.usage (s.source.inspect name w.0).1).0 ≡ err e
      → (remove_volume (observed s) name w).1.1 ≡ name ∷ w.1
  uncounted_removal_asked name w found c e on listed uncounted failed =
      remove_volume-calls name w ∙ rw (on, listed, failed, free_of found e uncounted) refl
