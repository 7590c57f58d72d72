-- ===== src/App/Networks/Removal.antt =====
-- `NetworkService.Remove`: when a network is removed. The control is observed: a world carries the
-- list of the networks whose removal was asked for, newest first.
use compose_monitor.Base.{
  ◌<◌, ◌≡◌, refl, ◌∙◌, ap, ◌⊎◌, ◌≢◌, inl, inr, true, List, [], ◌∷◌, ◌++◌, Option, none, some, arith,
  Text, bytes, if◌then◌else◌, Bool-cases, Option-cases,
}
use compose_monitor.Base.Failure.{Act, Result, ok, err, ◌>>=◌}
use compose_monitor.Base.Failure.Rules.{
  wrapped-rule, or_wrap-rule, >>=-rule, Answers, Answers-ok, Answers-err,
}
use compose_monitor.Domain.{Network, ResourceUsage, network_in_use}
use compose_monitor.App.Ports.{ResourceControl}
use compose_monitor.App.Networks.{
  NetworkService, count_of, with_network_usage, with_members, complete, inspect_network,
  remove_unused, remove_network,
}

abbrev pub Observed : Type 0 → Type 0
Observed W = W × List Text

abbrev unseen : {W A : Type 0} → Act W A → Act (Observed W) A
unseen call (w, calls) = let (r, w') = call w in (r, (w', calls))

abbrev observe_control : {W : Type 0} → ResourceControl W → ResourceControl (Observed W)
observe_control c = record {
  remove = λ id (w, calls). let (r, w') = c.remove id w in (r, (w', id ∷ calls));
}

abbrev pub observed : {W : Type 0} → NetworkService W → NetworkService (Observed W)
observed s = record {
  source = record { list = unseen s.source.list; inspect = λ id. unseen (s.source.inspect id) };
  containers = record {
    list = unseen s.containers.list;
    inspect = λ id. unseen (s.containers.inspect id);
    logs = λ id tail. unseen (s.containers.logs id tail);
    usage = unseen s.containers.usage;
  };
  control = elim s.control [ none ↦ none | some c ↦ some (observe_control c) ];
}

-- The calls after a removal of what was judged: one more where it is not in use.
abbrev pub asked : Text → Option Network → List Text → List Text
asked id none calls = calls
asked id (some n) calls = if network_in_use n then calls else id ∷ calls

-- A container of the project was counted on the network.
abbrev pub IsCounted : Result ResourceUsage → Network → Type 0
IsCounted (ok usage) n = 0 < count_of n.name usage.networks
IsCounted (err e) n = ⊥

members_in_use : (n : Network) → n.members ≢ [] → network_in_use (with_members n) ≡ true
unfolding with_members network_in_use
members_in_use n h = ground arith

counted_in_use : (n : Network) → 0 < n.used_by → network_in_use (with_members n) ≡ true
unfolding with_members network_in_use
counted_in_use n h = ground arith

attached_in_use :
    (r : Result ResourceUsage) (n : Network)
    → (n.members ≢ []) ⊎ IsCounted r n
    → network_in_use (with_members (with_network_usage r n)) ≡ true
unfolding with_network_usage
attached_in_use (ok usage) n (inl members) =
    members_in_use (record n { used_by = count_of n.name usage.networks }) members
attached_in_use (err e) n (inl members) = members_in_use n members
attached_in_use (ok usage) n (inr counted) =
    counted_in_use (record n { used_by = count_of n.name usage.networks }) counted
attached_in_use (err f) n (inr counted) = absurd counted

module _ {W : Type 0} (s : NetworkService W) where
  abbrev judged_of : Result Network → W → Option Network
  judged_of (ok n) w = some (with_members (with_network_usage (s.containers.usage w).0 n))
  judged_of (err e) w = none

  abbrev inspected : Text → W → Option Network
  inspected id w = judged_of (s.source.inspect id w).0 (s.source.inspect id w).1

  -- The network that `Remove` decides on: with its usage, where removal is allowed and the project
  -- has such a network.
  abbrev pub judged : Text → W → Option Network
  judged id w = elim s.control [ none ↦ none | some _ ↦ inspected id w ]

  remove_unused-calls :
      (c : ResourceControl W) (id : Text) (n : Network) (w : Observed W)
      → (remove_unused (observed s) (observe_control c) id n w).1.1 ≡ asked id (some n) w.1
  unfolding remove_unused
  remove_unused-calls c id n w = elim (Bool-cases (network_in_use n)) [
    | inl used ↦ rw (used, remove_unused) refl
    | inr free ↦
        rw (free, remove_unused)
          (or_wrap-rule (λ out. out.1.1 ≡ id ∷ w.1) (bytes "removing network " ++ n.name)
            ((observe_control c).remove id) w (λ _ _. refl) (λ _ _. refl))
  ]

  inspect-Answers :
      (id : Text) (w : Observed W)
      → ((inspect_network (observed s) id w).1.1 ≡ w.1)
        × Answers (inspected id w.0) (inspect_network (observed s) id w).0
  unfolding inspect_network complete
  inspect-Answers id w =
      wrapped-rule (λ out. (out.1.1 ≡ w.1) × Answers (inspected id w.0) out.0)
        (bytes "inspecting network") ((observed s).source.inspect id) (complete (observed s)) w
        (λ n found. rw found (refl, refl)) (λ e failed. rw failed (refl, tt))

  judge-calls :
      (c : ResourceControl W) (id : Text) (w : Observed W)
      → ((inspect_network (observed s) id >>= remove_unused (observed s) (observe_control c) id)
          w).1.1
        ≡ asked id (inspected id w.0) w.1
  judge-calls c id w =
      >>=-rule (λ out. out.1.1 ≡ asked id (inspected id w.0) w.1) (inspect_network (observed s) id)
        (remove_unused (observed s) (observe_control c) id) w
        (λ n e.
          rw (Answers-ok (inspected id w.0) _ n e answer.1)
            (remove_unused-calls c id n _ ∙ ap (asked id (some n)) answer.0))
        (λ f e. rw (Answers-err (inspected id w.0) _ f e answer.1) answer.0)
    where
      answer :
          ((inspect_network (observed s) id w).1.1 ≡ w.1)
          × Answers (inspected id w.0) (inspect_network (observed s) id w).0
      answer = inspect-Answers id w

  -- `Remove` asks the runtime for one removal, of the ID it was given, where removal is allowed and
  -- the project has a network of that ID which, with its usage and its members counted, is not in
  -- use; and for none otherwise.
  pub remove_network-calls :
      (id : Text) (w : Observed W)
      → (remove_network (observed s) id w).1.1 ≡ asked id (judged id w.0) w.1
  unfolding remove_network
  remove_network-calls id w = elim (Option-cases s.control) [
    | inl off ↦ rw (off, remove_network) refl
    | inr (c, on) ↦ rw (on, remove_network) (judge-calls c id w)
  ]

  -- A network that a container is attached to is not removed, be the attachment counted among the
  -- project's containers or reported by the network itself, which also serves where the count
  -- failed.
  pub attached_network_kept :
      (id : Text) (w : Observed W) (found : Network)
      → (s.source.inspect id w.0).0 ≡ ok found
      → (found.members ≢ []) ⊎ IsCounted (s.containers.usage (s.source.inspect id w.0).1).0 found
      → (remove_network (observed s) id w).1.1 ≡ w.1
  attached_network_kept id w found listed attached = remove_network-calls id w ∙ kept
    where
      used :
          network_in_use (
            with_members
              (with_network_usage (s.containers.usage (s.source.inspect id w.0).1).0 found))
          ≡ true
      used = attached_in_use (s.containers.usage (s.source.inspect id w.0).1).0 found attached

      kept : asked id (judged id w.0) w.1 ≡ w.1
      kept = elim (Option-cases s.control) [
        | inl off ↦ rw off refl
        | inr (c, on) ↦ rw (on, listed, used) refl
      ]
