-- ===== src/Docker/Client/Scope.antt =====
-- The project's label in `Inspect` and `Logs`, which take any ID that the runtime knows.
use compose_monitor.Base.{
  ◌≡◌, ◌≢◌, ◌↔◌, refl, sym, subst, true, false, Option, none, some, [], Text, bytes, list_beq_iff,
  list_eq, nat_eq, arith, Option-cases, Bool-cases, inl, inr,
}
use compose_monitor.Base.Dict.{lookup}
use compose_monitor.Docker.Mapping.{label_project}
use compose_monitor.Docker.Routing.{label}
use compose_monitor.Base.Int.{ℤ}
use compose_monitor.Base.Failure.{not_found, same_sentinel, error_is, Result, ok, err, return}
use compose_monitor.Base.Failure.Rules.{>>=-err, >>=-ok}
use compose_monitor.Docker.Types.{InspectResponse, Parsed}
use compose_monitor.Docker.Inspect.{to_detail}
use compose_monitor.Docker.Client.{
  Api, is_member, no_container, inspect_member, inspect_container, container_logs, open_logs,
}

-- A call is refused with `ErrNotFound`, and leaves the world as it found it.
abbrev pub IsRefused : {W A : Type 0} → W → Result A × W → Type 0
IsRefused w (ok a, w') = ⊥
IsRefused w (err e, w') = (error_is e not_found ≡ true) × (w' ≡ w)

-- The project that a container says it belongs to: the value of Compose's label, which Go reads as
-- empty where there is none. A response without a configuration names no project.
abbrev pub project_of : InspectResponse → Option Text
project_of inspected = elim inspected.config [
  | none ↦ none
  | some config ↦ elim (lookup (bytes "com.docker.compose.project") config.labels) [
    | none ↦ some []
    | some name ↦ some name
  ]
]

is_member_iff :
    (project : Text) (inspected : InspectResponse)
    → (is_member project inspected ≡ true) ↔ (project_of inspected ≡ some project)
unfolding is_member label
is_member_iff project inspected = elim (Option-cases inspected.config) [
  | inl missing ↦ ground arith
  | inr (config, given) ↦ elim (Option-cases (lookup label_project config.labels)) [
    | inl unlabelled ↦ ground (arith, list_beq_iff [] project)
    | inr (name, labelled) ↦ ground (arith, list_beq_iff name project)
  ]
]

is_member-own :
    (project : Text) (inspected : InspectResponse)
    → project_of inspected ≡ some project
    → is_member project inspected ≡ true
is_member-own project inspected own = (is_member_iff project inspected).1 own

is_member-foreign :
    (project : Text) (inspected : InspectResponse)
    → project_of inspected ≢ some project
    → is_member project inspected ≡ false
is_member-foreign project inspected other = elim (Bool-cases (is_member project inspected)) [
  | inl own ↦ absurd (other ((is_member_iff project inspected).0 own))
  | inr foreign ↦ foreign
]

module _ {W : Type 0} (api : Api W) (project : Text) (parse : Text → Option Parsed)
    (unicode_upper : Text → Text) where
  -- The runtime knows the container, and it is not one of the project.
  abbrev pub IsForeign : Text → W → Type 0
  IsForeign id w =
      (inspected : InspectResponse) × ((api.container_inspect id w).0 ≡ ok inspected)
      × (project_of inspected ≢ some project)

  inspect_member-refused :
      (id : Text) (w : W)
      → IsForeign id w
      → inspect_member api project parse unicode_upper id w
        ≡ (err (no_container id), (api.container_inspect id w).1)
  unfolding inspect_member
  inspect_member-refused id w (inspected, known, other) =
      rw (known, inspect_member, is_member-foreign project inspected other) refl

  inspect_member-answered :
      (id : Text) (w : W) (inspected : InspectResponse)
      → (api.container_inspect id w).0 ≡ ok inspected
      → project_of inspected ≡ some project
      → inspect_member api project parse unicode_upper id w
        ≡ (ok inspected, (api.container_inspect id w).1)
  unfolding inspect_member
  inspect_member-answered id w inspected known own =
      rw (known, inspect_member, is_member-own project inspected own) refl

  pub inspect-refused :
      (id : Text) (w : W)
      → IsForeign id w
      → inspect_container api project parse unicode_upper id w
        ≡ (err (no_container id), (api.container_inspect id w).1)
  unfolding inspect_container
  inspect-refused id w h =
      >>=-err (inspect_member api project parse unicode_upper id)
        (λ inspected. return (to_detail parse unicode_upper inspected)) w _ (no_container id)
        (inspect_member-refused id w h)

  logs-refused :
      (id : Text) (tail : ℤ) (w : W)
      → IsForeign id w
      → container_logs api project parse unicode_upper id tail w
        ≡ (err (no_container id), (api.container_inspect id w).1)
  unfolding container_logs
  logs-refused id tail w h =
      >>=-err (inspect_member api project parse unicode_upper id)
        (open_logs api project parse unicode_upper id tail) w _ (no_container id)
        (inspect_member-refused id w h)

  -- What a call answers, by whether the container is one of the project: its own answer, or
  -- `ErrNotFound` with no call but the inspection.
  abbrev pub Shown :
      {A : Type 0} {P : Type 0}
      → Dec P
      → (answer : Result A × W) → (inspected : W) → Result A × W
      → Type 0
  Shown (yes _) answer inspected out = out ≡ answer
  Shown (no _) answer inspected out = IsRefused inspected out

  -- A container that the runtime knows is shown exactly where it has Compose's label with the name
  -- of the project: `Inspect` then answers its details, and `Logs` opens its log. Of any other
  -- nothing is given out, neither its details nor its log, whose output is not even asked for: both
  -- calls end with `ErrNotFound` right after the inspection.
  pub members_only :
      (id : Text) (tail : ℤ) (w : W) (inspected : InspectResponse)
      → (own : Dec (project_of inspected ≡ some project))
      → (api.container_inspect id w).0 ≡ ok inspected
      → let w' = (api.container_inspect id w).1 in
        Shown own
          (ok (to_detail parse unicode_upper inspected), w')
          w'
          (inspect_container api project parse unicode_upper id w)
        × Shown own
            (open_logs api project parse unicode_upper id tail inspected w')
            w'
            (container_logs api project parse unicode_upper id tail w)
  unfolding inspect_container container_logs error_is same_sentinel
  members_only id tail w inspected (yes own) known =
      let found = inspect_member-answered id w inspected known own in
      (
        >>=-ok (inspect_member api project parse unicode_upper id)
            (λ inspected. return (to_detail parse unicode_upper inspected)) w _ inspected found,
        >>=-ok (inspect_member api project parse unicode_upper id)
            (open_logs api project parse unicode_upper id tail) w _ inspected found,
      )
  members_only id tail w inspected (no other) known =
      let w' = (api.container_inspect id w).1 in
      let h : IsForeign id w = (inspected, known, other) in
      let refused : IsRefused {A = Unit {0}} w' (err (no_container id), w') = (refl, refl) in
      (
        subst (IsRefused w') (sym (inspect-refused id w h)) refused,
        subst (IsRefused w') (sym (logs-refused id tail w h)) refused,
      )
