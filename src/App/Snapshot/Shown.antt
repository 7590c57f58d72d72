-- ===== src/App/Snapshot/Shown.antt =====
-- What `Notable` and `Changed` compare.
use compose_monitor.Base.{
  ℕ, ◌≡◌, refl, ap, ◌↔◌, Bool, true, false, not, ◌||◌, List, arith, Text, list_beq_iff, list_eq,
  nat_eq, nat_beq_iff, ◌==◌,
}
use compose_monitor.Domain.{
  Service, State, Health, Port, port_eq, state_eq, health_eq, state_beq_iff, health_beq_iff,
}
use compose_monitor.App.Snapshot.{is_notable, is_changed}

-- The fields of a service that say what happened to it.
pub record Face : Type 0 where
  pub name : Text
  pub number : ℕ
  pub container_name : Text
  pub image : Text
  pub state : State
  pub status_kind : Text
  pub health : Health
  pub ports : List Port

-- The fields that decide whether its row is redrawn: those, and the status with its time.
pub record Row : Type 0 where
  pub face : Face
  pub status : Text

unfoldable pub face : Service → Face
face s = record {
  name = s.name;
  number = s.number;
  container_name = s.container_name;
  image = s.image;
  state = s.state;
  status_kind = s.status_kind;
  health = s.health;
  ports = s.ports;
}

unfoldable pub row : Service → Row
unfolding face
row s = record { face = face s; status = s.status }

differs_or : (same rest : Bool) → (not same || rest) ≡ false → (same ≡ true) × (rest ≡ false)
differs_or true rest h = (refl, h)
differs_or false rest h = cc

module _ (a b : Service) where
  -- No notable difference is exactly agreement in all that says what happened.
  pub is_notable-eq-false_iff : (is_notable a b ≡ false) ↔ (face a ≡ face b)
  unfolding is_notable face
  is_notable-eq-false_iff = (to, from)
    where
      to : is_notable a b ≡ false → face a ≡ face b
      to h =
          let (name, h₁) = differs_or (a.name == b.name) _ h in
          let (number, h₂) = differs_or (a.number == b.number) _ h₁ in
          let (container, h₃) = differs_or (a.container_name == b.container_name) _ h₂ in
          let (image, h₄) = differs_or (a.image == b.image) _ h₃ in
          let (state, h₅) = differs_or (a.state == b.state) _ h₄ in
          let (kind, h₆) = differs_or (a.status_kind == b.status_kind) _ h₅ in
          let (health, h₇) = differs_or (a.health == b.health) _ h₆ in
          cc (
            (list_beq_iff a.name b.name).0 name,
            (nat_beq_iff a.number b.number).0 number,
            (list_beq_iff a.container_name b.container_name).0 container,
            (list_beq_iff a.image b.image).0 image,
            (state_beq_iff a.state b.state).0 state,
            (list_beq_iff a.status_kind b.status_kind).0 kind,
            (health_beq_iff a.health b.health).0 health,
            (list_beq_iff a.ports b.ports).0 (ground arith),
          )

      from : face a ≡ face b → is_notable a b ≡ false
      from e = simp (
        (list_beq_iff a.name b.name).1 (ap (λ f. f.name) e),
        (nat_beq_iff a.number b.number).1 (ap (λ f. f.number) e),
        (list_beq_iff a.container_name b.container_name).1 (ap (λ f. f.container_name) e),
        (list_beq_iff a.image b.image).1 (ap (λ f. f.image) e),
        (state_beq_iff a.state b.state).1 (ap (λ f. f.state) e),
        (list_beq_iff a.status_kind b.status_kind).1 (ap (λ f. f.status_kind) e),
        (health_beq_iff a.health b.health).1 (ap (λ f. f.health) e),
        (list_beq_iff a.ports b.ports).1 (ap (λ f. f.ports) e),
      )

  -- `Changed` is false exactly where the two services agree in name, number, container name,
  -- image, state, kind of status, health and ports, and in the status with its time.
  pub is_changed-eq-false_iff : (is_changed a b ≡ false) ↔ (row a ≡ row b)
  unfolding is_changed row
  is_changed-eq-false_iff =
      let faces = is_notable-eq-false_iff in
      (
        λ h. cc (faces.0 (ground arith), (list_beq_iff a.status b.status).0 (ground arith)),
        λ e. simp (
          faces.1 (ap (λ r. r.face) e),
          (list_beq_iff a.status b.status).1 (ap (λ r. r.status) e),
        ),
      )
