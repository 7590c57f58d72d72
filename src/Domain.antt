-- ===== src/Domain.antt =====
-- The entities of internal/domain: service.go, event.go, network.go and volume.go.
pub mod Labels
pub mod Detail
use compose_monitor.Base.{
  ℕ, ◌≡◌, ◌↔◌, Bool, true, false, not, ◌&&◌, List, [], ltb, arith, Text, bytes, Eq, ◌==◌, nat_eq,
  list_eq, list_beq_iff, if◌then◌else◌, take, length,
}
use compose_monitor.Base.Int.{ℤ}
use compose_monitor.Base.Instant.{Time}

-- `domain.State`, whose values are the strings of `state_text`; `no_state` is the empty string, the zero value.
pub data State : Type 0 where
  created running paused restarting removing exited dead unknown no_state : State

unfoldable pub state_text : State → Text
state_text State.created = bytes "created"
state_text running = bytes "running"
state_text paused = bytes "paused"
state_text restarting = bytes "restarting"
state_text removing = bytes "removing"
state_text exited = bytes "exited"
state_text dead = bytes "dead"
state_text unknown = bytes "unknown"
state_text no_state = []

abbrev state_tag : State → ℕ
state_tag State.created = 0
state_tag running = 1
state_tag paused = 2
state_tag restarting = 3
state_tag removing = 4
state_tag exited = 5
state_tag dead = 6
state_tag unknown = 7
state_tag no_state = 8

abbrev pub state_beq : State → State → Bool
state_beq a b = state_tag a == state_tag b

pub state_beq_iff : (a b : State) → (state_beq a b ≡ true) ↔ (a ≡ b)
state_beq_iff a b = ground arith

instance abbrev pub state_eq : Eq State
state_eq = record { beq = state_beq; beq_iff = state_beq_iff }

-- `State.Online`
unfoldable pub is_online_state : State → Bool
is_online_state s = s == running

-- `domain.Health`; the empty string is `no_health`.
pub data Health : Type 0 where
  no_health starting healthy unhealthy : Health

abbrev health_tag : Health → ℕ
health_tag no_health = 0
health_tag starting = 1
health_tag healthy = 2
health_tag unhealthy = 3

abbrev pub health_beq : Health → Health → Bool
health_beq a b = health_tag a == health_tag b

pub health_beq_iff : (a b : Health) → (health_beq a b ≡ true) ↔ (a ≡ b)
health_beq_iff a b = ground arith

instance abbrev pub health_eq : Eq Health
health_eq = record { beq = health_beq; beq_iff = health_beq_iff }

-- `domain.Port`; `host` is 0 for a port that is not published.
pub record Port : Type 0 where
  pub host : ℕ
  pub container : ℕ
  pub protocol : Text

-- `Port.Published`
unfoldable pub published : Port → Bool
published p = not (p.host == 0)

abbrev pub port_beq : Port → Port → Bool
port_beq a b = a.host == b.host && (a.container == b.container && a.protocol == b.protocol)

pub port_beq_iff : (a b : Port) → (port_beq a b ≡ true) ↔ (a ≡ b)
port_beq_iff a b = ground (arith, list_beq_iff a.protocol b.protocol)

instance abbrev pub port_eq : Eq Port
port_eq = record { beq = port_beq; beq_iff = port_beq_iff }

-- `domain.Service`
pub record Service : Type 0 where
  pub container_id : Text
  pub name : Text
  pub number : ℕ
  pub container_name : Text
  pub image : Text
  pub title : Text
  pub description : Text
  pub url : Text
  pub state : State
  pub status : Text
  pub status_kind : Text
  pub elapsed : Text
  pub health : Health
  pub ports : List Port
  pub created : Time

-- `Service.Online`
unfoldable pub is_online : Service → Bool
unfolding is_online_state
is_online s = is_online_state s.state

-- `Service.CurrentHealth`
unfoldable pub current_health : Service → Health
unfolding is_online
current_health s = if not (is_online s) then no_health else s.health

-- `Service.DisplayName`
unfoldable pub display_name : Service → Text
display_name s = if not (s.title == []) then s.title else s.name

-- `Service.HasTitle`
unfoldable pub has_title : Service → Bool
has_title s = not (s.title == []) && not (s.title == s.name)

-- `domain.Summary`
pub record Summary : Type 0 where
  pub total : ℕ
  pub online : ℕ
  pub offline : ℕ

-- `domain.Action`
pub data Action : Type 0 where
  added updated removed : Action

-- `domain.Event`
pub record Event : Type 0 where
  pub action : Action
  pub service : Service
  pub notable : Bool

-- `domain.Label`
pub record Label : Type 0 where
  pub key : Text
  pub value : Text

-- `domain.LabelGroup`
pub record LabelGroup : Type 0 where
  pub title : Text
  pub labels : List Label

-- `domain.ResourceUsage`
pub record ResourceUsage : Type 0 where
  pub networks : List (Text × ℕ)
  pub volumes : List (Text × ℕ)

-- `domain.Subnet`
pub record Subnet : Type 0 where
  pub range : Text
  pub gateway : Text

-- `domain.NetworkMember`
pub record NetworkMember : Type 0 where
  pub container_id : Text
  pub name : Text
  pub ipv4_address : Text
  pub ipv6_address : Text
  pub mac_address : Text

-- `domain.Network`; `used_by` counts containers and is never negative.
pub record Network : Type 0 where
  pub id : Text
  pub name : Text
  pub driver : Text
  pub scope : Text
  pub created : Time
  pub internal : Bool
  pub attachable : Bool
  pub ipv6 : Bool
  pub subnets : List Subnet
  pub labels : List Label
  pub options : List Label
  pub members : List NetworkMember
  pub used_by : ℕ

-- `Network.ShortID`
unfoldable pub short_network_id : Network → Text
short_network_id n = if ltb 12 (length n.id) then take 12 n.id else n.id

-- `Network.InUse`
unfoldable pub network_in_use : Network → Bool
network_in_use n = ltb 0 n.used_by

-- `domain.Volume`; `size` is -1 where it was not measured.
pub record Volume : Type 0 where
  pub name : Text
  pub driver : Text
  pub mountpoint : Text
  pub scope : Text
  pub created : Time
  pub labels : List Label
  pub options : List Label
  pub size : ℤ
  pub used_by : ℕ

-- `Volume.InUse`
unfoldable pub volume_in_use : Volume → Bool
volume_in_use v = ltb 0 v.used_by
