-- ===== src/Domain/Detail.antt =====
-- The results of inspecting a container and of reading its log: internal/domain/service.go and
-- internal/domain/log.go.
use compose_monitor.Base.{ℕ, Bool, List, Text}
use compose_monitor.Base.Int.{ℤ}
use compose_monitor.Base.Instant.{Time}
use compose_monitor.Domain.{Service, Label}

-- `domain.Mount`
pub record Mount : Type 0 where
  pub kind : Text
  pub source : Text
  pub destination : Text
  pub read_write : Bool

-- `domain.NetworkAttachment`
pub record NetworkAttachment : Type 0 where
  pub name : Text
  pub network_id : Text
  pub ip_address : Text
  pub gateway : Text
  pub mac_address : Text
  pub aliases : List Text

-- `domain.ServiceDetail`
pub record ServiceDetail : Type 0 where
  pub service : Service
  pub command : List Text
  pub working_dir : Text
  pub user : Text
  pub restart_policy : Text
  pub platform : Text
  pub started_at : Time
  pub finished_at : Time
  pub exit_code : ℤ
  pub error : Text
  pub restart_count : ℕ
  pub environment : List Label
  pub labels : List Label
  pub mounts : List Mount
  pub networks : List NetworkAttachment
  pub ports_configured : Bool

-- `domain.LogStream`
pub data LogStream : Type 0 where
  stdout stderr : LogStream

-- `domain.LogLine`
pub record LogLine : Type 0 where
  pub at : Time
  pub stream : LogStream
  pub text : Text

-- `domain.Logs`
pub record Logs : Type 0 where
  pub lines : List LogLine
  pub tail : ℤ
  pub truncated : Bool
