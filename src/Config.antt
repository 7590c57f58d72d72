-- ===== src/Config.antt =====
-- The configuration's own logic: internal/config. The environment is read by a library.
use compose_monitor.Base.{
  Bool, not, [], ◌++◌, Option, none, some, Text, bytes, contains, ◌==◌, nat_eq, list_eq,
  if◌then◌else◌, ◌||◌,
}
use compose_monitor.Base.Int.{ℤ}
use compose_monitor.Base.Failure.{Result, ok, err, prefixed}
use compose_monitor.Web.Keys.{itoa_ℤ}

-- `ApplicationConfig`, with `IsDevelopment`.
pub record ApplicationConfig : Type 0 where
  pub mode : Text

unfoldable pub is_development : ApplicationConfig → Bool
is_development c = c.mode == bytes "development"

-- `ProjectConfig`; its durations are in nanoseconds.
pub record ProjectConfig : Type 0 where
  pub name : Text
  pub title : Text
  pub interval : ℤ
  pub debounce : ℤ

-- `DisplayTitle`
unfoldable pub display_title : ProjectConfig → Text
display_title c = if not (c.title == []) then c.title else c.name

-- `DockerConfig`
pub record DockerConfig : Type 0 where
  pub host : Text

-- `ControlConfig`
pub record ControlConfig : Type 0 where
  pub enabled : Bool

-- `HttpConfig`
pub record HttpConfig : Type 0 where
  pub host : Text
  pub port : ℤ
  pub read_header_timeout : ℤ
  pub idle_timeout : ℤ
  pub shutdown_timeout : ℤ
  pub keep_alive : ℤ

-- `net.JoinHostPort`: a host with a colon or a percent sign stands in brackets.
unfoldable pub join_host_port : Text → Text → Text
unfolding contains
join_host_port host port =
    if contains host (bytes ":") || contains host (bytes "%")
    then bytes "[" ++ host ++ bytes "]:" ++ port
    else host ++ bytes ":" ++ port

-- `Addr`
unfoldable pub addr : HttpConfig → Text
unfolding join_host_port itoa_ℤ
addr c = join_host_port c.host (itoa_ℤ c.port)

-- `slog.Level`
pub data Level : Type 0 where
  debug info warn error : Level

-- `LogConfig`
pub record LogConfig : Type 0 where
  pub level : Text
  pub format : Text

-- `SlogLevel`
unfoldable pub slog_level : Text → Level
slog_level l =
    if l == bytes "debug"
    then debug
    else if l == bytes "warn"
    then warn
    else if l == bytes "error"
    then error
    else info

-- `Config`
pub record Config : Type 0 where
  pub application : ApplicationConfig
  pub project : ProjectConfig
  pub docker : DockerConfig
  pub control : ControlConfig
  pub http : HttpConfig
  pub log : LogConfig

-- `Load`, with what the library makes of the environment, and `MustLoad`, whose panic is none.
unfoldable pub load : Result Config → Result Config
load (ok cfg) = ok cfg
load (err e) = err (prefixed (bytes "parsing configuration from environment") e)

unfoldable pub must_load : Result Config → Option Config
unfolding load
must_load parsed = elim (load parsed) [ ok cfg ↦ some cfg | err e ↦ none ]
