-- ===== src/Web/Keys.antt =====
-- How the pages word their values: internal/adapters/web/shared/templates/keys.go, without the two
-- functions that format a time, and FormatSize, which is in Web/Sizes.antt.
pub mod Sorting
pub mod Images
pub mod Trails
use compose_monitor.Base.{
  ℕ, zero, suc, ◌+◌, ◌-◌, ◌*◌, ◌/◌, ◌%◌, ◌^◌, ◌≡◌, Bool, true, false, not, ◌&&◌, ◌||◌, List, [],
  ◌∷◌, ◌++◌, Option, none, some, Text, bytes, cut, take, drop, length, ltb, leb, ◌==◌, nat_eq,
  list_eq, if◌then◌else◌,
}
use compose_monitor.Base.Int.{ℤ, pos, negsuc, ltb_ℤ}
use compose_monitor.Base.Instant.{is_zero_time}
use compose_monitor.Base.Decimal.{itoa}
use compose_monitor.Base.Spaces.{trim_space, join_blank}
use compose_monitor.Domain.{
  Service, State, Health, Port, state_text, unknown, is_online, published, state_eq,
}
use compose_monitor.Domain.Detail.{ServiceDetail}

-- `strconv.Itoa` and `strconv.FormatInt` of any number
unfoldable pub itoa_ℤ : ℤ → Text
itoa_ℤ (pos n) = itoa n
itoa_ℤ (negsuc n) = b'-' ∷ itoa (suc n)

abbrev pub zeros : ℕ → Text
zeros zero = []
zeros (suc n) = b'0' ∷ zeros n

-- `%06d` of a number that is not negative
unfoldable pub pad_number : ℕ → Text
unfolding itoa
pad_number n = zeros (6 - length (itoa n)) ++ itoa n

abbrev pub unit_separator : ℕ
unit_separator = 0x1f

-- `SortKey`
unfoldable pub sort_key : Service → Text
unfolding pad_number
sort_key s = s.name ++ (unit_separator ∷ (pad_number s.number ++ (unit_separator ∷ s.container_id)))

-- `ShortContainerID`
unfoldable pub short_container_id : Text → Text
short_container_id id = if ltb 12 (length id) then take 12 id else id

-- `ShortID`
unfoldable pub short_id : Service → Text
short_id s = if ltb 12 (length s.container_id) then take 12 s.container_id else s.container_id

-- `StateLabel`
unfoldable pub state_label : Service → Text
unfolding state_text
state_label s = if s.state == unknown then bytes "unknown" else state_text s.state

-- `OnlineAttr`
unfoldable pub online_attr : Service → Text
unfolding is_online
online_attr s = if is_online s then bytes "true" else bytes "false"

-- `ReplicaLabel`
unfoldable pub replica_label : Service → Text
unfolding itoa
replica_label s = if leb s.number 1 then [] else b'#' ∷ itoa s.number

-- `PortLabel`
unfoldable pub port_label : Port → Text
unfolding published itoa
port_label p =
    if published p
    then itoa p.host ++ bytes "→" ++ itoa p.container ++ bytes "/" ++ p.protocol
    else itoa p.container ++ bytes "/" ++ p.protocol

-- `PortTitle`
unfoldable pub port_title : Port → Text
unfolding published itoa
port_title p =
    if published p
    then bytes "Published on the host: "
      ++ itoa p.host
      ++ bytes " → "
      ++ itoa p.container
      ++ bytes "/"
      ++ p.protocol
    else bytes "Reachable only from the project's networks: "
      ++ itoa p.container
      ++ bytes "/"
      ++ p.protocol

-- `PortClass`
unfoldable pub port_class : Port → Text
unfolding published
port_class p = if published p then bytes "badge-port badge-port-published" else bytes "badge-port"

-- `strings.TrimSuffix`
unfoldable pub trim_suffix : Text → Text → Text
trim_suffix s p =
    if leb (length p) (length s) && drop (length s - length p) s == p
    then take (length s - length p) s
    else s

abbrev pub dash : Text
dash = bytes "—"

-- `StatusText`
unfoldable pub status_text : Service → Text
unfolding trim_suffix
status_text s =
    let a = trim_suffix s.status (bytes " (healthy)") in
    let b = trim_suffix a (bytes " (unhealthy)") in
    let c = trim_suffix b (bytes " (health: starting)") in if c == [] then dash else c

-- `UptimeLabel`
unfoldable pub uptime_label : Service → Text
unfolding status_text
uptime_label s = if not (s.elapsed == []) then s.elapsed else status_text s

-- `FormatBool`
unfoldable pub format_bool : Bool → Text
format_bool b = if b then bytes "yes" else bytes "no"

-- `Or`
unfoldable pub or_dash : Text → Text
unfolding trim_space
or_dash value = if trim_space value == [] then dash else value

-- `JoinCommand`
unfoldable pub join_command : List Text → Text
unfolding join_blank
join_command [] = dash
join_command (part ∷ parts) = join_blank (part ∷ parts)

-- `FormatCount`
unfoldable pub format_count : ℤ → Text
unfolding itoa_ℤ
format_count count = if ltb_ℤ count (pos 0) then bytes "not measured" else itoa_ℤ count

abbrev pub is_zero_code : ℤ → Bool
is_zero_code (pos zero) = true
is_zero_code _ = false

-- `ExitCodeLabel`
unfoldable pub exit_code_label : ServiceDetail → Text
unfolding is_online is_zero_time itoa_ℤ
exit_code_label d =
    if is_online d.service || (is_zero_time d.finished_at || is_zero_code d.exit_code)
    then []
    else itoa_ℤ d.exit_code

-- `LogSizeURL`
unfoldable pub log_size_url : Text → ℤ → Text
unfolding itoa_ℤ
log_size_url id tail = bytes "/services/" ++ id ++ bytes "?tail=" ++ itoa_ℤ tail

-- `UsedByLabel`
unfoldable pub used_by_label : ℕ → Text
unfolding itoa
used_by_label n = if n == 1 then bytes "1 container" else itoa n ++ bytes " containers"

-- `InUseLabel`
unfoldable pub in_use_label : ℕ → Text
unfolding used_by_label
in_use_label n = if n == 0 then bytes "no — nothing refers to it" else used_by_label n

-- `UsageLabel`
unfoldable pub usage_label : ℕ → Text
unfolding itoa
usage_label n =
    if n == 0
    then bytes "unused"
    else if n == 1
    then bytes "1 container"
    else itoa n ++ bytes " containers"

-- `UsageClass`
unfoldable pub usage_class : ℕ → Text
usage_class n = if n == 0 then bytes "badge-unused" else bytes "badge-container"

-- `ShortImage`, its part after the first cut first.
unfoldable pub short_digest : Text → Text → Text → Text
unfolding cut
short_digest image name digest = elim (cut b':' digest) [
  | none ↦ image
  | some (algorithm, hex) ↦
      if leb (length hex) 12 then image else name ++ (b'@' ∷ (algorithm ++ (b':' ∷ take 12 hex)))
]

unfoldable pub short_image : Text → Text
unfolding cut short_digest
short_image image = elim (cut b'@' image) [
  | none ↦ image
  | some (name, digest) ↦ short_digest image name digest
]

-- `Crumb`
pub record Crumb : Type 0 where
  pub label : Text
  pub href : Text

-- The loop of `Trail` and the label that it may leave.
unfoldable pub steps : List Text → List Crumb
steps [] = []
steps (label ∷ []) = record { label = label; href = [] } ∷ []
steps (label ∷ href ∷ rest) = record { label = label; href = href } ∷ steps rest

-- `crumbs[len(crumbs)-1].Href = ""`
unfoldable pub unlink_last : List Crumb → List Crumb
unlink_last [] = []
unlink_last (c ∷ []) = record c { href = [] } ∷ []
unlink_last (c ∷ d ∷ crumbs) = c ∷ unlink_last (d ∷ crumbs)

-- `Trail`
unfoldable pub trail : Text → Text → Text → List Text → List Crumb
unfolding steps unlink_last
trail project section section_href rest = unlink_last (
    record { label = project; href = bytes "/" }
    ∷ record { label = section; href = section_href }
    ∷ steps rest)
