-- ===== src/Docker/Routing.antt =====
-- `serviceURL` of internal/adapters/docker/routing.go: the link of a service, by its Traefik labels.
-- The three regular expressions are written out as the functions that they compute.
pub mod Stable
pub mod Links
use mathlib.Core.List
use mathlib.Core.List.{filter_map}
use compose_monitor.Base.{
  ℕ, ◌+◌, Bool, true, false, not, ◌&&◌, ◌||◌, List, [], ◌∷◌, ◌++◌, Option, none, some, Text, bytes,
  ◌==◌, nat_eq, list_eq, leb, ltb, length, if◌then◌else◌, cut, contains, has_prefix, strip_prefix,
  split, any,
}
use compose_monitor.Base.Order.{compare_text}
use compose_monitor.Base.Sort.{sort}
use compose_monitor.Base.Dict.{lookup}
use compose_monitor.Base.Spaces.{trim_space}

abbrev pub all_bytes : (ℕ → Bool) → Text → Bool
all_bytes p [] = true
all_bytes p (c ∷ s) = p c && all_bytes p s

-- `routerRule`: the router that a label states the rule of.
unfoldable pub match_rule : Text → Option Text
unfolding strip_prefix cut
match_rule key = elim (strip_prefix key (bytes "traefik.http.routers.")) [
  | none ↦ none
  | some rest ↦ elim (cut 0x2e rest) [
    | none ↦ none
    | some (router, after) ↦
        if not (router == []) && after == bytes "rule" then some router else none
  ]
]

abbrev is_digit : ℕ → Bool
is_digit c = leb 0x30 c && leb c 0x39

-- `\s` of a regular expression
abbrev is_blank : ℕ → Bool
is_blank c = c == 0x09 || (c == 0x0a || (c == 0x0c || (c == 0x0d || c == 0x20)))

abbrev skip_blanks : Text → Text
skip_blanks [] = []
skip_blanks (c ∷ s) = let rest = skip_blanks s in if is_blank c then rest else c ∷ s

-- The text between two backticks, the first of which begins the argument, where it is not empty.
abbrev pub quoted : Text → Option Text
quoted [] = none
quoted (c ∷ s) =
    if c == 0x60
    then elim (cut 0x60 s) [
      | none ↦ none
      | some (host, after) ↦ if host == [] then none else some host
    ]
    else none

-- `hostMatch` at one position.
unfoldable pub host_here : Text → Option Text
unfolding strip_prefix cut
host_here s = elim (strip_prefix s (bytes "Host(")) [
  | none ↦ none
  | some rest ↦ quoted (skip_blanks rest)
]

-- `hostMatch`: the first match.
unfoldable pub find_host : Text → Option Text
unfolding host_here
find_host [] = none
find_host (c ∷ s) =
    let later = find_host s in elim (host_here (c ∷ s)) [ none ↦ later | some host ↦ some host ]

abbrev is_host_byte : ℕ → Bool
is_host_byte c =
    (leb 0x41 c && leb c 0x5a)
    || ((leb 0x61 c && leb c 0x7a) || (is_digit c || (c == 0x2e || c == 0x2d)))

abbrev pub is_name : Text → Bool
is_name s = not (s == []) && all_bytes is_host_byte s

abbrev pub is_port : Text → Bool
is_port s = not (s == []) && (ltb (length s) 6 && all_bytes is_digit s)

-- `hostname`
unfoldable pub is_hostname : Text → Bool
unfolding cut
is_hostname s = elim (cut 0x3a s) [
  | none ↦ is_name s
  | some (name, port) ↦ is_name name && is_port port
]

-- `ruleHost`
unfoldable pub rule_host : Text → Text
unfolding find_host is_hostname
rule_host rule = elim (find_host rule) [
  | none ↦ []
  | some host ↦ if not (is_hostname host) then [] else host
]

-- `strings.ToLower` on ASCII. A text that is not ASCII is lowered to none of the entrypoints below.
abbrev lower_byte : ℕ → ℕ
lower_byte c = if leb 0x41 c && leb c 0x5a then c + 0x20 else c

-- `secureEntrypoint`
abbrev secure_entrypoint : Text → Bool
secure_entrypoint s =
    s == bytes "websecure"
    || (s == bytes "https" || (s == bytes "secure" || s == bytes "web-secure"))

unfoldable pub is_secure_entry : Text → Bool
unfolding trim_space
is_secure_entry entrypoint = secure_entrypoint (List.map lower_byte (trim_space entrypoint))

-- One round of the loop of `secure`.
unfoldable pub is_secure_label : Text → Text × Text → Bool
unfolding has_prefix any split is_secure_entry
is_secure_label prefix (key, value) =
    if key == prefix ++ bytes ".tls" || has_prefix key (prefix ++ bytes ".tls.")
    then true
    else if key == prefix ++ bytes ".entrypoints" || key == prefix ++ bytes ".entryPoints"
    then any is_secure_entry (split 0x2c value)
    else false

-- `secure`
unfoldable pub is_secure : List (Text × Text) → Text → Bool
unfolding any is_secure_label
is_secure labels router = any (is_secure_label (bytes "traefik.http.routers." ++ router)) labels

-- `labels[key]`
unfoldable pub label : Text → List (Text × Text) → Text
unfolding lookup
label key labels = elim (lookup key labels) [ none ↦ [] | some value ↦ value ]

-- The host of a router in the loop of `serviceURL`.
unfoldable pub host_of : List (Text × Text) → Text → Text
unfolding rule_host label
host_of labels router =
    rule_host (label (bytes "traefik.http.routers." ++ router ++ bytes ".rule") labels)

-- One round of the second loop: what the rounds after it return is given, as the round leaves
-- `insecure` alone and as it sets it.
unfoldable pub link_step : Text → Bool → Text → Text → Text → Text
link_step host secure insecure next noted =
    if host == []
    then next
    else if secure
    then bytes "https://" ++ host
    else if insecure == []
    then noted
    else next

-- The second loop.
unfoldable pub first_link : List (Text × Text) → List Text → Text → Text
unfolding host_of is_secure link_step
first_link labels [] insecure = insecure
first_link labels (router ∷ routers) insecure =
    let host = host_of labels router in
    let next = first_link labels routers insecure in
    let noted = first_link labels routers (bytes "http://" ++ host) in
    link_step host (is_secure labels router) insecure next noted

-- The first loop, with the sort.
unfoldable pub routers_of : List (Text × Text) → List Text
unfolding match_rule sort compare_text
routers_of labels = sort compare_text (filter_map (λ entry. match_rule entry.0) labels)

unfoldable pub service_url : List (Text × Text) → Text
unfolding first_link routers_of
service_url labels = first_link labels (routers_of labels) []
