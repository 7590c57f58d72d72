-- ===== src/Web/Returning.antt =====
-- Where a plain form post is sent back to: `backWhereItWas` of
-- internal/adapters/web/services/handlers/handler.go, with what it uses of net/url. The check that
-- `url.Parse` makes of an authority is a parameter.
pub mod Hosts
use compose_monitor.Base.{
  ℕ, ◌+◌, ◌-◌, ◌*◌, ◌/◌, ◌%◌, ◌≡◌, Bool, true, false, not, ◌&&◌, ◌||◌, List, [], ◌∷◌, ◌++◌, Option,
  none, some, Text, bytes, has_prefix, contains, cut, any, leb, ltb, ◌==◌, nat_eq, list_eq,
  if◌then◌else◌,
}
use compose_monitor.Base.Json.{between}
use compose_monitor.Web.Actions.{Request}

abbrev pub is_letter : ℕ → Bool
is_letter c = between b'a' c b'z' || between b'A' c b'Z'

abbrev pub is_scheme_byte : ℕ → Bool
is_scheme_byte c = between b'0' c b'9' || (c == b'+' || (c == b'-' || c == b'.'))

-- What `getScheme` finds: an error, no scheme, or a scheme and what stands behind its colon.
pub data Scheme : Type 0 where
  bad absent : Scheme
  found : Text → Text → Scheme

abbrev pub longer : ℕ → Scheme → Scheme
longer c bad = bad
longer c absent = absent
longer c (found scheme rest) = found (c ∷ scheme) rest

-- `getScheme`, from its first byte on or behind it.
unfoldable pub get_scheme : Bool → Text → Scheme
get_scheme first [] = absent
get_scheme first (c ∷ s) =
    let more = longer c (get_scheme false s) in
    if is_letter c
    then more
    else if is_scheme_byte c
    then if first then absent else more
    else if c == b':'
    then if first then bad else found [] s
    else absent

abbrev pub hex_value : ℕ → Option ℕ
hex_value c =
    if between b'0' c b'9'
    then some (c - b'0')
    else if between b'a' c b'f'
    then some (c - b'a' + 10)
    else if between b'A' c b'F'
    then some (c - b'A' + 10)
    else none

abbrev pub push_byte : ℕ → Option Text → Option Text
push_byte c none = none
push_byte c (some s) = some (c ∷ s)

abbrev pub push_pair : Option ℕ → Option ℕ → Option Text → Option Text
push_pair (some a) (some b) rest = push_byte (a * 16 + b) rest
push_pair _ _ rest = none

-- `unescape` of a path or a fragment
unfoldable pub unescape : Text → Option Text
unescape [] = some []
unescape (c ∷ []) = if c == b'%' then none else some (c ∷ [])
unescape (c ∷ d ∷ []) = let rest = unescape (d ∷ []) in if c == b'%' then none else push_byte c rest
unescape (c ∷ d ∷ e ∷ s) =
    let escaped = push_pair (hex_value d) (hex_value e) (unescape s) in
    let plain = push_byte c (unescape (d ∷ e ∷ s)) in if c == b'%' then escaped else plain

-- `stringContainsCTLByte`
abbrev pub is_control : ℕ → Bool
is_control c = ltb c 0x20 || c == 0x7f

abbrev pub before : ℕ → Text → Text
before sep s = elim (cut sep s) [ none ↦ s | some (a, b) ↦ a ]

abbrev pub behind : ℕ → Text → Text
behind sep s = elim (cut sep s) [ none ↦ [] | some (a, b) ↦ b ]

-- An authority, which ends before the first slash, and the path from there.
abbrev pub path_behind : Text → Text
path_behind s = elim (cut b'/' s) [ none ↦ [] | some (a, b) ↦ b'/' ∷ b ]

abbrev pub drop_two : Text → Text
drop_two (c ∷ d ∷ s) = s
drop_two _ = []

abbrev pub with_query : Text → Option Text → Option (Text × Text)
with_query query none = none
with_query query (some path) = some (path, query)

-- `shouldEscape` of a byte of a path, and `escape`
abbrev pub is_path_byte : ℕ → Bool
is_path_byte c = (is_letter c || between b'0' c b'9') || any (λ d. c == d) (bytes "-_.~$&+,/:;=@")

abbrev pub upper_hex : ℕ → ℕ
upper_hex n = if ltb n 10 then b'0' + n else b'A' + (n - 10)

unfoldable pub escape_path : Text → Text
unfolding any
escape_path [] = []
escape_path (c ∷ s) =
    if is_path_byte c
    then c ∷ escape_path s
    else b'%' ∷ upper_hex (c / 16) ∷ upper_hex (c % 16) ∷ escape_path s

-- `URL.String` of a URL of a path that begins with a slash, and a query.
unfoldable pub url_text : Text → Text → Text
unfolding escape_path
url_text path query = escape_path path ++ (if query == [] then [] else b'?' ∷ query)

module _ (is_authority : Text → Bool) where
  -- `url.Parse` behind the scheme: the path and the query. A text with a scheme and without a slash
  -- has no path.
  unfoldable pub parse_path : Bool → Text → Text → Option (Text × Text)
  unfolding has_prefix cut contains unescape
  parse_path has_scheme rest query =
      if not (has_prefix rest (bytes "/"))
      then if has_scheme
        then some ([], query)
        else if contains (before b'/' rest) (bytes ":")
        then none
        else with_query query (unescape rest)
      else if (has_scheme || not (has_prefix rest (bytes "///"))) && has_prefix rest (bytes "//")
      then if is_authority (before b'/' (drop_two rest))
        then with_query query (unescape (path_behind (drop_two rest)))
        else none
      else with_query query (unescape rest)

  -- `parse`
  unfoldable pub parse_reference : Text → Option (Text × Text)
  unfolding any get_scheme cut parse_path
  parse_reference s =
      if any is_control s
      then none
      else if s == bytes "*"
      then some (s, [])
      else elim (get_scheme true s) [
        | bad ↦ none
        | absent ↦ parse_path false (before b'?' s) (behind b'?' s)
        | found scheme rest ↦ parse_path true (before b'?' rest) (behind b'?' rest)
      ]

  -- `url.Parse`: the path and the query of a reference; none is an error.
  unfoldable pub parse_url : Text → Option (Text × Text)
  unfolding cut unescape parse_reference
  parse_url s = elim (unescape (behind b'#' s)) [
    | none ↦ none
    | some fragment ↦ parse_reference (before b'#' s)
  ]

  -- `backWhereItWas`
  unfoldable pub back_where_it_was : Request → Text
  unfolding parse_url has_prefix url_text
  back_where_it_was r = elim (parse_url r.referer) [
    | none ↦ bytes "/"
    | some (path, query) ↦
        if path == [] || not (has_prefix path (bytes "/")) then bytes "/" else url_text path query
  ]
