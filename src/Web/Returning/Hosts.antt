-- ===== src/Web/Returning/Hosts.antt =====
-- Whether the way back stays on this site.
use compose_monitor.Base.{
  ℕ, ◌≡◌, refl, ◌∙◌, subst, Bool, true, false, not, ◌||◌, Option, none, some, [], ◌∷◌, ◌++◌, Text,
  bytes, has_prefix, any, ◌==◌, nat_eq, list_eq, list_beq, if◌then◌else◌, arith, Bool-cases,
  Option-cases, inl, inr,
}
use compose_monitor.Web.Actions.{Request}
use compose_monitor.Web.Returning.{
  parse_url, escape_path, url_text, back_where_it_was, is_path_byte,
}

-- A browser reads a reference that begins with two slashes as one to another host.
abbrev pub names_host : Text → Bool
names_host s = has_prefix s (bytes "//")

abbrev pub referred_path : Option (Text × Text) → Text
referred_path none = bytes "/"
referred_path (some (path, query)) = path

slash_path_byte : (d : ℕ) → is_path_byte d ≡ false → (d == b'/') ≡ false
unfolding any
slash_path_byte d h = elim (Bool-cases (d == b'/')) [
  | inl slash ↦
      let same : d ≡ b'/' = ground arith in
      absurd (slash_is_one (subst (λ c. is_path_byte c ≡ false) same h))
  | inr other ↦ other
]
  where
    slash_is_one : is_path_byte b'/' ≡ false → ⊥
    slash_is_one e = cc

escape_path-head :
    (d : ℕ) (s t : Text) → has_prefix (escape_path (d ∷ s) ++ t) (bytes "/") ≡ (d == b'/')
unfolding escape_path has_prefix
escape_path-head d s t = elim (Bool-cases (is_path_byte d)) [
  | inl kept ↦ rw (kept, escape_path) (ground arith)
  | inr escaped ↦ rw (escaped, escape_path, slash_path_byte d escaped) refl
]

query-head :
    (query : Text) → has_prefix (if query == [] then [] else b'?' ∷ query) (bytes "/") ≡ false
unfolding has_prefix list_beq
query-head [] = refl
query-head (c ∷ query) = refl

url_text-slash :
    (s query : Text)
    → (has_prefix (url_text (b'/' ∷ s) query) (bytes "/") ≡ true)
      × (names_host (url_text (b'/' ∷ s) query) ≡ names_host (b'/' ∷ s))
unfolding url_text has_prefix any
url_text-slash [] query = (refl, query-head query)
url_text-slash (d ∷ s) query = (refl, escape_path-head d s _ ∙ ground arith)

url_text-local :
    (path query : Text)
    → has_prefix path (bytes "/") ≡ true
    → (has_prefix (url_text path query) (bytes "/") ≡ true)
      × (names_host (url_text path query) ≡ names_host path)
unfolding has_prefix
url_text-local [] query h = absurd (ground arith)
url_text-local (c ∷ s) query h =
    let same : b'/' ≡ c = ground arith in
    subst
      (λ c'.
        (has_prefix (url_text (c' ∷ s) query) (bytes "/") ≡ true)
        × (names_host (url_text (c' ∷ s) query) ≡ names_host (c' ∷ s)))
      same (url_text-slash s query)

not_empty : (path : Text) → has_prefix path (bytes "/") ≡ true → (path == []) ≡ false
unfolding has_prefix list_beq
not_empty [] h = cc
not_empty (c ∷ s) h = refl

names_host-not : (path : Text) → has_prefix path (bytes "/") ≡ false → false ≡ names_host path
unfolding has_prefix
names_host-not [] h = refl
names_host-not (c ∷ []) h = ground arith
names_host-not (c ∷ d ∷ s) h = ground arith

chosen_other :
    (path query : Text)
    → has_prefix path (bytes "/") ≡ false
    → let way : Text =
        if path == [] || not (has_prefix path (bytes "/"))
        then bytes "/"
        else url_text path query in
      (has_prefix way (bytes "/") ≡ true) × (names_host way ≡ names_host path)
unfolding has_prefix
chosen_other path query other =
    let front : (path == [] || not (has_prefix path (bytes "/"))) ≡ true = ground arith in
    rw front (refl, names_host-not path other)

-- The way back is a path on this site or begins with two slashes, which a browser takes for the
-- name of another host; and it does the latter exactly where the path of the referrer does.
pub back_where_it_was-names_host :
    (is_authority : Text → Bool) (r : Request)
    → (has_prefix (back_where_it_was is_authority r) (bytes "/") ≡ true)
      × (names_host (back_where_it_was is_authority r)
          ≡ names_host (referred_path (parse_url is_authority r.referer)))
unfolding back_where_it_was
back_where_it_was-names_host is_authority r =
    elim (Option-cases (parse_url is_authority r.referer)) [
      | inl missing ↦ rw (missing, back_where_it_was) (unfold has_prefix in (refl, refl))
      | inr ((path, query), parsed) ↦ rw (parsed, back_where_it_was) (chosen path query)
    ]
  where
    chosen :
        (path query : Text)
        → let way : Text =
            if path == [] || not (has_prefix path (bytes "/"))
            then bytes "/"
            else url_text path query in
          (has_prefix way (bytes "/") ≡ true) × (names_host way ≡ names_host path)
    chosen path query = elim (Bool-cases (has_prefix path (bytes "/"))) [
      | inl rooted ↦ rw (rooted, not_empty path rooted) (url_text-local path query rooted)
      | inr other ↦ chosen_other path query other
    ]
