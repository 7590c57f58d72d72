-- ===== src/Docker/Redaction.antt =====
-- `redactEnvironment` and `isSecret` of internal/adapters/docker/inspect.go. The Unicode
-- tables of `strings.ToUpper`, which serve where a text is not ASCII, are a parameter.
use mathlib.Core.List.Perm
use compose_monitor.Base.{
  ℕ, ◌-◌, ◌≡◌, refl, sym, ap, ap₂, ◌⊎◌, inl, inr, Bool, true, ◌&&◌, List, [], ◌∷◌, map, Perm, none,
  some, arith, Text, bytes, ltb, leb, if◌then◌else◌, cut, contains, any, Ordering,
}
use compose_monitor.Base.Order.{IsOrder, Text-IsOrder, by-IsOrder, compare_text}
use compose_monitor.Base.Sort.{sort, IsSorted, sort-IsSorted, sort-perm}
use compose_monitor.Domain.{Label}

abbrev pub is_ascii : Text → Bool
is_ascii [] = true
is_ascii (c ∷ s) = ltb c 0x80 && is_ascii s

abbrev upper_byte : ℕ → ℕ
upper_byte c = if leb 0x61 c && leb c 0x7a then c - 0x20 else c

-- `secretish`
abbrev pub secretish : List Text
secretish =
    bytes "PASSWORD"
    ∷ bytes "SECRET"
    ∷ bytes "TOKEN"
    ∷ bytes "APIKEY"
    ∷ bytes "API_KEY"
    ∷ bytes "ACCESS_KEY"
    ∷ bytes "PRIVATE_KEY"
    ∷ bytes "CREDENTIAL"
    ∷ bytes "PASSPHRASE"
    ∷ bytes "AUTH"
    ∷ bytes "SESSION_KEY"
    ∷ bytes "SALT"
    ∷ []

abbrev pub redacted : Text
redacted = bytes "••••••••"

-- `strings.Cut(entry, "=")`, with what is used where there is no `=`.
unfoldable pub split_entry : Text → Text × Text
unfolding cut
split_entry entry = elim (cut 0x3d entry) [ none ↦ (entry, []) | some parts ↦ parts ]

-- The comparison of `redactEnvironment` and of `toLabels`.
unfoldable pub compare_labels : Label → Label → Ordering
unfolding compare_text
compare_labels a b = compare_text a.key b.key

pub compare_labels-IsOrder : IsOrder Label compare_labels
unfolding compare_labels
compare_labels-IsOrder = by-IsOrder (λ l. l.key) Text-IsOrder

module _ (unicode_upper : Text → Text) where
  -- `strings.ToUpper`
  unfoldable pub to_upper : Text → Text
  to_upper s = if is_ascii s then map upper_byte s else unicode_upper s

  unfoldable pub is_secret : Text → Bool
  unfolding to_upper contains any
  is_secret key = any (contains (to_upper key)) secretish

  -- One round of the loop.
  unfoldable pub redact : Text → Label
  unfolding split_entry is_secret
  redact entry =
      let (key, value) = split_entry entry in
      record { key = key; value = if is_secret key then redacted else value }

  unfoldable pub redact_environment : List Text → List Label
  unfolding redact sort compare_labels
  redact_environment environment = sort compare_labels (map redact environment)

  -- Two environments that agree entry by entry, but for the values of secret variables.
  abbrev pub AgreeInPublic : List Text → List Text → Type 0
  AgreeInPublic [] [] = Unit
  AgreeInPublic [] (f ∷ fs) = ⊥
  AgreeInPublic (e ∷ es) [] = ⊥
  AgreeInPublic (e ∷ es) (f ∷ fs) =
      ((e ≡ f) ⊎ (((split_entry e).0 ≡ (split_entry f).0) × (is_secret (split_entry e).0 ≡ true)))
      × AgreeInPublic es fs

  redact-agree :
      (e f : Text)
      → (e ≡ f) ⊎ (((split_entry e).0 ≡ (split_entry f).0) × (is_secret (split_entry e).0 ≡ true))
      → redact e ≡ redact f
  unfolding redact
  redact-agree e f (inl same) = ap redact same
  redact-agree e f (inr (key, secret)) = ground (arith, ap is_secret key)

  map-redact-agree : (es fs : List Text) → AgreeInPublic es fs → map redact es ≡ map redact fs
  map-redact-agree [] [] h = refl
  map-redact-agree [] (f ∷ fs) h = absurd h
  map-redact-agree (e ∷ es) [] h = absurd h
  map-redact-agree (e ∷ es) (f ∷ fs) (h, hs) =
      ap₂ (λ l ls. l ∷ ls) (redact-agree e f h) (map-redact-agree es fs hs)

  -- Nothing of the value of a secret variable shows in what the page gets: environments that differ
  -- in such values only, entry by entry, give the same labels.
  pub redact_environment-hides :
      (es fs : List Text) → AgreeInPublic es fs → redact_environment es ≡ redact_environment fs
  unfolding redact_environment
  redact_environment-hides es fs h = ap (sort compare_labels) (map-redact-agree es fs h)

  keys-redact :
      (es : List Text) → map (λ l. l.key) (map redact es) ≡ map (λ e. (split_entry e).0) es
  unfolding redact
  keys-redact [] = refl
  keys-redact (e ∷ es) = ap (λ ks. (split_entry e).0 ∷ ks) (keys-redact es)

  -- Every variable is shown, under its name, and the names are in order.
  pub redact_environment-keys :
      (es : List Text)
      → Perm (map (λ l. l.key) (redact_environment es)) (map (λ e. (split_entry e).0) es)
        × IsSorted compare_labels (redact_environment es)
  unfolding redact_environment
  redact_environment-keys es = (
    rw (sym (keys-redact es)) (Perm.map (λ l. l.key) (sort-perm compare_labels (map redact es))),
    sort-IsSorted compare_labels compare_labels-IsOrder (map redact es),
  )
