-- ===== src/Base/Json/Reading.antt =====
-- A reader of string literals, byte by byte, as the grammar of JSON describes them, and what it
-- reads from an encoded string. The code points that a `\u` stands for are those of one unit.
use mathlib.Core.Option
use mathlib.Core.List.{append_assoc}
use compose_monitor.Base.{
  ℕ, zero, suc, ◌+◌, ◌-◌, ◌*◌, ◌<◌, ◌≤◌, ◌≡◌, refl, ◌∙◌, sym, ap, Bool, true, false, ◌||◌, Option,
  none, some, [], ◌∷◌, ◌++◌, Text, bytes, ◌%◌, ◌⊎◌, utf8, ltb, ◌==◌, nat_eq, list_eq, if◌then◌else◌,
  arith, list_beq, list_beq_iff, Option-cases, Bool-cases, subst, inl, inr,
}
use compose_monitor.Base.Json.{escape_byte, between, hex_digit}

-- Inside a literal, after a backslash, or among the digits of a `\u`: how many are left after the
-- next one, and the value so far.
pub data ReadState : Type 0 where
  plain escaped : ReadState
  unicode : ℕ → ℕ → ReadState

pub data Move : Type 0 where
  goes : Text → ReadState → Move
  stops fails : Move

abbrev pub hex_value : ℕ → Option ℕ
hex_value c =
    if between b'0' c b'9'
    then some (c - b'0')
    else if between b'a' c b'f'
    then some (c - b'a' + 10)
    else if between b'A' c b'F'
    then some (c - b'A' + 10)
    else none

-- Half of a pair stands for no character.
abbrev pub unit_text : ℕ → Move
unit_text v = if between 0xd800 v 0xdfff then fails else goes (utf8 v) plain

abbrev pub after_digit : ℕ → ℕ → Option ℕ → Move
after_digit left v none = fails
after_digit zero v (some d) = unit_text (v * 16 + d)
after_digit (suc left) v (some d) = goes [] (unicode left (v * 16 + d))

unfoldable pub next : ReadState → ℕ → Move
next plain c =
    if c == b'"'
    then stops
    else if c == 0x5c
    then goes [] escaped
    else if ltb c 0x20
    then fails
    else goes (c ∷ []) plain
next escaped c =
    if c == b'u'
    then goes [] (unicode 3 0)
    else if c == b'"' || (c == 0x5c || c == b'/')
    then goes (c ∷ []) plain
    else if c == b'b'
    then goes (0x08 ∷ []) plain
    else if c == b'f'
    then goes (0x0c ∷ []) plain
    else if c == b'n'
    then goes (0x0a ∷ []) plain
    else if c == b'r'
    then goes (0x0d ∷ []) plain
    else if c == b't'
    then goes (0x09 ∷ []) plain
    else fails
next (unicode left v) c = after_digit left v (hex_value c)

abbrev pub in_front : Text → Option (Text × Text) → Option (Text × Text)
in_front out r = Option.map (λ q. (out ++ q.0, q.1)) r

-- The text of a literal whose opening quote was read, and what follows its closing quote.
unfoldable pub read_string : ReadState → Text → Option (Text × Text)
unfolding next
read_string st [] = none
read_string st (c ∷ s) = elim (next st c) [
  | goes out st' ↦ in_front out (read_string st' s)
  | stops ↦ some ([], s)
  | fails ↦ none
]

-- The moves over a part of a literal.
abbrev pub follow : Move → (ReadState → Option (Text × ReadState)) → Option (Text × ReadState)
follow (goes out st) rest = Option.map (λ q. (out ++ q.0, q.1)) (rest st)
follow stops rest = none
follow fails rest = none

pub reads : ReadState → Text → Option (Text × ReadState)
reads st [] = some ([], st)
reads st (c ∷ s) = follow (next st c) (λ st'. reads st' s)

in_front_twice :
    (a b : Text) (r : Option (Text × Text)) → in_front a (in_front b r) ≡ in_front (a ++ b) r
in_front_twice a b none = refl
in_front_twice a b (some (out, rest)) = rw (append_assoc a b out) refl

in_front_nothing : (r : Option (Text × Text)) → in_front [] r ≡ r
in_front_nothing none = refl
in_front_nothing (some (out, rest)) = refl

module _ (s t : Text) (st' : ReadState) where
  follow-step :
      (m : Move) (out : Text)
      → ((st : ReadState) (out' : Text)
          → reads st s ≡ some (out', st')
          → read_string st (s ++ t) ≡ in_front out' (read_string st' t))
      → follow m (λ st. reads st s) ≡ some (out, st')
      → (elim m [
        | goes out' st ↦ in_front out' (read_string st (s ++ t))
        | stops ↦ some ([], s ++ t)
        | fails ↦ none
      ])
        ≡ in_front out (read_string st' t)
  follow-step stops out ih h = absurd (ground arith)
  follow-step fails out ih h = absurd (ground arith)
  follow-step (goes o st) out ih h = elim (Option-cases (reads st s)) [
    | inl missing ↦ absurd (ground arith)
    | inr ((o', st''), found) ↦
        let same : st'' ≡ st' = ground arith in
        let whole : out ≡ o ++ o' = ground arith in
        ap (in_front o) (ih st o' (ground arith))
        ∙ in_front_twice o o' (read_string st' t)
        ∙ ap (λ x. in_front x (read_string st' t)) (sym whole)
  ]

pub read_string-reads :
    (st st' : ReadState) (s t out : Text)
    → reads st s ≡ some (out, st')
    → read_string st (s ++ t) ≡ in_front out (read_string st' t)
unfolding read_string reads
read_string-reads st st' [] t out h =
    let same : st ≡ st' = ground arith in
    let nothing : [] ≡ out = ground arith in
    rw (← same) (rw (← nothing) (sym (in_front_nothing (read_string st t))))
read_string-reads st st' (c ∷ s) t out h =
    follow-step s t st' (next st c) out (λ st₁ out'. read_string-reads st₁ st' s t out') h

-- A test of the numbers from one on, as many as are left.
passes : (ℕ → Bool) → (from left : ℕ) → Bool
passes check from zero = true
passes check from (suc left) =
    let rest = passes check (suc from) left in if check from then rest else false

passes-at :
    (check : ℕ → Bool) (from left c : ℕ)
    → passes check from left ≡ true
    → from ≤ c
    → c < from + left
    → check c ≡ true
unfolding passes
passes-at check from zero c whole low high = absurd (omega arith)
passes-at check from (suc left) c whole low high = elim (Bool-cases (from == c)) [
  | inl here ↦ let same : from ≡ c = ground arith in subst (λ k. check k ≡ true) same (ground arith)
  | inr past ↦ passes-at check (suc from) left c (ground arith) (ground arith) (omega arith)
]

abbrev is_byte : ℕ → Option (Text × ReadState) → Bool
is_byte c (some (out, plain)) = out == c ∷ []
is_byte c _ = false

is_byte-some :
    (c : ℕ) (r : Option (Text × ReadState)) → is_byte c r ≡ true → r ≡ some (c ∷ [], plain)
is_byte-some c none h = absurd (ground arith)
is_byte-some c (some (out, plain)) h = ap (λ t. some (t, plain)) ((list_beq_iff out (c ∷ [])).0 h)
is_byte-some c (some (out, escaped)) h = absurd (ground arith)
is_byte-some c (some (out, unicode left v)) h = absurd (ground arith)

byte_table : passes (λ c. is_byte c (reads plain (escape_byte c))) 0 128 ≡ true
unfolding passes reads next escape_byte list_beq
byte_table = refl

pub read_string-escape_byte :
    (c : ℕ) (t : Text)
    → c < 128
    → read_string plain (escape_byte c ++ t) ≡ in_front (c ∷ []) (read_string plain t)
read_string-escape_byte c t h = read_string-reads plain plain (escape_byte c) t (c ∷ []) (
    is_byte-some c (reads plain (escape_byte c))
      (passes-at (λ c. is_byte c (reads plain (escape_byte c))) 0 128 c byte_table (omega arith) h))

-- A byte that is not ASCII stands for itself.
pub read_string-high :
    (c : ℕ) (t : Text)
    → 0x80 ≤ c
    → read_string plain (c ∷ t) ≡ in_front (c ∷ []) (read_string plain t)
unfolding read_string
read_string-high c t h = ground arith

pub read_string-separator :
    (e : ℕ) (t : Text)
    → (e ≡ 0xa8) ⊎ (e ≡ 0xa9)
    → read_string plain (bytes "\\u202" ++ hex_digit (e % 16) ∷ t)
      ≡ in_front (0xe2 ∷ 0x80 ∷ e ∷ []) (read_string plain t)
unfolding reads next
read_string-separator e t (inl same) =
    rw same (read_string-reads plain plain (bytes "\\u2028") t (0xe2 ∷ 0x80 ∷ 0xa8 ∷ []) refl)
read_string-separator e t (inr same) =
    rw same (read_string-reads plain plain (bytes "\\u2029") t (0xe2 ∷ 0x80 ∷ 0xa9 ∷ []) refl)
