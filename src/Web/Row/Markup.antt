-- ===== src/Web/Row/Markup.antt =====
-- A reader of markup that keeps the open elements, and what is written in pieces for it.
use compose_monitor.Base.{
  ℕ, ◌≡◌, ◌≢◌, refl, ◌∙◌, ap, sym, Bool, true, false, List, [], ◌∷◌, ◌++◌, Text, All, map, ◌==◌,
  nat_eq, list_eq, if◌then◌else◌, arith, inl, inr, ◌⊎◌,
}
use compose_monitor.Web.Row.{write}

-- Where the reader is, with the names of the open elements, the innermost first, each backwards: in
-- text, behind a bracket, in the name of an element, among its attributes, in a quoted value, behind
-- the slash of an element that ends itself, or in the name of one that is closed.
pub data Mode : Type 0 where
  text bracket : List Text → Mode
  naming attributes quoted slash closing : Text → List Text → Mode
  broken : Mode

-- The innermost element is closed, by its own name only.
abbrev pub close_one : Text → List Text → Mode
close_one name [] = broken
close_one name (top ∷ rest) = if name == top then text rest else broken

abbrev pub read_byte : ℕ → Mode → Mode
read_byte c (text open_ones) = if c == b'<' then bracket open_ones else text open_ones
read_byte c (bracket open_ones) =
    if c == b'/' then closing [] open_ones else naming (c ∷ []) open_ones
read_byte c (naming name open_ones) =
    if c == b'>'
    then text (name ∷ open_ones)
    else if c == b' '
    then attributes name open_ones
    else naming (c ∷ name) open_ones
read_byte c (attributes name open_ones) =
    if c == b'>'
    then text (name ∷ open_ones)
    else if c == b'"'
    then quoted name open_ones
    else if c == b'/'
    then slash name open_ones
    else attributes name open_ones
read_byte c (quoted name open_ones) =
    if c == b'"' then attributes name open_ones else quoted name open_ones
read_byte c (slash name open_ones) = if c == b'>' then text open_ones else broken
read_byte c (closing name open_ones) =
    if c == b'>' then close_one name open_ones else closing (c ∷ name) open_ones
read_byte c broken = broken

unfoldable pub read : Text → Mode → Mode
read [] m = m
read (c ∷ s) m = read s (read_byte c m)

-- Markup that closes what it opens, wherever it stands.
pub record IsWhole (s : Text) : Type 0 where
  pub reads : (open_ones : List Text) → read s (text open_ones) ≡ text open_ones

-- Text that neither opens an element nor ends a quoted value.
abbrev pub IsPlain : Text → Type 0
IsPlain = All (λ c. (c ≢ b'<') × (c ≢ b'"'))

read-append : (s t : Text) (m : Mode) → read (s ++ t) m ≡ read t (read s m)
unfolding read
read-append [] t m = refl
read-append (c ∷ s) t m = read-append s t (read_byte c m)

read-text :
    (s : Text) (open_ones : List Text) → IsPlain s → read s (text open_ones) ≡ text open_ones
unfolding read
read-text [] open_ones h = refl
read-text (c ∷ s) open_ones ((h, i), hs) =
    ap (read s) (unbroken (c == b'<') (ground arith)) ∙ read-text s open_ones hs
  where
    unbroken :
        (b : Bool) → b ≡ false → (if b then bracket open_ones else text open_ones) ≡ text open_ones
    unbroken b e = rw e refl

read-quoted :
    (s name : Text) (open_ones : List Text)
    → IsPlain s
    → read s (quoted name open_ones) ≡ quoted name open_ones
unfolding read
read-quoted [] name open_ones h = refl
read-quoted (c ∷ s) name open_ones ((h, i), hs) =
    ap (read s) (unbroken (c == b'"') (ground arith)) ∙ read-quoted s name open_ones hs
  where
    unbroken :
        (b : Bool)
        → b ≡ false
        → (if b then attributes name open_ones else quoted name open_ones) ≡ quoted name open_ones
    unbroken b e = rw e refl

-- What is written: markup of the program, a value, or markup that is whole.
pub data Piece : Type 0 where
  literal value whole : Text → Piece

abbrev pub piece_text : Piece → Text
piece_text (literal t) = t
piece_text (value t) = t
piece_text (whole t) = t

abbrev pub IsPiece : Piece → Type 0
IsPiece (literal t) = Unit
IsPiece (value t) = IsPlain t
IsPiece (whole t) = IsWhole t

-- The reader, where it takes a value for what it is: in text or in a quoted value.
abbrev pub skim_one : Piece → Mode → Mode
skim_one (literal t) m = read t m
skim_one (value t) (text open_ones) = text open_ones
skim_one (value t) (quoted name open_ones) = quoted name open_ones
skim_one (value t) _ = broken
skim_one (whole t) (text open_ones) = text open_ones
skim_one (whole t) _ = broken

unfoldable pub skim : List Piece → Mode → Mode
skim [] m = m
skim (p ∷ ps) m = skim ps (skim_one p m)

read-broken : (s : Text) → read s broken ≡ broken
unfolding read
read-broken [] = refl
read-broken (c ∷ s) = read-broken s

skim-broken : (ps : List Piece) → skim ps broken ≡ broken
unfolding skim
skim-broken [] = refl
skim-broken (literal t ∷ ps) = ap (skim ps) (read-broken t) ∙ skim-broken ps
skim-broken (value t ∷ ps) = skim-broken ps
skim-broken (whole t ∷ ps) = skim-broken ps

read-skim_one :
    (p : Piece) (m : Mode)
    → IsPiece p
    → (skim_one p m ≡ broken) ⊎ (read (piece_text p) m ≡ skim_one p m)
read-skim_one (literal t) m h = inr refl
read-skim_one (value t) (text open_ones) h = inr (read-text t open_ones h)
read-skim_one (value t) (quoted name open_ones) h = inr (read-quoted t name open_ones h)
read-skim_one (value t) (bracket open_ones) h = inl refl
read-skim_one (value t) (naming name open_ones) h = inl refl
read-skim_one (value t) (attributes name open_ones) h = inl refl
read-skim_one (value t) (slash name open_ones) h = inl refl
read-skim_one (value t) (closing name open_ones) h = inl refl
read-skim_one (value t) broken h = inl refl
read-skim_one (whole t) (text open_ones) h = inr (h.reads open_ones)
read-skim_one (whole t) (quoted name open_ones) h = inl refl
read-skim_one (whole t) (bracket open_ones) h = inl refl
read-skim_one (whole t) (naming name open_ones) h = inl refl
read-skim_one (whole t) (attributes name open_ones) h = inl refl
read-skim_one (whole t) (slash name open_ones) h = inl refl
read-skim_one (whole t) (closing name open_ones) h = inl refl
read-skim_one (whole t) broken h = inl refl

-- Pieces that the reader can take for what they are are read as what they are.
pub read-write :
    (ps : List Piece) (m : Mode) (open_ones : List Text)
    → All IsPiece ps
    → skim ps m ≡ text open_ones
    → read (write (map piece_text ps)) m ≡ text open_ones
unfolding read write skim
read-write [] m open_ones h e = e
read-write (p ∷ ps) m open_ones (h, hs) e = elim (read-skim_one p m h) [
  | inl lost ↦ absurd (text-broken open_ones (sym e ∙ ap (skim ps) lost ∙ skim-broken ps))
  | inr kept ↦
      read-append (piece_text p) (write (map piece_text ps)) m
      ∙ ap (read (write (map piece_text ps))) kept
      ∙ read-write ps (skim_one p m) open_ones hs e
]
  where
    text-broken : (open_ones : List Text) → text open_ones ≢ broken
    text-broken open_ones e = cc

pub append-IsWhole : (s t : Text) → IsWhole s → IsWhole t → IsWhole (s ++ t)
append-IsWhole s t h i = record {
  reads = λ open_ones.
      read-append s t (text open_ones) ∙ ap (read t) (h.reads open_ones) ∙ i.reads open_ones;
}

pub pieces-IsWhole :
    (ps : List Piece)
    → All IsPiece ps
    → ((open_ones : List Text) → skim ps (text open_ones) ≡ text open_ones)
    → IsWhole (write (map piece_text ps))
pieces-IsWhole ps h e = record {
  reads = λ open_ones. read-write ps (text open_ones) open_ones h (e open_ones);
}

pub if-IsWhole : (b : Bool) (s : Text) → IsWhole s → IsWhole (if b then s else [])
unfolding read
if-IsWhole true s h = h
if-IsWhole false s h = record { reads = λ open_ones. refl }
