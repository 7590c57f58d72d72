-- ===== src/Docker/Mapping/Numbers.antt =====
-- The replica number: `containerNumber` on what Compose writes, and on any label.
use compose_monitor.Base.{
  ℕ, zero, suc, ◌/◌, ◌^◌, ◌<◌, ◌≡◌, refl, sym, ◌∙◌, ap, true, false, [], ◌∷◌, some, arith, Text,
  ltb, ◌==◌, nat_eq, Bool-cases, Option-cases, inl, inr,
}
use compose_monitor.Base.Int.{pos}
use compose_monitor.Base.Decimal.{itoa, digits_from, digit}
use compose_monitor.Docker.Mapping.{atoi, read_digits, container_number}

-- Digits in front of a text are read as the number they were written for.
read_digits-digits_from :
    (fuel n : ℕ) (acc : Text)
    → n < fuel
    → read_digits 0 (digits_from fuel n acc) ≡ read_digits n acc
unfolding digits_from read_digits
read_digits-digits_from zero n acc h = absurd (omega (arith, h))
read_digits-digits_from (suc fuel) n acc h = elim (Bool-cases (ltb n 10)) [
  | inl small ↦ ground arith
  | inr large ↦ ground (arith, read_digits-digits_from fuel (n / 10) (digit n ∷ acc))
]

-- A written number begins with a digit, and so with no sign.
digits_from-head :
    (fuel n : ℕ) (acc : Text)
    → n < fuel
    → (m : ℕ) × (rest : Text) × (digits_from fuel n acc ≡ digit m ∷ rest)
unfolding digits_from
digits_from-head zero n acc h = absurd (omega (arith, h))
digits_from-head (suc fuel) n acc h = elim (Bool-cases (ltb n 10)) [
  | inl small ↦ (n, acc, rw (small, digits_from) refl)
  | inr large ↦
      let (m, rest, e) = digits_from-head fuel (n / 10) (digit n ∷ acc) (ground arith) in
      (m, rest, rw (large, digits_from) e)
]

atoi-digits :
    (m n : ℕ) (rest : Text)
    → read_digits 0 (digit m ∷ rest) ≡ some n
    → n < 2 ^ 63
    → atoi (digit m ∷ rest) ≡ some (pos n)
unfolding atoi
atoi-digits m n rest e h =
    let no_minus : ((digit m) == 0x2d) ≡ false = ground arith in
    let no_plus : ((digit m) == 0x2b) ≡ false = ground arith in
    let fits : ltb n (2 ^ 63) ≡ true = ground arith in rw (no_minus, atoi, no_plus, e, fits) refl

-- What `strconv.Itoa` writes, `strconv.Atoi` reads.
atoi-itoa : (n : ℕ) → n < 2 ^ 63 → atoi (itoa n) ≡ some (pos n)
unfolding itoa read_digits
atoi-itoa n h =
    let (m, rest, e) = digits_from-head (suc n) n [] (omega arith) in
    let value = read_digits-digits_from (suc n) n [] (omega arith) in
    ap atoi e ∙ atoi-digits m n rest (sym (ap (read_digits 0) e) ∙ value) h

-- The number of a replica, from 1 up and below 2 ^ 63, is read back from its decimal digits.
pub container_number-itoa : (n : ℕ) → 0 < n → n < 2 ^ 63 → container_number (itoa n) ≡ n
unfolding container_number
container_number-itoa n one h = rw (atoi-itoa n h, container_number) (ground arith)

-- Whatever the label says, the number is at least 1.
pub container_number_pos : (value : Text) → 0 < container_number value
unfolding container_number
container_number_pos value = elim (Option-cases (atoi value)) [
  | inl bad ↦ rw (bad, container_number) (omega arith)
  | inr (number, read) ↦ rw (read, container_number) (ground arith)
]
