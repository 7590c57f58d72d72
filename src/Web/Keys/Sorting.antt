-- ===== src/Web/Keys/Sorting.antt =====
-- The sort key of a row against the order of the services.
use compose_monitor.Base.{
  ℕ, zero, suc, ◌+◌, ◌-◌, ◌*◌, ◌/◌, ◌<◌, ◌≡◌, refl, ◌∙◌, sym, ap, compare, Ordering, [], ◌∷◌, ◌++◌,
  Text, All, length, ltb, Bool-cases, true, inl, inr, arith,
}
use compose_monitor.Base.Order.{or_else, compare_text}
use compose_monitor.Base.Decimal.{digit, digits_from, itoa}
use compose_monitor.Domain.{Service}
use compose_monitor.App.Snapshot.{compare_services}
use compose_monitor.Web.Keys.{zeros, pad_number, unit_separator, sort_key}

abbrev pow10 : ℕ → ℕ
pow10 zero = 1
pow10 (suc k) = 10 * pow10 k

-- The last `k` digits of a number, in front of a text.
fixed : ℕ → ℕ → Text → Text
fixed zero n rest = rest
fixed (suc k) n rest = fixed k (n / 10) (digit n ∷ rest)

zeros-append : (k : ℕ) (rest : Text) → zeros k ++ (b'0' ∷ rest) ≡ b'0' ∷ (zeros k ++ rest)
zeros-append zero rest = refl
zeros-append (suc k) rest = ap (λ t. b'0' ∷ t) (zeros-append k rest)

fixed-zero : (k : ℕ) (rest : Text) → fixed k 0 rest ≡ zeros k ++ rest
unfolding fixed
fixed-zero zero rest = refl
fixed-zero (suc k) rest = fixed-zero k (b'0' ∷ rest) ∙ zeros-append k rest

fixed-append : (k n : ℕ) (acc rest : Text) → fixed k n acc ++ rest ≡ fixed k n (acc ++ rest)
unfolding fixed
fixed-append zero n acc rest = refl
fixed-append (suc k) n acc rest = fixed-append k (n / 10) (digit n ∷ acc) rest

fixed-small : (k n : ℕ) (acc : Text) → n < 10 → fixed (suc k) n acc ≡ zeros k ++ (digit n ∷ acc)
unfolding fixed
fixed-small k n acc h = let e : n / 10 ≡ 0 = omega arith in rw e (fixed-zero k (digit n ∷ acc))

fixed-digits_from :
    (k fuel n : ℕ) (acc : Text)
    → n < fuel
    → n < pow10 (suc k)
    → zeros (suc k + length acc - length (digits_from fuel n acc)) ++ digits_from fuel n acc
      ≡ fixed (suc k) n acc
unfolding digits_from fixed
fixed-digits_from k zero n acc h b = elim h [ ]
fixed-digits_from zero (suc fuel) n acc h b =
    let one : ltb n 10 ≡ true = ground arith in
    let width : 1 + length acc - length (digit n ∷ acc) ≡ 0 = omega arith in rw (one, width) refl
fixed-digits_from (suc k) (suc fuel) n acc h b = elim (Bool-cases (ltb n 10)) [
  | inl one ↦
      let width : suc (suc k) + length acc - length (digit n ∷ acc) ≡ suc k = omega arith in
      rw (one, width) (sym (fixed-small (suc k) n acc (ground arith)))
  | inr more ↦
      let width : suc (suc k) + length acc ≡ suc k + length (digit n ∷ acc) = omega arith in
      rw (more, width)
        (fixed-digits_from k fuel (n / 10) (digit n ∷ acc) (ground arith) (omega arith))
]

pad_number-fixed : (n : ℕ) → n < pow10 6 → pad_number n ≡ fixed 6 n []
unfolding pad_number itoa
pad_number-fixed n h = fixed-digits_from 5 (suc n) n [] (omega arith) h

compare_digits :
    (a b : ℕ) (o : Ordering)
    → or_else (compare (a / 10) (b / 10)) (or_else (compare (digit a) (digit b)) o)
      ≡ or_else (compare a b) o
compare_digits a b o = ground arith

compare_text-fixed :
    (k a b : ℕ) (x y : Text)
    → a < pow10 k
    → b < pow10 k
    → compare_text (fixed k a x) (fixed k b y) ≡ or_else (compare a b) (compare_text x y)
unfolding fixed compare_text
compare_text-fixed zero a b x y h i =
    let e : a ≡ 0 = omega arith in let f : b ≡ 0 = omega arith in rw (e, f) refl
compare_text-fixed (suc k) a b x y h i =
    compare_text-fixed k (a / 10) (b / 10) (digit a ∷ x) (digit b ∷ y) (omega arith) (omega arith)
    ∙ compare_digits a b (compare_text x y)

compare_text-separated :
    (a b x y : Text)
    → All (λ c. unit_separator < c) a
    → All (λ c. unit_separator < c) b
    → compare_text (a ++ (unit_separator ∷ x)) (b ++ (unit_separator ∷ y))
      ≡ or_else (compare_text a b) (compare_text x y)
unfolding compare_text
compare_text-separated [] [] x y h i = refl
compare_text-separated [] (d ∷ b) x y h i = ground arith
compare_text-separated (c ∷ a) [] x y h i = ground arith
compare_text-separated (c ∷ a) (d ∷ b) x y (h, hs) (i, is) =
    ground (arith, compare_text-separated a b x y hs is)

tail_of : Service → Text
tail_of s = fixed 6 s.number (unit_separator ∷ s.container_id)

sort_key-fixed :
    (s : Service) → s.number < pow10 6 → sort_key s ≡ s.name ++ (unit_separator ∷ tail_of s)
unfolding sort_key tail_of
sort_key-fixed s h =
    ap (λ t. s.name ++ (unit_separator ∷ t))
      (ap (λ t. t ++ (unit_separator ∷ s.container_id)) (pad_number-fixed s.number h)
        ∙ fixed-append 6 s.number [] (unit_separator ∷ s.container_id))

compare_tails :
    (a b : Service)
    → a.number < pow10 6
    → b.number < pow10 6
    → compare_text (tail_of a) (tail_of b)
      ≡ or_else (compare a.number b.number) (compare_text a.container_id b.container_id)
unfolding tail_of compare_text
compare_tails a b h i =
    compare_text-fixed 6 a.number b.number (unit_separator ∷ a.container_id)
      (unit_separator ∷ b.container_id) h i

-- The sort keys of two services compare, byte by byte, as `SortServices` compares the services,
-- where their numbers have at most six digits and no byte of their names is a control character
-- up to 0x1f.
pub compare_text-sort_key :
    (a b : Service)
    → a.number < 1_000_000
    → b.number < 1_000_000
    → All (λ c. unit_separator < c) a.name
    → All (λ c. unit_separator < c) b.name
    → compare_text (sort_key a) (sort_key b) ≡ compare_services a b
unfolding compare_services
compare_text-sort_key a b h i p q =
    rw (sort_key-fixed a h, sort_key-fixed b i)
      (compare_text-separated a.name b.name (tail_of a) (tail_of b) p q
        ∙ ap (or_else (compare_text a.name b.name)) (compare_tails a b h i))
