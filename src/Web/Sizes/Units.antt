-- ===== src/Web/Sizes/Units.antt =====
-- The unit of a size that `FormatSize` picks.
use compose_monitor.Base.{
  ℕ, zero, suc, ◌+◌, ◌*◌, ◌/◌, ◌≤◌, ◌<◌, ◌≡◌, refl, some, Text, bytes, ◌∷◌, ◌++◌, false, arith, ltb,
  Bool-cases, inl, inr,
}
use compose_monitor.Base.Int.{pos}
use compose_monitor.Web.Sizes.{
  scale, format_size, tenths, one_decimal, unit_letter, float_of, round_half_even,
}

abbrev pub power : ℕ → ℕ
power zero = 1
power (suc k) = 1024 * power k

-- The loop ends with the power of 1024 that the size has reached, and has not overflowed.
scale_finds :
    (m : ℕ)
    → 1024 ≤ m
    → m < 9_223_372_036_854_775_808
    → (e : ℕ) × (letter : ℕ) × (scale 7 (m / 1024) 1024 0 ≡ some (power (suc e), e))
      × (unit_letter e (bytes "KMGTPE") ≡ some letter)
      × (power (suc e) ≤ m)
      × (m < power (suc (suc e)))
unfolding scale
scale_finds m h i = elim (Bool-cases (ltb m 1_048_576)) [
  | inl k ↦ (0, b'K', ground arith, refl, h, ground arith)
  | inr k ↦ elim (Bool-cases (ltb m 1_073_741_824)) [
    | inl l ↦ (1, b'M', ground arith, refl, ground arith, ground arith)
    | inr l ↦ elim (Bool-cases (ltb m 1_099_511_627_776)) [
      | inl n ↦ (2, b'G', ground arith, refl, ground arith, ground arith)
      | inr n ↦ elim (Bool-cases (ltb m 1_125_899_906_842_624)) [
        | inl o ↦ (3, b'T', ground arith, refl, ground arith, ground arith)
        | inr o ↦ elim (Bool-cases (ltb m 1_152_921_504_606_846_976)) [
          | inl q ↦ (4, b'P', ground arith, refl, ground arith, ground arith)
          | inr q ↦ (5, b'E', ground arith, refl, ground arith, ground arith)
        ]
      ]
    ]
  ]
]

float_of-small : (m : ℕ) → m < 9_007_199_254_740_992 → float_of m ≡ m
unfolding float_of
float_of-small m h = ground arith

round_half_even_near :
    (n d : ℕ)
    → 0 < d
    → (2 * (round_half_even n d * d) ≤ 2 * n + d) × (2 * n ≤ 2 * (round_half_even n d * d) + d)
unfolding round_half_even
round_half_even_near n d h = grind arith

abbrev pub shown : ℕ → ℕ → Text
shown t letter = one_decimal t ++ (b' ' ∷ letter ∷ bytes "iB")

format_size-scaled :
    (m d e letter : ℕ)
    → 1024 ≤ m
    → scale 7 (m / 1024) 1024 0 ≡ some (d, e)
    → unit_letter e (bytes "KMGTPE") ≡ some letter
    → format_size (pos m) ≡ some (shown (tenths m d) letter)
unfolding format_size
format_size-scaled m d e letter h found named =
    let large : ltb m 1024 ≡ false = ground arith in
    rw (large, format_size, found, format_size, named) refl

-- A size of one KiB or more, below 2 ^ 63, is written without a panic, in tenths of the unit whose
-- power of 1024 is the largest that does not exceed it.
pub format_size_fits :
    (m : ℕ)
    → 1024 ≤ m
    → m < 9_223_372_036_854_775_808
    → (e : ℕ) × (letter : ℕ) × (unit_letter e (bytes "KMGTPE") ≡ some letter)
      × (format_size (pos m) ≡ some (shown (tenths m (power (suc e))) letter))
      × (power (suc e) ≤ m)
      × (m < power (suc (suc e)))
format_size_fits m h i =
    let (e, letter, found, named, low, high) = scale_finds m h i in
    (e, letter, named, format_size-scaled m (power (suc e)) e letter h found named, low, high)

-- The tenths that are shown are the nearest: for a size below 2 ^ 53 they are off by half a tenth
-- of the unit at most.
pub tenths_near :
    (m d : ℕ)
    → m < 9_007_199_254_740_992
    → 0 < d
    → (2 * (tenths m d * d) ≤ 20 * m + d) × (20 * m ≤ 2 * (tenths m d * d) + d)
unfolding tenths
tenths_near m d h p =
    rw (float_of-small m h)
      (let (above, below) = round_half_even_near (10 * m) d p in (omega arith, omega arith))
