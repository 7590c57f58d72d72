-- ===== src/Web/Sizes.antt =====
-- FormatSize of internal/adapters/web/shared/templates/keys.go, with the rounding of its floats.
pub mod Units
use compose_monitor.Base.{
  ℕ, zero, suc, ◌+◌, ◌-◌, ◌*◌, ◌/◌, ◌%◌, ◌^◌, ◌≡◌, Bool, true, false, not, ◌&&◌, ◌||◌, List, [],
  ◌∷◌, ◌++◌, Option, none, some, Text, bytes, cut, take, drop, length, ltb, leb, ◌==◌, nat_eq,
  list_eq, if◌then◌else◌,
}
use compose_monitor.Base.Int.{ℤ, pos, negsuc, ltb_ℤ}
use compose_monitor.Base.Instant.{is_zero_time}
use compose_monitor.Base.Decimal.{itoa}
use compose_monitor.Base.Spaces.{trim_space, join_blank}
use compose_monitor.Domain.{
  Service, State, Health, Port, state_text, unknown, is_online, published, state_eq,
}
use compose_monitor.Domain.Detail.{ServiceDetail}

-- `float64(n)` of a number below 2 ^ 63, as a natural number: it is rounded, half to even, to a
-- multiple of the unit in the last place of 53 bits.
unfoldable pub ulp : ℕ → ℕ → ℕ → ℕ
ulp zero n u = u
ulp (suc fuel) n u =
    let more = ulp fuel n (2 * u) in if ltb n (9_007_199_254_740_992 * u) then u else more

unfoldable pub round_half_even : ℕ → ℕ → ℕ
round_half_even n d =
    let q = n / d in
    let r = n % d in if ltb (2 * r) d then q else if ltb d (2 * r) then q + 1 else q + q % 2

unfoldable pub float_of : ℕ → ℕ
unfolding ulp round_half_even
float_of n = let u = ulp 10 n 1 in round_half_even n u * u

abbrev pub size_unit : ℕ
size_unit = 1024

-- The loop of `FormatSize`, with fuel: `div`, an int64 as the bit pattern that it is, and `exp`.
unfoldable pub scale : ℕ → ℕ → ℕ → ℕ → Option (ℕ × ℕ)
scale zero n div exp = none
scale (suc fuel) n div exp =
    let more = scale fuel (n / size_unit) (div * size_unit % 2 ^ 64) (exp + 1) in
    if leb size_unit n then more else some (div, exp)

abbrev pub unit_letter : ℕ → Text → Option ℕ
unit_letter n [] = none
unit_letter zero (c ∷ cs) = some c
unit_letter (suc n) (c ∷ cs) = unit_letter n cs

-- `"%.1f"` of a quotient whose divisor is a power of two.
unfoldable pub tenths : ℕ → ℕ → ℕ
unfolding float_of round_half_even
tenths n div = round_half_even (10 * float_of n) div

unfoldable pub one_decimal : ℕ → Text
unfolding itoa
one_decimal t = itoa (t / 10) ++ (b'.' ∷ itoa (t % 10))

-- `FormatSize`; `none` is a panic, of an index past the last unit.
unfoldable pub format_size : ℤ → Option Text
unfolding itoa scale tenths one_decimal
format_size (negsuc n) = some (bytes "not measured")
format_size (pos n) =
    if ltb n size_unit
    then some (itoa n ++ bytes " B")
    else elim (scale 7 (n / size_unit) size_unit 0) [
      | none ↦ none
      | some (div, exp) ↦ elim (unit_letter exp (bytes "KMGTPE")) [
        | none ↦ none
        | some letter ↦ some (one_decimal (tenths n div) ++ (b' ' ∷ letter ∷ bytes "iB"))
      ]
    ]
