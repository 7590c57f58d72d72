-- ===== src/Base/Decimal.antt =====
-- `strconv.Itoa` on numbers that are not negative.
use compose_monitor.Base.{ℕ, zero, suc, ◌+◌, ◌-◌, ◌*◌, ◌/◌, ◌%◌, [], ◌∷◌, Text, ltb, if◌then◌else◌}

abbrev pub digit : ℕ → ℕ
digit n = b'0' + n % 10

-- The digits of a number, most significant first; `fuel` bounds how many there are.
unfoldable pub digits_from : ℕ → ℕ → Text → Text
digits_from zero n acc = acc
digits_from (suc fuel) n acc =
    let more = digits_from fuel (n / 10) (digit n ∷ acc) in if ltb n 10 then digit n ∷ acc else more

-- A number has no more digits than its own successor counts.
unfoldable pub itoa : ℕ → Text
unfolding digits_from
itoa n = digits_from (suc n) n []

-- The number that decimal digits stand for.
abbrev pub value_from : ℕ → Text → ℕ
value_from v [] = v
value_from v (c ∷ cs) = value_from (v * 10 + (c - b'0')) cs
