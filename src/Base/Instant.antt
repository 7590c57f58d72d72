-- ===== src/Base/Instant.antt =====
-- `time.Time` as an instant: nanoseconds since the zero time, January 1 of the year 1 in UTC.
use compose_monitor.Base.{ℕ, Bool, ◌*◌, ◌+◌, ◌-◌, ◌==◌, nat_eq, ◌&&◌, leb, if◌then◌else◌, suc}
use compose_monitor.Base.Int.{ℤ, pos, negsuc, pos_part, neg_part}

abbrev pub Time : Type 0
Time = ℤ

abbrev pub zero_time : Time
zero_time = pos 0

-- `Time.IsZero`
unfoldable pub is_zero_time : Time → Bool
is_zero_time t = pos_part t == 0 && neg_part t == 0

-- From the zero time to the Unix epoch, in seconds.
abbrev epoch : ℕ
epoch = 62_135_596_800

-- `time.Unix(seconds, 0)`
unfoldable pub unix_time : ℤ → Time
unix_time (pos n) = pos ((epoch + n) * 1_000_000_000)
unix_time (negsuc n) =
    if leb (suc n) epoch
    then pos ((epoch - suc n) * 1_000_000_000)
    else negsuc ((suc n - epoch) * 1_000_000_000 - 1)
