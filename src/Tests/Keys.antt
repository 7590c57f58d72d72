-- ===== src/Tests/Keys.antt =====
-- The theorems on the keys and labels of the pages, at concrete services and sizes.
use compose_monitor.Base.{ℕ, suc, ◌≡◌, ◌≤◌, ◌<◌, arith, some, bytes}
use compose_monitor.Base.Int.{pos}
use compose_monitor.Base.Order.{compare_text}
use compose_monitor.App.Snapshot.{compare_services}
use compose_monitor.Web.Keys.{sort_key}
use compose_monitor.Web.Sizes.{unit_letter, format_size, tenths}
use compose_monitor.Web.Keys.Sorting.{compare_text-sort_key}
use compose_monitor.Web.Sizes.Units.{power, shown, format_size_fits}
use compose_monitor.Tests.{web, worker}

compare_text-sort_key_example :
    compare_text (sort_key web) (sort_key worker) ≡ compare_services web worker
compare_text-sort_key_example =
    compare_text-sort_key web worker (omega arith) (omega arith) (ground arith) (ground arith)

format_size_fits_example :
    (e : ℕ) × (letter : ℕ) × (unit_letter e (bytes "KMGTPE") ≡ some letter)
    × (format_size (pos 1_500_000) ≡ some (shown (tenths 1_500_000 (power (suc e))) letter))
    × (power (suc e) ≤ 1_500_000)
    × (1_500_000 < power (suc (suc e)))
format_size_fits_example = format_size_fits 1_500_000 (omega arith) (omega arith)
