-- ===== src/Extremes/Tests.antt =====
-- The shared extremes at concrete charts.
use lmiced.Prelude.{◌≡◌, refl, some}
use lmiced.Prelude.Int.{ℤ, pos, negsuc}
use lmiced.Prelude.Dict.{lookup, insert, nat_identity}
use lmiced.Extremes.{Common, empty, bucket, get, common_min, common_max, min_order}
use lmiced.Extremes.Invariant.{IsValid, Updates, empty-IsValid, get-Updates}

-- Two charts share the name 1; then the first one's minimum rises above the second's.
abbrev shared : Common ℤ
shared = (common_min (some 1) 11 (pos 9) (common_min (some 1) 10 (negsuc 4) empty).1).1

shared_min : (common_min (some 1) 10 (pos 12) shared).0 ≡ some (pos 9)
unfolding common_min lookup insert bucket
shared_min = refl

shared_max :
    (common_max (some 1) 10 (pos 12) (common_max (some 1) 11 (pos 40) empty).1).0 ≡ some (pos 40)
unfolding common_max lookup insert bucket
shared_max = refl

abbrev first : Common ℤ
first = (get min_order (some 1) 10 (negsuc 4) empty).1

abbrev second : Common ℤ
second = (get min_order (some 1) 11 (pos 9) first).1

second-IsValid : IsValid min_order second
second-IsValid =
    let w = (get-Updates min_order 1 10 (negsuc 4) empty (empty-IsValid min_order)).3 in
    (get-Updates min_order 1 11 (pos 9) first w).3

-- The first chart's minimum rises above the second's.
get-Updates_example :
    Updates min_order 1
      (insert 10 (pos 12) (bucket 1 second))
      (get min_order (some 1) 10 (pos 12) second)
      second
get-Updates_example = get-Updates min_order 1 10 (pos 12) second second-IsValid
