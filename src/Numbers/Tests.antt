-- ===== src/Numbers/Tests.antt =====
-- The legend of a chart whose values lie between 3 and 40, on a browser that writes a value as the pair of
-- the numbers of decimals.
use lmiced.Prelude.{ℕ, ◌*◌, ◌≤◌, ◌<◌, ◌≡◌, refl, true, false, none, some, [], arith, nat_beq}
use lmiced.Prelude.Int.{pos, ◌-ℤ◌, abs}
use lmiced.Prelude.Dict.{lookup}
use lmiced.Numbers.{
  Browser, Formats, make, choose, get, decimals_of, Decimals, Detail, decide_decimals,
  decimals_from_min_max, format_value,
}
use lmiced.Numbers.Cached.{IsKept, get-make}
use lmiced.Numbers.Shown.{IsShown, text_with, format_value-text_with}
use lmiced.Numbers.Resolution.{power, decimals_of_resolution}

abbrev browser : Browser ℕ (ℕ × ℕ)
browser = record {
  intl = λ least most v. (least, most);
  locale = λ least most v. (least, most);
  to_fixed = λ most v. (most, most);
  is_zero = λ v. nat_beq v 0;
  zero_text = (0, 0);
  intl_works = true;
}

abbrev unused : Formats ℕ (ℕ × ℕ)
unused = record { chosen = none; formatters_fixed = []; formatters_zero_based = [] }

abbrev untold : Decimals ℕ (ℕ × ℕ)
untold = record { last = none; decimals = none; format = none }

abbrev plain : Detail
plain = record { constant = false; decimal_detail = none }

abbrev number : ℕ → ℕ
number v = v

unused-IsKept : IsKept browser unused
unfolding lookup
unused-IsKept = record {
  chosen = λ k h. absurd (grind arith);
  fixed_kept = λ n f h. absurd (grind arith);
  zero_based_kept = λ n f h. absurd (grind arith);
}

untold-IsShown : IsShown browser plain untold
untold-IsShown = record { formats = refl; decides = λ min max h. absurd (grind arith) }

get-make_example :
    ((get browser 0 2 unused).0 ≡ make browser (choose browser) 0 2)
    × IsKept browser (get browser 0 2 unused).1
get-make_example = get-make browser 0 2 unused unused-IsKept

abbrev told : Decimals ℕ (ℕ × ℕ) × Formats ℕ (ℕ × ℕ)
told = decimals_from_min_max browser plain (pos 30_000_000) (pos 400_000_000) (untold, unused)

format_value-text_with_example :
    ((format_value browser (9, 9) plain number (some 50_000_000) told).0
      ≡ text_with browser plain
          (decide_decimals plain (pos 30_000_000) (pos 400_000_000))
          number
          50_000_000)
    × IsShown browser plain told.0
    × IsKept browser (format_value browser (9, 9) plain number (some 50_000_000) told).1
format_value-text_with_example =
    format_value-text_with browser plain (9, 9) number 50_000_000 (pos 30_000_000) (pos 400_000_000)
      untold unused untold-IsShown unused-IsKept

-- A range of 37 has one decimal.
one_decimal : decide_decimals plain (pos 30_000_000) (pos 400_000_000) ≡ some 1
unfolding decide_decimals ◌-ℤ◌ decimals_of abs
one_decimal = refl

-- A range of 37
resolves :
    (decimals_of 370_000_000 ≤ 7)
    × ((1_000 < 370_000_000 → 10 * 10_000_000 < 370_000_000 * power (decimals_of 370_000_000))
        × ((370_000_000 ≤ 10_000_000_000
              → 370_000_000 * power (decimals_of 370_000_000) ≤ 10_000 * 10_000_000)
            × (decimals_of 990_000_000 ≤ decimals_of 370_000_000)))
resolves = decimals_of_resolution 370_000_000 990_000_000 (omega arith)
