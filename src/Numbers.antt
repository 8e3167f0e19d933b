-- ===== src/Numbers.antt =====
-- The formats of numbers (portal/dashboard.js): `NETDATA.fastNumberFormat`, and the decimals that a
-- chart's legend shows, `legendFormatValueDecimalsFromMinMax` and `legendFormatValue`. Values are
-- counted in ten-millionths, the last digit that a legend shows.
pub mod Cached
pub mod Shown
pub mod Resolution
mod Tests
use lmiced.Prelude.{
  ℕ, ◌<◌, Bool, true, false, ◌&&◌, ◌||◌, Option, none, some, nat_beq, ltb, if◌then◌else◌,
}
use lmiced.Prelude.Int.{ℤ, ◌-ℤ◌, eqb_ℤ, abs}
use lmiced.Prelude.Dict.{Dict, nat_identity, lookup, insert}

-- What the browser formats: numbers of the type `V` as texts of the type `T`. `intl` and `locale` take
-- the least and the largest number of decimals, `to_fixed` takes the number of decimals.
pub record Browser (V T : Type 0) : Type 0 where
  pub intl : ℕ → ℕ → V → T
  pub locale : ℕ → ℕ → V → T
  pub to_fixed : ℕ → V → T
  pub is_zero : V → Bool
  pub zero_text : T
  pub intl_works : Bool  -- `new Intl.NumberFormat(...)` shows 1.12345 with two decimals.

-- `getIntlNumberFormat`, `getLocaleString`, `getFixed`
pub data Maker : Type 0 where
  intl_format locale_string fixed : Maker

pub record Formats (V T : Type 0) : Type 0 where
  pub chosen : Option Maker  -- what `this.get` was set to, `none` at first
  pub formatters_fixed : Dict ℕ (V → T)
  pub formatters_zero_based : Dict ℕ (V → T)

-- `testLocaleString()`: `value` is not defined, the error is caught and the text is empty.
abbrev pub test_locale_string : Bool
test_locale_string = false

module _ {V T : Type 0} where
  unfoldable pub make : Browser V T → Maker → ℕ → ℕ → V → T
  make b intl_format least most = b.intl least most
  make b locale_string least most = b.locale least most
  make b fixed least most = λ v. if b.is_zero v then b.zero_text else b.to_fixed most v

  -- One of the three functions. They share the two tables.
  unfoldable pub get_made : Browser V T → Maker → ℕ → ℕ → Formats V T → (V → T) × Formats V T
  get_made b k least most s =
      if nat_beq least most
      then elim (lookup most s.formatters_fixed) [
        | some f ↦ (f, s)
        | none ↦
            let f = make b k least most in
            (f, record s { formatters_fixed = insert most f s.formatters_fixed })
      ]
      else if nat_beq least 0
      then elim (lookup most s.formatters_zero_based) [
        | some f ↦ (f, s)
        | none ↦
            let f = make b k least most in
            (f, record s { formatters_zero_based = insert most f s.formatters_zero_based })
      ]
      else (make b k least most, s)

  unfoldable pub choose : Browser V T → Maker
  choose b =
      if b.intl_works then intl_format else if test_locale_string then locale_string else fixed

  -- `NETDATA.fastNumberFormat.get(min, max)`: the first call decides which function it is.
  unfoldable pub get : Browser V T → ℕ → ℕ → Formats V T → (V → T) × Formats V T
  unfolding choose
  get b least most s = elim s.chosen [
    | some k ↦ get_made b k least most s
    | none ↦ get_made b (choose b) least most (record s { chosen = some (choose b) })
  ]

-- The thresholds, for a difference or a value without its sign: 1000, 10, 1, 0.1, 0.01, 0.001 and 0.0001.
unfoldable pub decimals_of : ℕ → ℕ
decimals_of delta =
    if ltb 10_000_000_000 delta
    then 0
    else if ltb 100_000_000 delta
    then 1
    else if ltb 10_000_000 delta
    then 2
    else if ltb 1_000_000 delta
    then 2
    else if ltb 100_000 delta
    then 4
    else if ltb 10_000 delta
    then 5
    else if ltb 1_000 delta
    then 6
    else 7

-- The private variables of the chart's legend: the last range, the decimals and `__intlNumberFormat`.
pub record Decimals (V T : Type 0) : Type 0 where
  pub last : Option (ℤ × ℤ)
  pub decimals : Option ℕ  -- `none` for -1
  pub format : Option (V → T)

-- What the legend reads of the chart: `data !== null && data.min === data.max`, and
-- `value_decimal_detail`, `none` for -1; a number below -1 is no number of decimals.
pub record Detail : Type 0 where
  pub constant : Bool
  pub decimal_detail : Option ℕ

unfoldable pub decide_decimals : Detail → ℤ → ℤ → Option ℕ
decide_decimals x min max = if x.constant then none else elim x.decimal_detail [
  | some n ↦ some n
  | none ↦ some (decimals_of (if eqb_ℤ min max then abs min else abs (max -ℤ min)))
]

-- `dmin` and `dmax` for a value of this magnitude
abbrev pub value_decimals : Option ℕ → ℕ → ℕ × ℕ
value_decimals (some n) m = (n, n)
value_decimals none m = (0, decimals_of m)

same_range : Option (ℤ × ℤ) → ℤ → ℤ → Bool
same_range none min max = false
same_range (some (a, b)) min max = eqb_ℤ min a && eqb_ℤ max b

same_decimals : Option ℕ → Option ℕ → Bool
same_decimals none none = true
same_decimals (some m) (some n) = nat_beq m n
same_decimals _ _ = false

module _ {V T : Type 0} where
  -- `if(__legendFormatValueChartDecimals !== old)`
  choose_format : Browser V T → Option ℕ → Decimals V T → Formats V T → Decimals V T × Formats V T
  choose_format b old d s = if same_decimals d.decimals old then (d, s) else elim d.decimals [
    | none ↦ (record d { format = none }, s)
    | some n ↦ let (f, t) = get b n n s in (record d { format = some f }, t)
  ]

  -- `legendFormatValueDecimalsFromMinMax(min, max)`
  unfoldable pub decimals_from_min_max :
      Browser V T → Detail → ℤ → ℤ → Decimals V T × Formats V T → Decimals V T × Formats V T
  unfolding same_range choose_format same_decimals
  decimals_from_min_max b x min max (d, s) =
      if same_range d.last min max
      then (d, s)
      else choose_format b d.decimals
          (record d { last = some (min, max); decimals = decide_decimals x min max }) s

  -- `legendFormatValue(value)`, `none` for what is not a number; `magnitude` is the value without its sign.
  unfoldable pub format_value :
      Browser V T
      → (dash : T) → Detail
      → (V → ℕ)
      → Option V
      → Decimals V T × Formats V T
      → T × Formats V T
  format_value b dash x magnitude none (d, s) = (dash, s)
  format_value b dash x magnitude (some v) (d, s) = elim d.format [
    | some f ↦ (f v, s)
    | none ↦
        let (least, most) = value_decimals x.decimal_detail (magnitude v) in
        let (f, t) = get b least most s in (f v, t)
  ]
