-- ===== src/Numbers/Resolution.antt =====
-- How fine the decimals of a legend are (portal/dashboard.js, the thresholds of
-- `legendFormatValueDecimalsFromMinMax`).
use lmiced.Prelude.{ℕ, zero, suc, ◌*◌, ◌≤◌, ◌<◌, arith}
use lmiced.Numbers.{decimals_of}

-- `10 ^ n` for the numbers of decimals that occur
abbrev pub power : ℕ → ℕ
power zero = 1
power (suc n) = 10 * power n

-- The last decimal that is shown for a range of `delta` ten-millionths: there are at most seven decimals. A
-- range above 0.0001 spans more than ten steps of the last decimal, one of at most 1000 spans at most
-- ten thousand, and a larger range has no more decimals.
pub decimals_of_resolution :
    (delta wider : ℕ)
    → delta ≤ wider
    → (decimals_of delta ≤ 7)
      × ((1_000 < delta → 10 * 10_000_000 < delta * power (decimals_of delta))
          × ((delta ≤ 10_000_000_000 → delta * power (decimals_of delta) ≤ 10_000 * 10_000_000)
              × (decimals_of wider ≤ decimals_of delta)))
unfolding decimals_of
decimals_of_resolution delta wider h = ground arith
