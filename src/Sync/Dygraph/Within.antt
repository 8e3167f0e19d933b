-- ===== src/Sync/Dygraph/Within.antt =====
-- The range that the wheel asks for (portal/dashboard.js, `interactionModel.wheel`).
use lmiced.Prelude.{◌≡◌}
use lmiced.Prelude.Int.{ℤ, pos, ◌+ℤ◌, ◌-ℤ◌, ◌≤ℤ◌, scale, int_laws}
use lmiced.Chart.{Chart}
use lmiced.Sync.Dygraph.{cut_range, wheel_range}

cut_range-within :
    (first last after before : ℤ)
    → (let (a, b) = cut_range first last after before in
        (b ≤ℤ last)
        × (first ≤ℤ a)
        × (first ≤ℤ after → before -ℤ after ≤ℤ last -ℤ first → b -ℤ a ≡ before -ℤ after))
unfolding cut_range
cut_range-within first last after before = grind int_laws

-- The range that the wheel asks for begins no earlier than one update after the first data of the server and ends no
-- later than one update after the last. A range that does not begin too early and is not too wide keeps its
-- width.
pub wheel_range-IsWithin :
    (c : Chart) (after before : ℤ)
    → (let every = pos c.range.data_update_every in
        let first = scale 2 (c.range.netdata_first +ℤ every) in
        let last = scale 2 (c.range.netdata_last +ℤ every) in
        let (a, b) = wheel_range c after before in
        (b ≤ℤ last)
        × (first ≤ℤ a)
        × (first ≤ℤ after → before -ℤ after ≤ℤ last -ℤ first → b -ℤ a ≡ before -ℤ after))
unfolding wheel_range
wheel_range-IsWithin c after before =
    let every = pos c.range.data_update_every in
    cut_range-within (scale 2 (c.range.netdata_first +ℤ every))
      (scale 2 (c.range.netdata_last +ℤ every)) after before
