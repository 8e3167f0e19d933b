-- ===== src/Chart/Window.antt =====
-- The range that a chart shows (portal/dashboard.js): `timeIsVisible`, `calculateRowForTime`,
-- `chartURL`, with `NETDATA.globalPanAndZoom`'s own state.
pub mod Url
use lmiced.Prelude.{
  ℕ, ◌+◌, ◌*◌, Bool, true, false, not, ◌&&◌, ◌||◌, Option, none, some, leb, nat_beq, is_some,
  if◌then◌else◌,
}
use lmiced.Prelude.Int.{ℤ, pos, ◌+ℤ◌, ◌-ℤ◌, ltb_ℤ, leb_ℤ, scale, floor_div, round_div, rem, abs}
use lmiced.Chart.{Mode, auto, pan, zoom, Forced, Tm, Range, Chart, Env, forced, set_forced}
use lmiced.Chart.Life.{set_mode}

-- `NETDATA.globalPanAndZoom`; a chart is named by its place in `NETDATA.options.targets`.
pub record PanAndZoom : Type 0 where
  pub seq : ℕ
  pub master : Option ℕ
  pub force_before : Option ℤ  -- in half-milliseconds, as in `Forced`
  pub force_after : Option ℤ

unfoldable pub is_master : ℕ → PanAndZoom → Bool
is_master i p = elim p.master [ none ↦ false | some m ↦ nat_beq m i ]

unfoldable pub is_active : PanAndZoom → Bool
is_active p =
    is_some p.master && is_some p.force_before && is_some p.force_after && not (nat_beq p.seq 0)

unfoldable pub should_be_auto_refreshed : PanAndZoom → Chart → Bool
should_be_auto_refreshed p c =
    if not (is_some p.master) || nat_beq p.seq 0
    then false
    else not (nat_beq c.tm.pan_and_zoom_seq p.seq)

pub time_is_visible : ℤ → Chart → Bool
time_is_visible t c = leb_ℤ c.range.data_after t && leb_ℤ t c.range.data_before

-- `none` is the code's -1.
unfoldable pub calculate_row_for_time : ℤ → Chart → Option ℤ
unfolding time_is_visible
calculate_row_for_time t c =
    if not (time_is_visible t c)
    then none
    else some (floor_div (t -ℤ c.range.data_after) c.range.data_update_every)

-- The part of a data URL that depends on the range: in seconds, 0 for a parameter left out.
pub record Query : Type 0 where
  pub query_after : ℤ
  pub query_before : ℤ
  pub points_multiplier : ℕ

-- Half-milliseconds to seconds, `Math.round(ms / 1000)`
abbrev pub seconds : ℤ → ℤ
seconds half_ms = round_div half_ms 2000

-- `view_after`, `view_before` and `requested_padding` (milliseconds) from seconds
abbrev viewing : ℤ → ℤ → Option ℤ → Chart → Chart
viewing after before padding c = record c {
  range = record (c.range) {
    view_after = scale 1000 after;
    view_before = scale 1000 before;
    requested_padding = padding;
  };
}

abbrev with_seq : ℕ → Chart → Chart
with_seq n c = record c { tm = record (c.tm) { pan_and_zoom_seq = n } }

-- The last lines on the range: `requested_after` and `requested_before`
abbrev requesting : ℤ → ℤ → ℕ → Chart → Chart × Query
requesting after before multiplier c = (
  record c {
    range = record (c.range) {
      requested_after = some (scale 1000 after);
      requested_before = some (scale 1000 before);
    };
  },
  record { query_after = after; query_before = before; points_multiplier = multiplier },
)

-- The second branch: the chart's own forced range, which is used up.
url_forced : Env → ℤ → ℤ → Chart → Chart × Query
url_forced e force_after force_before c =
    let after = seconds force_after in
    let before = seconds force_before in
    let f = forced c in
    let d = set_forced (record f { force_before = none; force_after = none }) (with_seq 0 c) in
    if e.pan_and_zoom_data_padding
    then (let padding = round_div (before -ℤ after) 2 in
        requesting (after -ℤ padding) (before +ℤ padding) 2
          (viewing after before (some (scale 1000 padding)) d))
    else requesting after before 1 (viewing after before d.range.requested_padding d)

url_default : Chart → Chart × Query
url_default c = requesting c.after c.before 1 (viewing c.after c.before none (with_seq 0 c))

url_own : Env → Chart → Chart × Query
unfolding url_forced url_default
url_own e c = elim (forced c).force_before [
  | none ↦ url_default c
  | some before ↦ elim (forced c).force_after [
    | none ↦ url_default c
    | some after ↦ url_forced e after before c
  ]
]

url_synced : ℕ → ℤ → ℤ → Chart → Chart × Query
url_synced seq force_after force_before c =
    requesting (seconds force_after) (seconds force_before) 1
      (viewing (seconds force_after) (seconds force_before) none (with_seq seq c))

-- `chartURL()`: the chart, its number, and what it asks the server for.
pub chart_url : Env → PanAndZoom → ℕ → Chart → Chart × Query
unfolding url_own url_synced is_active is_master
chart_url e p i c =
    if is_active p && not (is_master i p)
    then (elim p.force_after [
      | none ↦ url_own e c
      | some after ↦ elim p.force_before [
        | none ↦ url_own e c
        | some before ↦ url_synced p.seq after before c
      ]
    ])
    else url_own e c
