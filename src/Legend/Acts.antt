-- ===== src/Legend/Acts.antt =====
-- The calls of the operations of a chart's legend (portal/dashboard.js, `legendShowLatestValues` and the callbacks
-- that show the values under the mouse), and the same without a cache.
use lmiced.Prelude.{
  ◌≢◌, not, ◌&&◌, ◌||◌, List, [], ◌∷◌, Option, none, some, is_some, leb, if◌then◌else◌,
}
use lmiced.Prelude.Int.{ℤ, pos, ◌-ℤ◌, abs}
use lmiced.Descriptions.{Text}
use lmiced.Legend.{
  Legend, Locale, Latest, blank, set_values, undefine, on_series, show_undefined, set_date,
  LegendView, show_latest_values,
}
use lmiced.Legend.Cached.{SeenLegend, put_titles, put_rows}

-- What happens to a legend: no time is the first moment of 1970, which `legendSetDateLast` begins with.
pub data LegendAct : Type 0 where
  undefines : (known : Option Latest) → LegendAct
  dates : (ms : ℤ) → ms ≢ pos 0 → LegendAct
  values : Latest → LegendAct
  latest : (v : LegendView) → v.view_before ≢ pos 0 → LegendAct

unfoldable pub legend_act : Locale → LegendAct → Legend → Legend
legend_act o (undefines known) l = show_undefined o known l
legend_act o (dates ms _) l = set_date o none (some ms) l
legend_act o (values v) l = record l { series = on_series (set_values o v) l.series }
legend_act o (latest v _) l = show_latest_values o v l

unfoldable pub legend_acts : Locale → List LegendAct → Legend → Legend
legend_acts o [] l = l
legend_acts o (a ∷ more) l = legend_acts o more (legend_act o a l)

-- The same, of a legend with this name and these units, without a cache
unfoldable pub put_undefined : Locale → (name : Text) → Option Latest → SeenLegend → SeenLegend
put_undefined o name known r =
    let q = put_titles blank name blank r in
    elim known [ none ↦ q | some v ↦ put_rows o (undefine v) q ]

unfoldable pub put_date : Locale → (units : Text) → ℤ → SeenLegend → SeenLegend
put_date o units ms r = put_titles (o.date_text ms) (o.time_text ms) units r

unfoldable pub put_latest : Locale → (name units : Text) → LegendView → SeenLegend → SeenLegend
put_latest o name units v r = if not v.has_chart || v.selected then r else elim v.latest [
  | none ↦ put_undefined o name none r
  | some d ↦
      if is_some r.rows && leb (abs (v.netdata_last -ℤ v.view_before)) v.data_update_every
      then put_rows o d (put_date o units v.view_before r)
      else put_undefined o name (some d) r
]

unfoldable pub put_act : Locale → (name units : Text) → LegendAct → SeenLegend → SeenLegend
put_act o name units (undefines known) r = put_undefined o name known r
put_act o name units (dates ms _) r = put_date o units ms r
put_act o name units (values v) r = put_rows o v r
put_act o name units (latest v _) r = put_latest o name units v r

unfoldable pub put_acts : Locale → (name units : Text) → List LegendAct → SeenLegend → SeenLegend
put_acts o name units [] r = r
put_acts o name units (a ∷ more) r = put_acts o name units more (put_act o name units a r)
