-- ===== src/Legend.antt =====
-- The texts of a chart's legend and their caches (portal/dashboard.js): `legendSetLabelValue`, `legendSetDate`,
-- `legendShowUndefined`, `legendShowLatestValues`.
pub mod Cached
pub mod Acts
pub mod Shown
mod Tests
use lmiced.Prelude.{
  ℕ, Bool, true, false, not, ◌&&◌, ◌||◌, List, [], ◌∷◌, Option, none, some, is_some, leb,
  if◌then◌else◌,
}
use lmiced.Prelude.Int.{ℤ, pos, ◌-ℤ◌, abs, eqb_ℤ}
use lmiced.Prelude.Dict.{Dict, ◌===◌, lookup}
use lmiced.Descriptions.{Text, text_identity}

-- `series[label]`: the `innerText` of its `value`, which is always there, and of its `user` where there is one
pub record Series : Type 0 where
  pub value : Text
  pub user : Option Text
  pub last_shown_value : Option Text

-- `title_date` and the like: its `innerText`, `none` without the element, and `this.tmp.__last_shown_legend_date`
pub record Title : Type 0 where
  pub text : Option Text
  pub last : Option Text

-- `legendSetDateLast`
pub record DateLast : Type 0 where
  pub ms : ℤ
  pub date : Option Text
  pub time : Option Text

pub record Legend : Type 0 where
  pub name : Text  -- `this.chart.name`
  pub units : Text
  pub title_date : Title
  pub title_time : Title
  pub title_units : Title
  pub date_last : DateLast
  pub series : Option (Dict Text Series)

-- The texts of the browser's locale and of `legendFormatValue`
pub record Locale : Type 0 where
  pub date_text : ℤ → Text
  pub time_text : ℤ → Text
  pub format_value : Option ℤ → Text

-- What the legend shows of the data: each dimension's name with its value in `view_latest_values`
abbrev pub Latest : Type 0
Latest = List (Text × Option ℤ)

-- What an assignment leaves in an element, if there is one
abbrev pub write : Text → Option Text → Option Text
write s none = none
write s (some _) = some s

-- The text "undefined", a blank
abbrev pub undefined_text : Text
undefined_text = 117 ∷ 110 ∷ 100 ∷ 101 ∷ 102 ∷ 105 ∷ 110 ∷ 101 ∷ 100 ∷ []

abbrev pub blank : Text
blank = 32 ∷ []

-- `s === last`, where `last` may be null or undefined
unfoldable pub is_cached : Text → Option Text → Bool
is_cached s none = false
is_cached s (some t) = s === t

-- What `legendSetLabelValue` does to the series of its label, with the formatted value
unfoldable pub set_series : Text → Series → Series
set_series s x =
    if is_cached s x.last_shown_value
    then x
    else record { value = s; user = write s x.user; last_shown_value = some s }

-- `series[label]` changed, if it is there
unfoldable pub change {ℓ} : {V : Type ℓ} → (V → V) → Text → Dict Text V → Dict Text V
change f k [] = []
change f k ((j, x) ∷ d) = if j === k then (j, f x) ∷ d else (j, x) ∷ change f k d

-- `legendSetLabelValue(label, value)`
unfoldable pub set_label_value : Locale → Text → Option ℤ → Dict Text Series → Dict Text Series
set_label_value o label value d = change (set_series (o.format_value value)) label d

-- The loop over the labels, from the last one on
unfoldable pub set_values : Locale → Latest → Dict Text Series → Dict Text Series
set_values o [] d = d
set_values o ((label, value) ∷ more) d = set_label_value o label value (set_values o more d)

-- `__legendSetDateString(date)`, and those of the time and the units, under the test that the element is there
unfoldable pub set_string : Option Text → Title → Title
set_string none t =
    if is_some t.text && is_some t.last
    then record { text = write undefined_text t.text; last = none }
    else t
set_string (some s) t =
    if is_some t.text && not (is_cached s t.last)
    then record { text = write s t.text; last = some s }
    else t

unfoldable pub undefine : Latest → Latest
undefine [] = []
undefine ((label, _) ∷ more) = (label, none) ∷ undefine more

abbrev pub on_series :
    (Dict Text Series → Dict Text Series) → Option (Dict Text Series) → Option (Dict Text Series)
on_series f none = none
on_series f (some d) = some (f d)

-- `legendShowUndefined()`, where there is data or none
unfoldable pub show_undefined : Locale → Option Latest → Legend → Legend
show_undefined o known l = record l {
  title_date = set_string (some blank) l.title_date;
  title_time = set_string (some l.name) l.title_time;
  title_units = set_string (some blank) l.title_units;
  series = elim known [ none ↦ l.series | some v ↦ on_series (set_values o (undefine v)) l.series ];
}

-- What `legendSetDate` keeps of the last time
unfoldable pub keep_date : Locale → ℤ → DateLast → DateLast
keep_date o ms k =
    if eqb_ℤ k.ms ms
    then k
    else record { ms = ms; date = some (o.date_text ms); time = some (o.time_text ms) }

-- `legendSetDate(ms)`, `none` for what is no number
unfoldable pub set_date : Locale → Option Latest → Option ℤ → Legend → Legend
set_date o known none l = show_undefined o known l
set_date o known (some ms) l =
    let k = keep_date o ms l.date_last in
    record l {
      date_last = k;
      title_date = set_string k.date l.title_date;
      title_time = set_string k.time l.title_time;
      title_units = set_string (some l.units) l.title_units;
    }

-- What `legendShowLatestValues` reads of the chart
pub record LegendView : Type 0 where
  pub has_chart : Bool
  pub selected : Bool
  pub latest : Option Latest
  pub netdata_last : ℤ
  pub view_before : ℤ
  pub data_update_every : ℕ

-- `legendShowLatestValues()`
unfoldable pub show_latest_values : Locale → LegendView → Legend → Legend
show_latest_values o v l = if not v.has_chart || v.selected then l else elim v.latest [
  | none ↦ show_undefined o none l
  | some d ↦
      if not (is_some l.series)
        || not (leb (abs (v.netdata_last -ℤ v.view_before)) v.data_update_every)
      then show_undefined o (some d) l
      else let m = set_date o (some d) (some v.view_before) l in
        record m { series = on_series (set_values o d) m.series }
]
