-- ===== src/Legend/Shown.antt =====
-- What a chart's legend shows after any calls of its operations (portal/dashboard.js, `legendShowLatestValues` and the
-- callbacks that show the values under the mouse).
use lmiced.Prelude.{
  ◌≡◌, refl, sym, ◌∙◌, ◌≢◌, ap, not, ◌||◌, List, [], ◌∷◌, Option, none, some, is_some, leb,
  Bool-cases, Option-cases, inl, inr,
}
use lmiced.Prelude.Int.{ℤ, pos, ◌-ℤ◌, abs, eqb_ℤ, eqb_ℤ_iff}
use lmiced.Prelude.Dict.{Dict}
use lmiced.Descriptions.{Text}
use lmiced.Legend.{
  Series, DateLast, Legend, Locale, Latest, blank, set_values, set_string, undefine, on_series,
  show_undefined, keep_date, set_date, LegendView, show_latest_values,
}
use lmiced.Legend.Cached.{
  SeenLegend, see, see_rows, put_titles, put_rows, AllRows, IsTitle, set_string-IsTitle,
  set_string-seen, rows-AllRows, rows-seen,
}
use lmiced.Legend.Acts.{
  LegendAct, undefines, dates, values, latest, legend_act, legend_acts, put_undefined, put_date,
  put_latest, put_act, put_acts,
}

-- The texts of the last time are those of its time, unless it is the first moment of 1970.
abbrev pub IsDate : Locale → DateLast → Type 0
IsDate o k = k.ms ≢ pos 0 → (k.date ≡ some (o.date_text k.ms)) × (k.time ≡ some (o.time_text k.ms))

-- Every cache holds what is shown.
pub record IsCached (o : Locale) (l : Legend) : Type 0 where
  pub date : IsTitle l.title_date
  pub time : IsTitle l.title_time
  pub units : IsTitle l.title_units
  pub rows : AllRows l.series
  pub kept : IsDate o l.date_last

-- What an operation owes: the caches stay right, it shows `r`, and the name and the units stay.
record Owes (o : Locale) (l m : Legend) (r : SeenLegend) : Type 0 where
  cached : IsCached o m
  seen : see m ≡ r
  name : m.name ≡ l.name
  units : m.units ≡ l.units

same_seen :
    {a b : SeenLegend}
    → a.date ≡ b.date
    → a.time ≡ b.time
    → a.units ≡ b.units
    → a.rows ≡ b.rows
    → a ≡ b
same_seen d t u r = cc (d, t, u, r)

-- The legend with these titles
set_titles : (date time units : Text) → Legend → Legend
set_titles date time units l = record l {
  title_date = set_string (some date) l.title_date;
  title_time = set_string (some time) l.title_time;
  title_units = set_string (some units) l.title_units;
}

titles-Owes :
    (o : Locale) (date time units : Text) (l : Legend)
    → IsCached o l
    → Owes o l (set_titles date time units l) (put_titles date time units (see l))
unfolding see put_titles set_titles
titles-Owes o date time units l h = record {
  cached = record {
    date = set_string-IsTitle (some date) l.title_date h.date;
    time = set_string-IsTitle (some time) l.title_time h.time;
    units = set_string-IsTitle (some units) l.title_units h.units;
    rows = h.rows;
    kept = h.kept;
  };
  seen =
      same_seen (set_string-seen date l.title_date h.date)
        (set_string-seen time l.title_time h.time) (set_string-seen units l.title_units h.units)
        refl;
  name = refl;
  units = refl;
}

values-Owes :
    (o : Locale) (v : Latest) (l : Legend)
    → IsCached o l
    → Owes o l (record l { series = on_series (set_values o v) l.series }) (put_rows o v (see l))
unfolding see put_rows
values-Owes o v l h = record {
  cached = record {
    date = h.date;
    time = h.time;
    units = h.units;
    rows = rows-AllRows o v l.series h.rows;
    kept = h.kept;
  };
  seen = same_seen refl refl refl (rows-seen o v l.series h.rows);
  name = refl;
  units = refl;
}

-- One operation after another
both-Owes :
    (o : Locale) (l m n : Legend) (v : Latest) (r : SeenLegend)
    → Owes o l m r
    → Owes o m n (put_rows o v (see m))
    → Owes o l n (put_rows o v r)
both-Owes o l m n v r a b = record {
  cached = b.cached;
  seen = b.seen ∙ ap (put_rows o v) a.seen;
  name = b.name ∙ a.name;
  units = b.units ∙ a.units;
}

undefined-Owes :
    (o : Locale) (known : Option Latest) (l : Legend)
    → IsCached o l
    → Owes o l (show_undefined o known l) (put_undefined o l.name known (see l))
unfolding show_undefined put_undefined set_titles
undefined-Owes o none l h = titles-Owes o blank l.name blank l h
undefined-Owes o (some v) l h =
    let a = titles-Owes o blank l.name blank l h in
    both-Owes o l (set_titles blank l.name blank l) _ (undefine v) _ a
      (values-Owes o (undefine v) (set_titles blank l.name blank l) a.cached)

keep_date-IsDate :
    (o : Locale) (ms : ℤ) (k : DateLast)
    → ms ≢ pos 0
    → IsDate o k
    → ((keep_date o ms k).date ≡ some (o.date_text ms))
      × (((keep_date o ms k).time ≡ some (o.time_text ms)) × IsDate o (keep_date o ms k))
unfolding keep_date
keep_date-IsDate o ms k n h = elim (Bool-cases (eqb_ℤ k.ms ms)) [
  | inl e ↦
      let q = (eqb_ℤ_iff k.ms ms).0 e in
      let (a, b) = h (λ z. n (sym q ∙ z)) in
      rw (e, keep_date)
        (a ∙ ap (λ x. some (o.date_text x)) q, (b ∙ ap (λ x. some (o.time_text x)) q, h))
  | inr e ↦ rw (e, keep_date) (refl, (refl, λ m. (refl, refl)))
]

date-Owes :
    (o : Locale) (known : Option Latest) (ms : ℤ) (l : Legend)
    → ms ≢ pos 0
    → IsCached o l
    → Owes o l (set_date o known (some ms) l) (put_date o l.units ms (see l))
unfolding set_date put_date set_titles see
date-Owes o known ms l n h =
    let k = keep_date o ms l.date_last in
    let (a, (b, c)) = keep_date-IsDate o ms l.date_last n h.kept in
    let m : Legend = record l { date_last = k } in
    let i : IsCached o m = record {
      date = h.date;
      time = h.time;
      units = h.units;
      rows = h.rows;
      kept = c;
    } in
    let t = titles-Owes o (o.date_text ms) (o.time_text ms) l.units m i in
    simp (a, b) record { cached = t.cached; seen = t.seen; name = refl; units = refl }

is_some-rows : (r : Option (Dict Text Series)) → is_some (see_rows r) ≡ is_some r
is_some-rows none = refl
is_some-rows (some d) = refl

latest-Owes :
    (o : Locale) (v : LegendView) (l : Legend)
    → v.view_before ≢ pos 0
    → IsCached o l
    → Owes o l (show_latest_values o v l) (put_latest o l.name l.units v (see l))
unfolding show_latest_values put_latest see
latest-Owes o v l n h = elim (Bool-cases (not v.has_chart || v.selected)) [
  | inl e ↦
      rw (e, show_latest_values, put_latest)
        record { cached = h; seen = refl; name = refl; units = refl }
  | inr e ↦ elim (Option-cases v.latest) [
    | inl k ↦ rw (e, k, show_latest_values, put_latest) (undefined-Owes o none l h)
    | inr (d, k) ↦
        let r = is_some-rows l.series in
        let u = undefined-Owes o (some d) l h in
        let late = leb (abs (v.netdata_last -ℤ v.view_before)) v.data_update_every in
        elim (Bool-cases (is_some l.series)) [
          | inr p ↦ rw (e, k, show_latest_values, put_latest, r, p) u
          | inl p ↦ elim (Bool-cases late) [
            | inr q ↦ rw (e, k, show_latest_values, put_latest, r, p, q) u
            | inl q ↦
                let a = date-Owes o (some d) v.view_before l n h in
                let m = set_date o (some d) (some v.view_before) l in
                rw (e, k, show_latest_values, put_latest, r, p, q)
                  (both-Owes o l m _ d _ a (values-Owes o d m a.cached))
          ]
        ]
  ]
]

act-Owes :
    (o : Locale) (a : LegendAct) (l : Legend)
    → IsCached o l
    → Owes o l (legend_act o a l) (put_act o l.name l.units a (see l))
unfolding legend_act put_act
act-Owes o (undefines known) l h = undefined-Owes o known l h
act-Owes o (dates ms n) l h = date-Owes o none ms l n h
act-Owes o (values v) l h = values-Owes o v l h
act-Owes o (latest v n) l h = latest-Owes o v l n h

-- From a legend whose caches are right, as they are where its elements are new, any calls of its operations show what
-- they show without a cache, and leave the caches right.
pub legend_acts-see :
    (o : Locale) (acts : List LegendAct) (l : Legend)
    → IsCached o l
    → (see (legend_acts o acts l) ≡ put_acts o l.name l.units acts (see l))
      × IsCached o (legend_acts o acts l)
unfolding legend_acts put_acts
legend_acts-see o [] l h = (refl, h)
legend_acts-see o (a ∷ acts) l h =
    let w = act-Owes o a l h in
    let (p, q) = legend_acts-see o acts (legend_act o a l) w.cached in
    (p ∙ rw (w.seen, w.name, w.units) refl, q)
