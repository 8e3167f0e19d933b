-- ===== src/Legend/Tests.antt =====
-- A legend of two dimensions that is shown the latest values, then a moment under the mouse.
use lmiced.Prelude.{◌+◌, List, ◌≡◌, refl, ◌≢◌, true, false, none, some, [], ◌∷◌, arith}
use lmiced.Prelude.Int.{pos, negsuc, ◌-ℤ◌, ◌+ℤ◌, abs}
use lmiced.Legend.{
  Legend, Locale, LegendView, Series, Title, set_series, is_cached, change, set_label_value,
  set_values, set_date, show_latest_values,
}
use lmiced.Legend.Acts.{LegendAct, undefines, dates, values, latest, legend_acts, put_acts}
use lmiced.Legend.Shown.{IsCached, legend_acts-see}
use lmiced.Legend.Cached.{see}

-- A number's text is its digit.
abbrev locale : Locale
locale = record {
  date_text = λ ms. 68 ∷ [];
  time_text = λ ms. 84 ∷ [];
  format_value = λ v. elim v [
    | none ↦ 45 ∷ []
    | some (pos n) ↦ (48 + n) ∷ []
    | some (negsuc n) ↦ 45 ∷ (49 + n) ∷ []
  ];
}

abbrev empty : Series
empty = record { value = []; user = none; last_shown_value = none }

abbrev title : Title
title = record { text = some []; last = none }

abbrev fresh : Legend
fresh = record {
  name = 99 ∷ [];
  units = 117 ∷ [];
  title_date = title;
  title_time = title;
  title_units = title;
  date_last = record { ms = pos 0; date = none; time = none };
  series = some ((97 ∷ [], empty) ∷ (98 ∷ [], empty) ∷ []);
}

abbrev at_end : LegendView
at_end = record {
  has_chart = true;
  selected = false;
  latest = some ((97 ∷ [], some (pos 3)) ∷ (98 ∷ [], none) ∷ []);
  netdata_last = pos 5000;
  view_before = pos 4000;
  data_update_every = 1000;
}

late : pos 4000 ≢ pos 0
late h = ground (arith, h)

earlier : pos 2000 ≢ pos 0
earlier h = ground (arith, h)

abbrev calls : List LegendAct
calls =
    latest at_end late
    ∷ dates (pos 2000) earlier
    ∷ values ((98 ∷ [], some (pos 7)) ∷ [])
    ∷ undefines none
    ∷ []

fresh-IsCached : IsCached locale fresh
fresh-IsCached = record {
  date = λ s h. absurd (cc);
  time = λ s h. absurd (cc);
  units = λ s h. absurd (cc);
  rows = ((λ s h. absurd (cc)), ((λ s h. absurd (cc)), tt));
  kept = λ h. absurd (h refl);
}

legend_acts-see_example :
    (see (legend_acts locale calls fresh) ≡ put_acts locale (99 ∷ []) (117 ∷ []) calls (see fresh))
    × IsCached locale (legend_acts locale calls fresh)
legend_acts-see_example = legend_acts-see locale calls fresh fresh-IsCached

shows_three :
    (show_latest_values locale at_end fresh).series
    ≡ some (
        (97 ∷ [], record { value = 51 ∷ []; user = none; last_shown_value = some (51 ∷ []) })
        ∷ (98 ∷ [], record { value = 45 ∷ []; user = none; last_shown_value = some (45 ∷ []) })
        ∷ [])
unfolding show_latest_values set_date set_values set_label_value change set_series is_cached ◌-ℤ◌
    ◌+ℤ◌ abs
shows_three = refl
