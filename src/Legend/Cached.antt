-- ===== src/Legend/Cached.antt =====
-- The caches of the legend's texts are transparent (portal/dashboard.js, `last_shown_value`,
-- `__last_shown_legend_date`, `legendSetDateLast`).
use lmiced.Prelude.{
  ◌≡◌, refl, sym, ◌∙◌, ap, true, not, ◌&&◌, [], ◌∷◌, Option, none, some, is_some, arith, Bool-cases,
  inl, inr,
}
use lmiced.Prelude.Dict.{Dict, ◌===◌}
use lmiced.Descriptions.{Text, text_identity, same_text_iff}
use lmiced.Legend.{
  Series, Title, Legend, Locale, Latest, write, is_cached, set_series, change, set_label_value,
  set_values, set_string, on_series,
}

-- What a reader of the page sees of a series and of a legend
abbrev pub Seen : Type 0
Seen = Text × Option Text

pub record SeenLegend : Type 0 where
  pub date : Option Text
  pub time : Option Text
  pub units : Option Text
  pub rows : Option (Dict Text Seen)

unfoldable pub see_series : Series → Seen
see_series x = (x.value, x.user)

unfoldable pub see_all : Dict Text Series → Dict Text Seen
see_all [] = []
see_all ((j, x) ∷ d) = (j, see_series x) ∷ see_all d

abbrev pub see_rows : Option (Dict Text Series) → Option (Dict Text Seen)
see_rows none = none
see_rows (some d) = some (see_all d)

unfoldable pub see : Legend → SeenLegend
see l = record {
  date = l.title_date.text;
  time = l.title_time.text;
  units = l.title_units.text;
  rows = see_rows l.series;
}

-- The same operations without a cache: each writes its text.
unfoldable pub put_series : Text → Seen → Seen
put_series s (v, u) = (s, write s u)

unfoldable pub put_values : Locale → Latest → Dict Text Seen → Dict Text Seen
put_values o [] d = d
put_values o ((label, value) ∷ more) d =
    change (put_series (o.format_value value)) label (put_values o more d)

abbrev pub on_rows :
    (Dict Text Seen → Dict Text Seen) → Option (Dict Text Seen) → Option (Dict Text Seen)
on_rows f none = none
on_rows f (some d) = some (f d)

unfoldable pub put_titles : (date time units : Text) → SeenLegend → SeenLegend
put_titles date time units r = record r {
  date = write date r.date;
  time = write time r.time;
  units = write units r.units;
}

unfoldable pub put_rows : Locale → Latest → SeenLegend → SeenLegend
put_rows o d r = record r { rows = on_rows (put_values o d) r.rows }

-- A text that is cached is the one in the elements.
abbrev pub IsSeries : Series → Type 0
IsSeries x = (s : Text) → x.last_shown_value ≡ some s → (x.value ≡ s) × (x.user ≡ write s x.user)

abbrev pub AllSeries : Dict Text Series → Type 0
AllSeries [] = Unit {0}
AllSeries ((j, x) ∷ d) = IsSeries x × AllSeries d

abbrev pub AllRows : Option (Dict Text Series) → Type 0
AllRows none = Unit {0}
AllRows (some d) = AllSeries d

abbrev pub IsTitle : Title → Type 0
IsTitle t = (s : Text) → t.last ≡ some s → t.text ≡ write s t.text

write-write : (s t : Text) (u : Option Text) → write s (write t u) ≡ write s u
write-write s t none = refl
write-write s t (some u) = refl

is_cached-some : (s : Text) (o : Option Text) → is_cached s o ≡ true → o ≡ some s
unfolding is_cached
is_cached-some s none h = absurd (cc)
is_cached-some s (some t) h = ap some (sym ((same_text_iff s t).0 h))

some-some : {s t : Text} → some s ≡ some t → s ≡ t
some-some h = ground (arith, h)

set_series-IsSeries : (s : Text) (x : Series) → IsSeries x → IsSeries (set_series s x)
unfolding set_series
set_series-IsSeries s x h = elim (Bool-cases (is_cached s x.last_shown_value)) [
  | inl e ↦ rw (e, set_series) h
  | inr e ↦
      rw (e, set_series) (λ t k. let q = some-some k in (q, rw q (sym (write-write t t x.user))))
]

set_series-seen :
    (s : Text) (x : Series) → IsSeries x → see_series (set_series s x) ≡ put_series s (see_series x)
unfolding set_series see_series put_series
set_series-seen s x h = elim (Bool-cases (is_cached s x.last_shown_value)) [
  | inl e ↦
      let (a, b) = h s (is_cached-some s x.last_shown_value e) in
      rw (e, set_series) (ap (λ v. (v, x.user)) a ∙ ap (λ u. (s, u)) b)
  | inr e ↦ rw (e, set_series) refl
]

pub set_string-IsTitle : (o : Option Text) (t : Title) → IsTitle t → IsTitle (set_string o t)
unfolding set_string
set_string-IsTitle none t h = elim (Bool-cases (is_some t.text && is_some t.last)) [
  | inl e ↦ rw (e, set_string) (λ s k. absurd (cc))
  | inr e ↦ rw (e, set_string) h
]
set_string-IsTitle (some s) t h = elim (Bool-cases (is_some t.text && not (is_cached s t.last))) [
  | inl e ↦ rw (e, set_string) (λ u k. let q = some-some k in rw q (sym (write-write u u t.text)))
  | inr e ↦ rw (e, set_string) h
]

pub set_string-seen :
    (s : Text) (t : Title) → IsTitle t → (set_string (some s) t).text ≡ write s t.text
unfolding set_string
set_string-seen s t h = elim (Bool-cases (is_cached s t.last)) [
  | inl e ↦ let k = h s (is_cached-some s t.last e) in simp (e, set_string) (ground (arith, k))
  | inr e ↦ ground (arith, e)
]

-- Of every series
change-AllSeries :
    (s label : Text) (d : Dict Text Series)
    → AllSeries d
    → AllSeries (change (set_series s) label d)
unfolding change
change-AllSeries s label [] h = tt
change-AllSeries s label ((j, x) ∷ d) (a, b) = elim (Bool-cases (j === label)) [
  | inl e ↦ rw e (set_series-IsSeries s x a, b)
  | inr e ↦ rw e (a, change-AllSeries s label d b)
]

change-seen :
    (s label : Text) (d : Dict Text Series)
    → AllSeries d
    → see_all (change (set_series s) label d) ≡ change (put_series s) label (see_all d)
unfolding change see_all
change-seen s label [] h = refl
change-seen s label ((j, x) ∷ d) (a, b) = elim (Bool-cases (j === label)) [
  | inl e ↦ rw e (ap (λ y. (j, y) ∷ see_all d) (set_series-seen s x a))
  | inr e ↦ rw e (ap (λ y. (j, see_series x) ∷ y) (change-seen s label d b))
]

set_values-AllSeries :
    (o : Locale) (v : Latest) (d : Dict Text Series) → AllSeries d → AllSeries (set_values o v d)
unfolding set_values set_label_value
set_values-AllSeries o [] d h = h
set_values-AllSeries o ((label, value) ∷ v) d h =
    change-AllSeries (o.format_value value) label (set_values o v d) (set_values-AllSeries o v d h)

set_values-seen :
    (o : Locale) (v : Latest) (d : Dict Text Series)
    → AllSeries d
    → see_all (set_values o v d) ≡ put_values o v (see_all d)
unfolding set_values set_label_value put_values
set_values-seen o [] d h = refl
set_values-seen o ((label, value) ∷ v) d h =
    change-seen (o.format_value value) label (set_values o v d) (set_values-AllSeries o v d h)
    ∙ ap (change (put_series (o.format_value value)) label) (set_values-seen o v d h)

pub rows-AllRows :
    (o : Locale) (v : Latest) (r : Option (Dict Text Series))
    → AllRows r
    → AllRows (on_series (set_values o v) r)
rows-AllRows o v none h = tt
rows-AllRows o v (some d) h = set_values-AllSeries o v d h

pub rows-seen :
    (o : Locale) (v : Latest) (r : Option (Dict Text Series))
    → AllRows r
    → see_rows (on_series (set_values o v) r) ≡ on_rows (put_values o v) (see_rows r)
rows-seen o v none h = refl
rows-seen o v (some d) h = ap some (set_values-seen o v d h)
