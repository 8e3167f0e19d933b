-- ===== src/Descriptions/Ask/Tests.antt =====
-- The charts `a:b` and `a_b` of a host, one description for both.
use lmiced.Prelude.{◌≡◌, refl, true, false, none, [], ◌∷◌}
use lmiced.Chart.{Chart, Env}
use lmiced.Chart.Life.{on_screen}
use lmiced.Chart.Fetch.{called_back, asked_chart, update_chart}
use lmiced.Chart.Sample.{page, chart, no_pan}
use lmiced.Prelude.Int.{◌+ℤ◌}
use lmiced.Descriptions.{Text, Charts, fixid}
use lmiced.Descriptions.Ask.{
  Description, take_description, get_chart, get_chart_done, ask_again, ask_all,
}
use lmiced.Descriptions.Ask.Again.{IsAsking, ask_all-ends, get_chart-done}

abbrev server : Text
server = 104 ∷ []

abbrev colon : Text
colon = 97 ∷ 58 ∷ 98 ∷ []

abbrev underscore : Text
underscore = 97 ∷ 95 ∷ 98 ∷ []

abbrev undescribed : Chart
undescribed = record chart { chart_update_every = none }

-- `netdataErrorCallback` answers false.
abbrev unshown : Env
unshown = record page { error_shown = false }

abbrev every_two : Description
every_two = record { update_every = 2 }

abbrev empty_registry : Charts Description
empty_registry = []

undescribed-on_screen : on_screen unshown undescribed ≡ true
unfolding on_screen ◌+ℤ◌
undescribed-on_screen = refl

undescribed-IsAsking : IsAsking undescribed
undescribed-IsAsking = record {
  undescribed = refl;
  enabled = refl;
  idle = refl;
  created = refl;
  unhidden = refl;
}

-- Two failures are not shown, the third is.
ask_all-ends_example :
    let (answers, d) = ask_all no_pan 0 (unshown ∷ unshown ∷ []) undescribed in
    let (f, answer) = ask_again page no_pan 0 d in
    (answers ≡ asked_chart ∷ asked_chart ∷ [])
    × (d.enabled ≡ true)
    × (answer ≡ called_back)
    × (f.enabled ≡ false)
    × (update_chart unshown no_pan 0 f ≡ (f, called_back))
ask_all-ends_example =
    ask_all-ends no_pan 0 (unshown ∷ unshown ∷ []) page unshown undescribed undescribed-IsAsking
      ((refl, undescribed-on_screen), ((refl, undescribed-on_screen), tt)) refl

same_fixed : fixid colon ≡ fixid underscore
unfolding fixid
same_fixed = refl

shared_download :
    get_chart page server underscore
      (get_chart_done page server colon every_two (empty_registry, undescribed)).0
      undescribed
    ≡ (take_description page every_two undescribed, true)
shared_download =
    get_chart-done page server colon server underscore every_two empty_registry undescribed
      undescribed refl same_fixed
