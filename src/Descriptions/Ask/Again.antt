-- ===== src/Descriptions/Ask/Again.antt =====
-- Descriptions that are asked for again (portal/dashboard.js, `getChart` with `updateChart`).
use lmiced.Prelude.{ℕ, ◌≡◌, refl, ◌∙◌, Bool, true, false, List, [], ◌∷◌, map, All, ap, none, some}
use lmiced.Chart.{Chart, Env, pan}
use lmiced.Chart.Life.{on_screen}
use lmiced.Chart.Life.Visible.{stamped, can_be_rendered-shown}
use lmiced.Chart.Window.{PanAndZoom}
use lmiced.Chart.Fetch.{called_back, asked_chart, update_chart, show_error}
use lmiced.Descriptions.{Text, Charts, same_text_iff, fixid, add, get}
use lmiced.Descriptions.Get.{get-add}
use lmiced.Descriptions.Ask.{
  Description, take_description, get_chart, get_chart_done, get_chart_fail, ask_again, ask_all,
}

-- A chart that is waiting for its description: it can be drawn otherwise, and is not hidden.
pub record IsAsking (c : Chart) : Type 0 where
  pub undescribed : c.chart_update_every ≡ none
  pub enabled : c.enabled ≡ true
  pub idle : c.fetching_data ≡ false
  pub created : c.dom_created ≡ true
  pub unhidden : c.tmp.hidden ≡ false

stamped-IsAsking : (b : Bool) (e : Env) (c : Chart) → IsAsking c → IsAsking (stamped b e c)
stamped-IsAsking b e c h = record {
  undescribed = h.undescribed;
  enabled = h.enabled;
  idle = h.idle;
  created = h.created;
  unhidden = h.unhidden;
}

-- One failure that is not shown
ask_again-unshown :
    (e : Env) (p : PanAndZoom) (i : ℕ) (c : Chart)
    → IsAsking c
    → e.error_shown ≡ false
    → on_screen e c ≡ true
    → ask_again e p i c ≡ (stamped true e c, asked_chart)
unfolding ask_again get_chart_fail update_chart show_error
ask_again-unshown e p i c h b s = simp (
  b,
  h.idle,
  h.enabled,
  h.undescribed,
  h.created,
  update_chart,
  can_be_rendered-shown e c h.unhidden s,
)

-- One failure that is shown
ask_again-shown :
    (e : Env) (p : PanAndZoom) (i : ℕ) (c : Chart)
    → IsAsking c
    → e.error_shown ≡ true
    → ask_again e p i c ≡ (record c { enabled = false; current = pan }, called_back)
unfolding ask_again get_chart_fail update_chart show_error
ask_again-shown e p i c h b = simp (b, h.idle, update_chart)

-- A failure that is not shown, of a chart on the screen
abbrev pub IsUnshown : Chart → Env → Type 0
IsUnshown c e = (e.error_shown ≡ false) × (on_screen e c ≡ true)

stamped-IsUnshown :
    (b : Bool) (u : Env) (c : Chart) (es : List Env)
    → All (IsUnshown c) es
    → All (IsUnshown (stamped b u c)) es
unfolding on_screen
stamped-IsUnshown b u c [] a = tt
stamped-IsUnshown b u c (e ∷ es) (a, as') = (a, stamped-IsUnshown b u c es as')

-- Failures that are not shown leave the chart waiting, and each of them asks again.
ask_all-unshown :
    (p : PanAndZoom) (i : ℕ) (es : List Env) (c : Chart)
    → IsAsking c
    → All (IsUnshown c) es
    → ((ask_all p i es c).0 ≡ map (λ e. asked_chart) es) × IsAsking (ask_all p i es c).1
unfolding ask_all
ask_all-unshown p i [] c h a = (refl, h)
ask_all-unshown p i (e ∷ es) c h ((b, t), a) =
    let (q, r) =
      ask_all-unshown p i es (stamped true e c) (stamped-IsAsking true e c h)
        (stamped-IsUnshown true e c es a) in
    rw (ask_all, ask_again-unshown e p i c h b t) (ap (λ s. asked_chart ∷ s) q, r)

-- A chart on the screen whose description cannot be downloaded asks for it again at once after each failure,
-- however many there are, and stays enabled as long as errors are not shown. A failure that is shown
-- disables it and asks no more; any later call of `updateChart` leaves it as it is and calls back.
pub ask_all-ends :
    (p : PanAndZoom) (i : ℕ) (es : List Env) (e u : Env) (c : Chart)
    → IsAsking c
    → All (IsUnshown c) es
    → e.error_shown ≡ true
    → let (answers, d) = ask_all p i es c in
      let (f, answer) = ask_again e p i d in
      (answers ≡ map (λ e. asked_chart) es)
      × (d.enabled ≡ true)
      × (answer ≡ called_back)
      × (f.enabled ≡ false)
      × (update_chart u p i f ≡ (f, called_back))
unfolding update_chart
ask_all-ends p i es e u c h a b =
    let (q, r) = ask_all-unshown p i es c h a in
    rw (ask_again-shown e p i (ask_all p i es c).1 r b)
      (q, r.enabled, refl, refl, simp (r.idle, update_chart))

-- Once the description of a chart has been downloaded, every chart whose host and id have the same fixed
-- texts has it at once, without a download of its own.
pub get_chart-done :
    (e : Env) (host id host' id' : Text) (x : Description) (charts : Charts Description)
    (c c' : Chart)
    → fixid host ≡ fixid host'
    → fixid id ≡ fixid id'
    → get_chart e host' id' (get_chart_done e host id x (charts, c)).0 c'
      ≡ (take_description e x c', true)
unfolding get_chart_done get_chart
get_chart-done e host id host' id' x charts c c' h k =
    let g : get host' id' (add host id x charts) ≡ some x =
      get-add host id host' id' x charts
      ∙ rw
          (
            (same_text_iff (fixid host) (fixid host')).1 h,
            (same_text_iff (fixid id) (fixid id')).1 k,
          )
          refl in
    rw (g, get_chart) refl
