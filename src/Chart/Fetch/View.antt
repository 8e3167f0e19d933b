-- ===== src/Chart/Fetch/View.antt =====
-- The range shown and the time of the refresh after a reply (portal/dashboard.js,
-- `updateChartWithData`).
use lmiced.Prelude.{
  ◌+◌, ◌-◌, ◌%◌, ◌*◌, ◌/◌, ◌≤◌, ◌<◌, ◌≡◌, sym, ap, subst, ◌∙◌, true, false, ◌&&◌, none, arith,
}
use native.Mathlib.Nat.{mod-lt, div-add-mod}
use lmiced.Prelude.Int.{◌≤ℤ◌}
use lmiced.Chart.{Chart, Env}
use lmiced.Chart.Window.{PanAndZoom, is_active}
use lmiced.Chart.Fetch.{Reply, store_reply, stamp_update}

-- A reply leaves a shown range that begins no earlier and ends no later than its data; where no
-- padded request was made it is the range of the data itself.
pub store_reply-view :
    (e : Env) (r : Reply) (c : Chart)
    → let d = store_reply e r c in
      (d.range.data_after ≤ℤ d.range.view_after)
      × (d.range.view_before ≤ℤ d.range.data_before)
      × (c.range.requested_padding ≡ none
          → (d.range.view_after ≡ d.range.data_after) × (d.range.view_before ≡ d.range.data_before))
unfolding store_reply
store_reply-view e r c = ground arith

stamp_update-parallel :
    (e : Env) (p : PanAndZoom) (c : Chart)
    → (e.parallel_refresher && e.concurrent_refreshes) ≡ true
    → is_active p ≡ false
    → (stamp_update e p c).tm.last_autorefreshed
      ≡ c.range.data_update_every * (e.now / c.range.data_update_every)
unfolding stamp_update
stamp_update-parallel e p c h a =
    let floor : e.now - e.now % c.range.data_update_every
        ≡ c.range.data_update_every * (e.now / c.range.data_update_every) =
      omega (arith, div-add-mod e.now c.range.data_update_every) in
    simp (a, h) floor

-- When charts are refreshed in parallel and no pan or zoom is in force, a refresh is dated back to the
-- last multiple of the chart's `data_update_every`. So two charts of one `data_update_every` that are
-- refreshed within one such period are due again at the same time.
pub stamp_update-aligned :
    (e e' : Env) (p : PanAndZoom) (c c' : Chart)
    → let every = c.range.data_update_every in
      let last = (stamp_update e p c).tm.last_autorefreshed in
      let last' = (stamp_update e' p c').tm.last_autorefreshed in
      (e.parallel_refresher && e.concurrent_refreshes) ≡ true
      → (e'.parallel_refresher && e'.concurrent_refreshes) ≡ true
      → is_active p ≡ false
      → 0 < every
      → c'.range.data_update_every ≡ every
      → e'.now / every ≡ e.now / every
      → (last ≤ e.now) × (e.now < last + every) × (last ≡ every * (e.now / every)) × (last' ≡ last)
stamp_update-aligned e e' p c c' h h' a pos_every same period =
    let every = c.range.data_update_every in
    let l = stamp_update-parallel e p c h a in
    let l' : (stamp_update e' p c').tm.last_autorefreshed ≡ every * (e'.now / every) =
      subst (λ k. (stamp_update e' p c').tm.last_autorefreshed ≡ k * (e'.now / k)) same
        (stamp_update-parallel e' p c' h' a) in
    let m = mod-lt e.now pos_every in
    let d = div-add-mod e.now every in
    (omega (arith, l, d), omega (arith, l, d, m), l, l' ∙ ap (λ k. every * k) period ∙ sym l)
