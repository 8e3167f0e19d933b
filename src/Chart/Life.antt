-- ===== src/Chart/Life.antt =====
-- The life of a chart (portal/dashboard.js): `runtimeInit`, `init`, the DOM's creation, hiding and
-- unhiding, the resize and `isVisible`.
pub mod Depth
pub mod Visible
use lmiced.Prelude.{
  ℕ, ◌<◌, Bool, true, false, not, ◌&&◌, ◌||◌, Option, none, some, ltb, nat_beq, if◌then◌else◌,
}
use lmiced.Prelude.Int.{ℤ, pos, ◌+ℤ◌, ltb_ℤ}
use lmiced.Chart.{Mode, auto, pan, zoom, Forced, Tm, Tmp, Range, Chart, Env, unforced, set_forced}

abbrev zero_tm : Tm
zero_tm = record {
  last_initialized = 0;
  last_dom_created = 0;
  last_mode_switch = 0;
  last_info_downloaded = 0;
  last_updated = 0;
  pan_and_zoom_seq = 0;
  last_visible_check = 0;
  last_resized = 0;
  last_hidden = 0;
  last_unhidden = 0;
  last_autorefreshed = 0;
}

abbrev fresh_tmp : Tmp
fresh_tmp = record { hidden = false; visible = none }

runtime_init : Chart → Chart
runtime_init c = record c {
  paused = false;
  selected = false;
  chart_created = false;
  dom_created = false;
  fetching_data = false;
  updates_counter = 0;
  updates_since_last_unhide = 0;
  updates_since_last_creation = 0;
  tm = zero_tm;
  has_data = false;
  range = record (c.range) {
    data_points = 0;
    data_after = pos 0;
    data_before = pos 0;
    data_update_every = 0;
  };
  tmp = fresh_tmp;
}

is_mode : Mode → Mode → Bool
is_mode auto auto = true
is_mode pan pan = true
is_mode zoom zoom = true
is_mode _ _ = false

-- `setMode(m)`: the object that is entered loses its forced range.
unfoldable pub set_mode : Env → Mode → Chart → Chart
unfolding is_mode
set_mode e m c =
    if is_mode c.current m
    then c
    else set_forced unforced
        (record c { current = m; tm = record (c.tm) { last_mode_switch = e.now } })

-- The part of `lateInitialization` that writes state which changes later; the user's attributes
-- are fields of the model from the start.
late_initialization : Chart → Chart
late_initialization c = if c.late_initialized then c else record c {
  late_initialized = true;
  range = record (c.range) {
    netdata_first = pos 0;
    netdata_last = pos 0;
    requested_after = none;
    requested_before = none;
    requested_padding = none;
    view_after = pos 0;
    view_before = pos 0;
  };
  retries_on_data_failures = 0;
  chart_update_every = none;
}

destroy_dom : Chart → Chart
destroy_dom c = if not c.enabled then c else record c {
  chart_created = false;
  dom_created = false;
  tm = record (c.tm) { last_resized = 0; last_dom_created = 0 };
}

pub create_dom : Env → Chart → Chart
unfolding destroy_dom late_initialization
create_dom e c =
    if not c.enabled
    then c
    else let d = destroy_dom (late_initialization c) in
      record d {
        dom_created = true;
        chart_created = false;
        tm = record (d.tm) { last_dom_created = e.now; last_resized = e.now };
      }

-- `__isVisible` from the rectangles on
unfoldable pub on_screen : Env → Chart → Bool
on_screen e c =
    let chart_top = c.rect.top +ℤ pos e.scroll_y in
    let chart_bottom = chart_top +ℤ pos c.rect.height in
    let screen_bottom = pos e.scroll_y +ℤ pos e.inner_height in
    not (
      nat_beq c.rect.width 0
      || nat_beq c.rect.height 0
      || ltb_ℤ chart_bottom (pos e.scroll_y)
      || ltb_ℤ screen_bottom chart_top)

pub needs_recreation : Env → Chart → Bool
needs_recreation e c =
    c.chart_created && not c.library.autoresize && ltb c.tm.last_resized e.last_page_resize

-- Is the answer of the last check still good?
cached : Bool → Env → Chart → Option Bool
cached nocache e c =
    if not nocache && ltb e.last_page_scroll c.tm.last_visible_check then c.tmp.visible else none

-- The answer is what `___isVisible___` holds at the end: hiding or unhiding may have replaced it.
answer : Chart → Bool × Chart
answer c = (elim c.tmp.visible [ none ↦ false | some b ↦ b ], c)

-- `init` up to `setMode('auto')`
start : Env → Chart → Chart
unfolding runtime_init set_mode
start e c =
    let r = runtime_init c in
    set_mode e auto (record r { tm = record (r.tm) { last_initialized = e.now } })

-- `isVisible`, `init`, `hideChart`, `unhideChart` and `resizeChart` call one another. Each is a
-- function of `f`, which stands for the call of `isVisible` (its `nocache` argument first).
module _ (f : Bool → Env → Chart → Bool × Chart) where
  -- `init(opt)`: `force` is `opt === 'force'`, `fast` is `opt === 'fast'`.
  init_with : (force fast : Bool) → Env → Chart → Chart
  init_with force fast e c =
      if not c.enabled
      then c
      else let s = start e c in
        if fast
        then s
        else let (shown, t) = f true e s in if shown || force then create_dom e t else t

  hide_with : Env → Chart → Chart
  hide_with e c =
      if c.tmp.hidden
      then c
      else let d =
          (if c.chart_created
            then if e.destroy_on_hide
              then init_with true false e c
              else record c { tm = record (c.tm) { last_hidden = e.now } }
            else c) in
        record d { tmp = record (d.tmp) { hidden = true } }

  -- `resizeChart()`
  resize_with : Env → Chart → Chart
  resize_with e c =
      let (shown, d) = f false e c in
      if shown && ltb d.tm.last_resized e.last_page_resize && d.chart_created
      then (let r = (if needs_recreation e d then init_with true false e d else d) in
          record r { tm = record (r.tm) { last_resized = e.now } })
      else d

  unhide_with : Env → Chart → Chart
  unhide_with e c =
      if not c.tmp.hidden
      then c
      else let d = record c {
        tmp = record (c.tmp) { hidden = false };
        updates_since_last_unhide = 0;
      } in
        if not d.chart_created
        then init_with true false e d
        else resize_with e (record d { tm = record (d.tm) { last_unhidden = e.now } })

  check_with : Env → Chart → Bool × Chart
  check_with e c =
      let shown = on_screen e c in
      let d = record c {
        tm = record (c.tm) { last_visible_check = e.now };
        tmp = record (c.tmp) { visible = some shown };
      } in
      answer (if shown then unhide_with e d else hide_with e d)

  pub is_visible_with : Bool → Env → Chart → Bool × Chart
  is_visible_with nocache e c = elim (cached nocache e c) [
    | some b ↦ (b, c)
    | none ↦ check_with e c
  ]

-- Stands for the innermost call.
abbrev unreached : Bool → Env → Chart → Bool × Chart
unreached nocache e c = (false, c)

unfoldable pub is_visible : Bool → Env → Chart → Bool × Chart
unfolding is_visible_with check_with unhide_with hide_with resize_with init_with start create_dom
    on_screen needs_recreation cached answer
is_visible = is_visible_with (is_visible_with unreached)

unfoldable pub init : (force fast : Bool) → Env → Chart → Chart
unfolding init_with is_visible
init = init_with is_visible

unfoldable pub resize_chart : Env → Chart → Chart
unfolding resize_with is_visible
resize_chart = resize_with is_visible

-- `canBeRendered()`
unfoldable pub can_be_rendered : Env → Chart → Bool × Chart
unfolding is_visible
can_be_rendered e c = if c.tmp.hidden then (false, c) else is_visible true e c
