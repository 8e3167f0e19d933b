-- ===== src/Chart.antt =====
-- The state of one chart, `chartState` (portal/dashboard.js), and what its methods read of
-- `NETDATA.options`, the clock and the screen. Times are in milliseconds; the clock stands still
-- within one handler. What the drawing libraries and the DOM do is not state of the model.
pub mod Life
pub mod Window
pub mod Pan
pub mod Fetch
pub mod Refresh
pub mod Sample
pub mod Tests
use lmiced.Prelude.{ℕ, Bool, true, false, Option, none, some}
use lmiced.Prelude.Int.{ℤ, pos}

-- `auto`, `pan` and `zoom` are the three objects that `current` points to.
pub data Mode : Type 0 where
  auto pan zoom : Mode

-- The fields that change of one of the three objects. The forced times are in half-milliseconds:
-- `updateChartPanOrZoom` halves a difference of whole milliseconds.
pub record Forced : Type 0 where
  pub force_update_at : ℕ
  pub force_before : Option ℤ
  pub force_after : Option ℤ

-- `that.tm`
pub record Tm : Type 0 where
  pub last_initialized : ℕ
  pub last_dom_created : ℕ
  pub last_mode_switch : ℕ
  pub last_info_downloaded : ℕ
  pub last_updated : ℕ
  pub pan_and_zoom_seq : ℕ
  pub last_visible_check : ℕ
  pub last_resized : ℕ
  pub last_hidden : ℕ
  pub last_unhidden : ℕ
  pub last_autorefreshed : ℕ

-- `that.tmp`: `___chartIsHidden___` is defined; the value of `___isVisible___`.
pub record Tmp : Type 0 where
  pub hidden : Bool
  pub visible : Option Bool

-- The time ranges: what was downloaded, what is shown, what was asked for.
pub record Range : Type 0 where
  pub data_after : ℤ
  pub data_before : ℤ
  pub data_update_every : ℕ
  pub data_points : ℕ
  pub view_after : ℤ
  pub view_before : ℤ
  pub netdata_first : ℤ
  pub netdata_last : ℤ
  pub requested_after : Option ℤ
  pub requested_before : Option ℤ
  pub requested_padding : Option ℤ
  pub fixed_min_duration : Option ℤ

-- What the state reads of its `library`: `setSelection` and `clearSelection` are optional there.
pub record Library : Type 0 where
  pub initialized : Bool
  pub enabled : Bool
  pub autoresize : Bool
  pub set_selection : Option (ℤ → Bool)
  pub clear_selection : Option Bool
  pub has_update : Bool
  pub max_updates_to_recreate : ℕ
  pub pixels_per_point : ℕ

-- `element.getBoundingClientRect()`
pub record Rect : Type 0 where
  pub top : ℤ
  pub width : ℕ
  pub height : ℕ

pub record Chart : Type 0 where
  pub enabled : Bool
  pub late_initialized : Bool  -- `typeof host !== 'undefined'`
  pub running : Bool
  pub paused : Bool
  pub selected : Bool
  pub chart_created : Bool
  pub dom_created : Bool
  pub fetching_data : Bool
  pub has_data : Bool  -- `data !== null`
  pub updates_counter : ℕ
  pub updates_since_last_unhide : ℕ
  pub updates_since_last_creation : ℕ
  pub retries_on_data_failures : ℕ
  pub current : Mode
  pub auto_mode : Forced
  pub pan_mode : Forced
  pub zoom_mode : Forced
  pub tm : Tm
  pub tmp : Tmp
  pub range : Range
  pub library : Library
  pub rect : Rect
  pub after : ℤ  -- the user's range, in seconds
  pub before : ℤ
  pub chart_update_every : Option ℕ  -- `chart.update_every`, `none` while `chart === null`
  pub width : ℕ  -- `chartWidth()`

-- What a handler reads besides the chart: the clock, the page and the options.
pub record Env : Type 0 where
  pub now : ℕ
  pub scroll_y : ℕ
  pub inner_height : ℕ
  pub last_page_scroll : ℕ
  pub last_page_resize : ℕ
  pub destroy_on_hide : Bool
  pub pan_and_zoom_delay : ℕ
  pub pan_and_zoom_data_padding : Bool
  pub sync_pan_and_zoom : Bool
  pub global_pan_sync_time : ℕ
  pub sync_selection : Bool
  pub sync_selection_delay : ℕ
  pub page_is_visible : Bool
  pub parallel_refresher : Bool
  pub concurrent_refreshes : Bool
  pub retries_limit : ℕ  -- the option `retries_on_data_failures`
  pub error_shown : Bool  -- the answer of `netdataErrorCallback`, true where there is none

abbrev pub unforced : Forced
unforced = record { force_update_at = 0; force_before = none; force_after = none }

abbrev pub forced : Chart → Forced
forced c = elim c.current [ auto ↦ c.auto_mode | pan ↦ c.pan_mode | zoom ↦ c.zoom_mode ]

-- A write through the pointer `current`.
abbrev pub set_forced : Forced → Chart → Chart
set_forced f c = elim c.current [
  | auto ↦ record c { auto_mode = f }
  | pan ↦ record c { pan_mode = f }
  | zoom ↦ record c { zoom_mode = f }
]
