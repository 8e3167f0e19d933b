-- ===== src/Chart/Sample.antt =====
-- A page and charts for the tests: ten minutes of data, once a second, on the screen of a page that
-- has the focus.
use lmiced.Prelude.{true, false, none, some}
use lmiced.Prelude.Int.{pos, negsuc}
use lmiced.Chart.{auto, Library, Chart, Env, unforced}
use lmiced.Chart.Window.{PanAndZoom}
use lmiced.Chart.Fetch.{Reply}

abbrev pub page : Env
page = record {
  now = 700250;
  scroll_y = 100;
  inner_height = 600;
  last_page_scroll = 5;
  last_page_resize = 3;
  destroy_on_hide = false;
  pan_and_zoom_delay = 50;
  pan_and_zoom_data_padding = true;
  sync_pan_and_zoom = true;
  global_pan_sync_time = 5000;
  sync_selection = true;
  sync_selection_delay = 1500;
  page_is_visible = true;
  parallel_refresher = true;
  concurrent_refreshes = true;
  retries_limit = 2;
  error_shown = true;
}

abbrev pub drawing : Library
drawing = record {
  initialized = true;
  enabled = true;
  autoresize = true;
  set_selection = some (λ t. true);
  clear_selection = some true;
  has_update = true;
  max_updates_to_recreate = 5000;
  pixels_per_point = 2;
}

abbrev pub chart : Chart
chart = record {
  enabled = true;
  late_initialized = true;
  running = false;
  paused = false;
  selected = false;
  chart_created = true;
  dom_created = true;
  fetching_data = false;
  has_data = true;
  updates_counter = 4;
  updates_since_last_unhide = 4;
  updates_since_last_creation = 4;
  retries_on_data_failures = 0;
  current = auto;
  auto_mode = unforced;
  pan_mode = unforced;
  zoom_mode = unforced;
  tm = record {
    last_initialized = 2;
    last_dom_created = 2;
    last_mode_switch = 2;
    last_info_downloaded = 2;
    last_updated = 699100;
    pan_and_zoom_seq = 0;
    last_visible_check = 2;
    last_resized = 4;
    last_hidden = 0;
    last_unhidden = 0;
    last_autorefreshed = 699000;
  };
  tmp = record { hidden = false; visible = none };
  range = record {
    data_after = pos 100000;
    data_before = pos 700000;
    data_update_every = 1000;
    data_points = 600;
    view_after = pos 100000;
    view_before = pos 700000;
    netdata_first = pos 0;
    netdata_last = pos 700000;
    requested_after = none;
    requested_before = none;
    requested_padding = none;
    fixed_min_duration = none;
  };
  library = drawing;
  rect = record { top = pos 150; width = 900; height = 200 };
  after = negsuc 599;
  before = pos 0;
  chart_update_every = some 1;
  width = 900;
}

-- The same chart below the screen.
abbrev pub below : Chart
below = record chart { rect = record { top = pos 900; width = 900; height = 200 } }

abbrev pub no_pan : PanAndZoom
no_pan = record { seq = 0; master = none; force_before = none; force_after = none }

-- The chart 0 shows 300.2 s to 400.7 s.
abbrev pub panned : PanAndZoom
panned = record {
  seq = 690000;
  master = some 0;
  force_before = some (pos 801400);
  force_after = some (pos 600400);
}

-- The data of 150 s to 700 s, every other second
abbrev pub reply : Reply
reply = record {
  view_update_every = 2;
  after = pos 150;
  before = pos 700;
  first_entry = pos 0;
  last_entry = pos 700;
  points = 275;
}
