-- ===== src/Old/Tests.antt =====
-- The older dashboard with two charts, one of which is due, and with a main chart that is resized too early.
use lmiced.Prelude.{◌+◌, ◌≡◌, refl, true, false, [], ◌∷◌, none, some}
use lmiced.Old.{
  OldChart, thumbs, main, render_chart_callback, thumb_charts_refresh_next, timeout, request,
  OldPage, is_main, can_chart_be_refreshed, render_chart, render_enabled, round_robin_from,
  round_robin, refresh_thumbs, is_thumbs,
}
use lmiced.Old.Callback.{
  callback, callback_scrolled, callback_resumed, callback_loop, callback_resize, resize_throws,
  resize_charts, cleanup_charts, cleanup_chart, resize_chart, resized, is_group_thumbs, resume,
  play_graphs, disable_chart, mark_chart, shown_charts, count_enabled,
}
use lmiced.Old.Runs.{stays, goes_on, plays, ThreadRun-threads, resume_throws, left}
use lmiced.Old.Points.{
  Drawing, line_chart, calculate_points_to_show, points_of, even_group, line_width_of,
}
use lmiced.Old.Thread.{threads, one_if}

abbrev due_chart : OldChart
due_chart = record {
  enabled = true;
  disable_please = false;
  selected = false;
  in_view = true;
  last_updated = 0;
  group = 1;
  update_every = 1;
  drawn = false;
  refresh_count = 0;
  grouping = 2;
}

abbrev page : OldPage
page = record {
  page_is_visible = true;
  resize_request = false;
  last_user_scroll = 0;
  paused = false;
  mode = thumbs;
  last_refresh = 0;
  main_chart = none;
  hidden_updated = 0;
  hidden_group = 1;
  hidden_grouping = 1;
  hidden_shown = false;
  hidden_count = 0;
  all_charts = record due_chart { last_updated = 5000 } ∷ due_chart ∷ [];
  group_charts = none;
  last_thumb_updated = 1;
  last_group_updated = 0;
  refresh_loop = 50;
  scroll_idle = 50;
  pending = timeout thumb_charts_refresh_next 50 ∷ [];
}

-- The timeout asks for the second chart, since the first is not due.
asks_for_second :
    refresh_thumbs 5500 (left page [])
    ≡ record page { last_thumb_updated = 1; pending = request render_chart_callback ∷ [] }
unfolding refresh_thumbs is_thumbs round_robin round_robin_from render_enabled render_chart
    can_chart_be_refreshed
asks_for_second = refl

ThreadRun-threads_example :
    threads (play_graphs 70000 (refresh_thumbs 5500 (left page []))) + (0 + 0) ≡ 1 + (0 + 0)
unfolding refresh_thumbs is_thumbs round_robin round_robin_from render_enabled render_chart
    can_chart_be_refreshed resume resume_throws one_if
ThreadRun-threads_example =
    ThreadRun-threads page _
      (plays 70000 (goes_on 5500 (timeout thumb_charts_refresh_next 50) [] [] stays refl))

-- A resize while the main chart has no hidden chart yet leaves no timeout: the thread is lost.
abbrev too_early : OldPage
too_early = record page { mode = main; main_chart = some due_chart; resize_request = true }

loses_thread : threads (callback 5500 (left too_early [])) ≡ 0
unfolding callback callback_resize resize_throws resize_charts cleanup_charts is_main
    is_group_thumbs
loses_thread = refl

-- Two charts that are closed before the next callback are both gone.
closes_all : count_enabled ((callback 5500 (disable_chart 0 (disable_chart 1 page))).all_charts) ≡ 0
unfolding callback callback_resize callback_scrolled callback_resumed callback_loop resize_throws
    resize_charts cleanup_charts cleanup_chart resize_chart resized is_group_thumbs disable_chart
    mark_chart shown_charts count_enabled is_main
closes_all = refl

-- An hour of seconds on 600 pixels: four seconds a point, drawn thinly.
abbrev hour : Drawing
hour = record {
  entries = 3600;
  update_every = 1;
  width = 600;
  chart_type = line_chart;
  group = 0;
  points_to_show = 0;
  line_width = 0;
  curved = false;
  gridlines = 0;
}

draws_hour :
    calculate_points_to_show 1 0 0 true hour
    ≡ record hour { group = 10; points_to_show = 360; line_width = 1; gridlines = 10 }
unfolding calculate_points_to_show points_of even_group line_width_of
draws_hour = refl
