-- ===== src/Lib.antt =====
-- The dashboard of the portal (portal/dashboard.js): charts that refresh themselves from the data of
-- a server, while the user pans, zooms, hovers, scrolls and resizes.
--
-- The program's parts. `chartState` is one chart: its life (created, hidden, shown, resized), the
-- range of time that it shows, and its refreshes. The charts of a page (`NETDATA.options.targets`)
-- share `NETDATA.globalPanAndZoom`, the range that all charts follow while one of them is panned or
-- zoomed, `NETDATA.globalSelectionSync`, the point of time that all charts mark while the mouse is
-- over one of them, and `NETDATA.commonMin` and `NETDATA.commonMax`, the scale that charts of one
-- name have in common. A chart's legend selects the dimensions that it shows. `NETDATA.alarms` raises
-- notifications from the server's log of alarms, beside the charts.
--
-- Which file models which part:
--   Prelude: Booleans, lists, integers and dictionaries, with their rulesets.
--   Extremes: `NETDATA.commonMin.get` and `NETDATA.commonMax.get`, one function over an order.
--   Chart: the records of one chart (`Chart`) and of what its methods read (`Env`).
--   Chart/Life: `runtimeInit`, `setMode`, `init`, `createDOM`, `hideChart`, `unhideChart`,
--     `resizeChart`, `isVisible`, `canBeRendered`.
--   Chart/Window: `timeIsVisible`, `calculateRowForTime`, `chartURL` and the tests of
--     `NETDATA.globalPanAndZoom`.
--   Chart/Pan: `updateChartPanOrZoom` on one chart.
--   Chart/Fetch: `updateChart`, its `done`, `fail` and `always`, `updateChartWithData`.
--   Chart/Refresh: `canBeAutoRefreshed`, `autoRefresh`.
--   Sync: the charts of a page with their shared state (`Dashboard`).
--   Sync/Selection: `globalSelectionSync` and the methods that it calls.
--   Sync/Master: `setMaster`, `clearMaster`, `resetChart`, `resetAllCharts`.
--   Sync/Requests: the requests under way, and what may happen on a page as a relation of steps.
--   Sync/Refresher: one iteration of `chartRefresher`, with `pause` and `unpause`.
--   Sync/Round: `chartRefresherNoParallel` with its timers and callbacks.
--   Sync/Dygraph: `dygraphToolboxPanAndZoom`, and the callbacks and the interaction model in
--     `dygraphChartCreate`; in Sync/Dygraph/Hand what each gesture means to the chart under the hand, on its own.
--   Sync/Elements: `parseDom` and `chartState`.
--   Dimensions: `dimensionStatus` and `dimensionsVisibility`, with the legend's `onclick`.
--   Alarms: `notify`, `notifyAll`, `check_notifications`, and the ends of the requests of `get` and
--     `update_forever`.
--   Options: `localStorageGet`, `localStorageSet`, `localStorageGetRecursive`, `setOption`, `getOption`,
--     `resetOptions`, and the options as the page loads them, over any keys, values and encoding of values.
--   Registry: `NETDATA.registry.parsePersonUrls`.
--   Registry/Access: `NETDATA.registry.hello`, `access`, `delete`, `search`, `switch` and `init`.
--   Descriptions: `NETDATA.chartRegistry` and `NETDATA.fixHost`, over texts as lists of codes.
--   Descriptions/Ask: `getChart` and `__defaultsFromDownloadedChart`, once and as often as it fails unshown.
--   Numbers: `NETDATA.fastNumberFormat` and the legend's `legendFormatValueDecimalsFromMinMax` and
--     `legendFormatValue`.
--   Colors: `chartPrepareColorPalette`, `__chartDimensionColor`, `chartCustomColors`, `chartColors`, and
--     the colours in `legendUpdateDOM`.
--   Gauges: `gaugeSet` and `easypiechartPercentFromValueMinMax`; in Gauges/Events the selection of a
--     gauge, its timer and its updates; in Gauges/Pies those of a pie.
--   Scroll: `NETDATA.onresize`, `NETDATA.onscroll`, `NETDATA.onscroll_updater`, and the focus of the window
--     in `NETDATA.start`.
--   Legend: `legendSetLabelValue`, `legendSetDate`, `legendShowUndefined`, `legendShowLatestValues`, over any
--     formats of numbers, dates and times; in Legend/Acts their calls in any order.
--   Scripts: `NETDATA.loadRequiredJs`.
--   Old: the refresh thread of portal/old/index.js, from `triggerRefresh` to `groupChartsRefreshNext`, with
--     `canChartBeRefreshed` and `renderChart` of portal/old/netdata.js; in Old/Callback `renderChartCallback`,
--     `playGraphs`, `pauseGraphs`, `checkRefreshThread`, `cleanupCharts`, `resizeCharts` and `disableChart`; in Old/Points
--     `calculateChartPointsToShow`; in Old/Views the switches of the view and the presentations.
-- The files below these hold the proofs; `Tests` of a part runs it at concrete states.
--
-- State and operations. A method that changes `this` is a function from `Chart` to `Chart`, with its
-- answer beside it; one that changes the shared state is a function on `Dashboard`. A chart is named
-- by its place in the list of charts, which stands for the reference that the code keeps. The three
-- objects `auto`, `pan` and `zoom` are fields, and `current` names one of them. A function that is
-- passed to a request is a function of its own, to be applied when the request ends.
--
-- Bounds. Times are integers of milliseconds; those that `updateChartPanOrZoom` halves are counted in
-- half-milliseconds. `Math.round` rounds halves up, also below zero, and `%` has the sign of its
-- left side. Integers are unbounded: the code's numbers are exact for every time that occurs. The values of a
-- legend are counted in ten-millionths, those of a gauge in a unit that is an argument; a percentage that
-- is not rounded is a fraction. The
-- mutual calls of `isVisible` and `init` are closed after two rounds: the second check meets a chart that
-- is neither hidden nor created, and calls no further. `clearMaster` forgets the master before it resets
-- its chart, so that one round closes the two. `selected2BooleanArray` takes the number of its calls as
-- fuel: after `selectAll` an enabled dimension is counted, so a second call is the last one.
--
-- Not modelled: the DOM and the messages; the drawing libraries (what they answer
-- is an argument: `set_selection`, `clear_selection`, `drawn`, the ranges that dygraph computes, with
-- `zoomRange`, which computes with fractions); the text of the URLs with the number of points; the
-- transport of the requests; `loadCharts`, the menus and the sizes of the older dashboard; and the vendored libraries in portal/lib and portal/dygraphs.
pub mod Prelude
pub mod Extremes
pub mod Chart
pub mod Sync
pub mod Dimensions
pub mod Alarms
pub mod Options
pub mod Registry
pub mod Descriptions
pub mod Colors
pub mod Gauges
pub mod Legend
pub mod Numbers
pub mod Old
pub mod Scripts
pub mod Scroll
