-- ===== src/Lib.antt =====
-- The web client of tableverse (web/src), a viewer of large tables: it cuts a table into tiles, keeps
-- the tiles that it has fetched in a cache of bounded size, and shows the view of a source that a list
-- of operations describes.
--
-- Files, by the parts of the program:
-- - Prelude, Prelude/*: numbers, lists, texts (lists of UTF-16 code units), the JavaScript Map and Set
--   (Dict: entries in insertion order), numbers printed in a radix (Radix).
-- - TileCache (web/src/lib/tile-cache.ts): class TileCache; get, set, delete, evict, has, clear, size.
--   An Arrow table enters as the byte lengths of its buffers, which is what the class reads of it.
-- - Viewport (web/src/lib/viewport.ts): tile sizes, visibleTiles, tileKey, cellAtPixel,
--   viewportCenterTile, scrollBounds. Lengths are natural numbers of a common unit; a zoom is a number
--   of millionths; scroll positions are not negative, as the client clamps them.
-- - ViewHash (web/src/lib/viewHash.ts): computeViewHash, with JSON.stringify as a parameter.
-- - ViewExpr (web/src/lib/viewExpr.ts): the types of views, predicateColumns, getAggAlias; Labels has
--   the labels of operations. The JavaScript numbers are a type parameter.
-- - AddPredicate (web/src/lib/addPredicate.ts): all its functions.
-- - ViewStore (web/src/stores/view.ts): the state and each action of the store, as functions from
--   state to state. Actions calls AddPredicate and ViewHash as the store does. Numbers that the store
--   uses as indices are natural numbers. Columns has the views of columns, Columns/Sorted and
--   Columns/Moved their order.
-- - TableStore (web/src/stores/table.ts): the tiles of the grid with their byte count, and each action.
--   Count, Evict and Session are about the byte count, Stash about the tiles kept of the last view.
-- - UiStore (web/src/stores/ui.ts): zoom, theme, panels, navigation history, layers, and each action.
--   A zoom is a number of millionths, which toFixed(2) rounds to hundredths; the rounding errors of
--   floating-point numbers are not modelled. What the system prefers of light and dark may change
--   between the actions.
-- - MinHeap (web/src/lib/min-heap.ts): class MinHeap, over integer scores. Order and Sink are about its
--   order, Session about runs of operations, Weight about what it holds.
-- - TileManager (web/src/lib/tile-manager.ts): class TileManager. Its promises, timers, frames and
--   requests are explicit: the state holds what waits, and Session lists the events that can come, in
--   any order. Queue has the queue and the start of requests, Events the operations and callbacks,
--   Answers the handlers of responses.
-- - Stores/* (web/src/stores/stats.ts, landmarkStore.ts, bookmarkStore.ts, perf.ts): the small stores.
-- - ClientIndex (web/src/lib/client-index.ts): the evaluation of predicates on the columns of an index;
--   Build makes the index of the tables of a source. Rowwise says what a predicate means for one row.
--   The numbers with their comparisons, Number and String on values, and `new RegExp` are parameters.
--   A column of an Arrow table has as many values as the table has rows.
-- - SqlBuilder (web/src/api/duckdb/sql-builder.ts): the SQL of predicates and expressions; Query has the
--   queries of views, tiles, counts and schemas and the exported code. Lex says how SQL reads quotes.
-- - HttpBatch (web/src/api/http.ts, fetchViewTileBatch): the frames of tiles in the chunks of a
--   response, given as the list of what the reader returns; tableFromIPC is a parameter.
-- - Navigation (web/src/hooks/useNavigation.ts, useNavigationBar.ts): moves over the three stores; Words
--   and Bar parse what is typed, Input has the state of the bar. Keyboard (web/src/hooks/useKeyboard.ts)
--   is the handler of keys, which calls the actions of the stores and moves; Places says where its
--   moves should lead, and Keys is about them. Scroll positions are in millionths of a pixel.
-- - ColorScales (web/src/lib/color-scales.ts): djb2, categoricalColor and the colours of bookmarks.
-- - PrefetchModel (web/src/lib/prefetch-model.ts): class PrefetchModel. FuzzyMatch
--   (web/src/lib/fuzzyMatch.ts): fuzzyMatch, with toLowerCase as a parameter.
-- - Tests/*: runs on concrete inputs, and an instance of each theorem.
--
-- Loops: the eviction loops of TileCache and TableStore take the number of entries as fuel, since
-- each round removes one; digits of a number take the number plus one; a heap's loops take an index
-- or the length, the loops over a queue its length, and drain 8 rounds, since each starts a request
-- and 8 may be active. All else is structural recursion.
--
-- The loop over the frames of a response takes the number of its bytes, since a frame has 8 or more,
-- and the binary search the length of the order.
--
-- Not modelled: rendering (React components, canvas and WebGL drawing), the frames of teleportTo and the
-- scroll positions of useZoom (products of floating-point numbers), the other requests to the server and
-- to DuckDB, browser storage and the address bar, and the Rust and Python parts of the repository.
pub mod Prelude
pub mod TileCache
pub mod Viewport
pub mod ViewHash
pub mod ViewExpr
pub mod AddPredicate
pub mod ViewStore
pub mod TableStore
pub mod UiStore
pub mod Stores
pub mod ClientIndex
pub mod PrefetchModel
pub mod FuzzyMatch
pub mod SqlBuilder
pub mod HttpBatch
pub mod Navigation
pub mod ColorScales
pub mod MinHeap
pub mod TileManager
pub mod Tests
