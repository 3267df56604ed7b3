-- ===== src/Lib.antt =====
-- Verification of the core logic of Scrob, a self-hosted tracker of watched films and shows.
--
-- The backend keeps users' watch history, lists and ratings in a database and moves them between
-- media servers, by webhooks that report plays, by scheduled pulls and pushes, and by device apps.
-- What is modelled is the code that decides what is written, on tables as lists of rows:
--
-- - Watchlist: backend/core/watchlist_reconcile.py (`plan_watchlist_reconcile`,
--   `compute_new_baseline`) and, in backend/routers/sync.py, `_reconcile_plex_watchlist` with
--   `_apply_local_watchlist_changes` and `_apply_remote_watchlist_changes`. TMDB and Plex are
--   functions that say which import and which call succeeds. Classify, Table and Breaker are about
--   one plan, TwoWay about one with both directions on, Apply has the run, Retry is about two.
-- - DeviceGrant: the /auth/device routes of backend/routers/auth.py on the table of
--   backend/models/oauth_device.py, and `_user_from_device_grant` of backend/dependencies.py.
--   Handlers has what a device calls and Approval what a user calls.
--   Machine is the specification, steps of rows; Refines and Service show that the handlers
--   implement it; Service.Invariant and Replay use it. SHA-256 is a parameter, and the codes and
--   tokens that are drawn are inputs of a request.
-- - Watch: the rows of backend/models that hold plays. Watch.Dedup is backend/core/watch_dedup.py
--   (Dedup.Preload is the check of bulk imports, which reads all of a user's plays at once),
--   Watch.Rewatch is backend/core/rewatch.py, and Watch.Webhook is the playback core of
--   backend/routers/webhooks.py, which calls both: each play passes `_write_watch_event`.
-- - PushState: backend/core/push_state.py: the plan of a push, and what was pushed last.
-- - Cleanup: backend/core/watch_event_cleanup.py, which pairs webhook plays with their echoes.
-- - Identity: backend/core/identity.py: rows by local, TMDB or TVDB id, and the filling of missing
--   ids. Lookups is about the finding, Links about the filling.
-- - EpisodeOrder: the matching of TMDB episodes to TVDB episodes in backend/core/episode_order.py
--   (`_match_tmdb_to_tvdb_episodes`). Matched is about one round of its loop, Unique about the run.
--   EpisodeOrder.Season is the on-demand mapping of a season that webhooks ask for, with its guards;
--   Season.Alone is about what it inserts, Season.Once about the requests that it keeps away.
-- - Merge: the use of such a mapping in the same file: `reconcile_divergent_episode_media` and
--   `_merge_episode_media`, which turn two rows of one episode into one. Its rows are moved in six
--   tables, and go in the four others that refer to it. Adopt and Adopted are about one table,
--   Merged and Reconcile about all.
-- - Heal: `heal_duplicate_history` and `heal_push_echo_duplicates` of backend/routers/sync.py.
-- - ImageCache: backend/core/image_cache.py: downloads into the cache and the pruning of it. A limit
--   is a number of bytes, rounded down. A download is two steps, before its request to the origin
--   and after the reply. Pruned is about one pruning, Sound about any interleaving.
-- - Stremio: the watched bit field of backend/core/stremio.py (`encode_watched_bitfield`,
--   `decode_watched_bitfield`). zlib with base64 and the printing of numbers are parameters.
-- - Prelude: lists, dicts, sets, texts and the clock as these parts use them.
--
-- Times are microseconds since datetime.min; a clock is read once in a call and passed as `now`. A
-- subtraction from a time is written as an addition on the other side of the comparison, or stops
-- at 0. Progress fractions are millionths, pushed values billionths. The only fuel is that of
-- `slices`, which cuts rows for a statement: each slice takes at least one row, so the number of
-- rows is enough.
--
-- Not modelled: HTTP and SQL themselves, the clients of outside services, migrations, and the
-- frontend; the parsers of webhook payloads; the pull and push loops of
-- backend/routers/sync.py beside the reconciliation and the two sweeps; and the transactions of concurrent
-- requests: beside downloads of images and the mapping of a season, which are two steps each, a
-- handler reads and writes the rows in one. Plays are serialised by the advisory
-- lock of `watch_dedup`; no lock serialises the device routes.
pub mod Prelude
pub mod Cleanup
pub mod DeviceGrant
pub mod EpisodeOrder
pub mod Heal
pub mod Identity
pub mod ImageCache
pub mod Merge
pub mod PushState
pub mod Stremio
pub mod Watch
pub mod Watchlist
