-- ===== src/Lib.antt =====
-- Verification of AnimePortable, a desktop player for followed anime written in Go.
--
-- The program. `core` is the domain: it resolves an episode through a source, resumes it where it was
-- left, plays it in a tracked session, saves the playback to a store and says which followed anime have
-- new episodes. Its ports (store, source, player) are interfaces that `adapters` implement. The desktop
-- in `apps/desktop` drives the core through `backend`, and shows it on pages whose state is kept in the
-- models of `fltkhome`.
--
-- Files, and the code they are about:
--   Prelude, Prelude/*     Go's strings, integers and slices as lists and numbers; no code of its own.
--   Models, Models/*       core/models.go, errors.go, source.go, playback.go: the data, the settings.
--   Playback, Playback/*   tests on events, positions and snapshots; the completion threshold.
--   Effects, Host          a call that changes the world and may fail; the ports of core/store.go,
--                          source.go and playback.go as one record, a parameter of every operation.
--   App, App/*             core/app.go: setFollowing, preparePlayRequest, playbackResumePosition.
--   Tracking/State, /*     core/playback_tracking.go: the critical sections under stateMu (observe,
--                          beginPending, discardPending, commitPending, refreshSnapshot, checkpoint).
--   Tracking/Queue, Relay  the same file: trackedEventRelay, its goroutine `run` and deliverQueued.
--   Tracking/Session, /*   the same file: trackedPlaybackSession, with handleRawEvent and checkpoint,
--                          and every interleaving of its actions (Steps).
--   Library/Numbers, /*    core/following.go: episode numbers, highestNumbered, watchedUpTo.
--   Library/Following, /*  core/following.go: followingEntry, markRecentUpdate, indexPlaybackHistory.
--   Library/Screens, /*    core/following.go and core/history.go: ListFollowing and ListHistory.
--   Library/Opening, /*    core/opening.go: ChooseOpening, FindOpening, MyAnimeListID.
--   Metadata, Metadata/*   core/metadata_normalize.go, metadata_fold.go (Text), metadata_variants.go
--                          (Names), metadata_match.go (Score, Match), metadata_refresh.go (Refresh),
--                          schedule.go (Schedule).
--   Policy, Policy/*       internal/metadata/policy.go: NormalizePlainText.
--   ProxyAddress, /*       core/proxy_address.go.
--   Adapters/JsonScan, /*  adapters/internal/jsonscan/jsonscan.go.
--   Refresh, Refresh/*     core/refresh.go: Attempt, and the slots of acquire and release.
--   Views/Data             apps/desktop/backend/dto.go: what the pages are given.
--   Views/Paging           apps/desktop/fltkhome/model.go: pageCount and movedPage.
--   Views/Items, /*        apps/desktop/fltkhome/search_model.go: merge and filter on lists.
--   Views/Search, /*       the same file: searchModel, its requests, its queue and its selection.
--   Views/Detail, /*       apps/desktop/fltkhome/detail_model.go: detailModel.
--   Views/Home, /*         apps/desktop/fltkhome/model.go: newestPerAnime and selectHomeRows.
--   Views/Rows, /*         the same file: homeCaption, historyRows, followingRows, recentUpdateRows.
--   Desktop/Autoplay, /*   apps/desktop/player_autoplay.go: playerAutoplay.
--   Desktop/Follow, /*     apps/desktop/player_follow.go: the star of the player.
--   Desktop/PlayerOpening  apps/desktop/player_opening.go: the lookup of the opening that plays.
--   Desktop/Queue, /*      apps/desktop/play_queue.go: the actions that run one after another.
--   Desktop/StartWatch, /* apps/desktop/player_start_watch.go: the report of a start that fails.
--   Tests/*                the theorems at concrete inputs.
--
-- How code becomes definitions. A struct is a record and an enumeration a data type, with the source's
-- names in snake case; a method is a function from the state to the new state and its results. A mutex's
-- critical section is one such function, and concurrency is a list of actions in any order: a theorem
-- about every list is one about every schedule. A goroutine that waits is a phase of its own. A uint64
-- counter wraps at 2 ^ 64; the theorems that need distinct counters take fewer than 2 ^ 63 actions. (The
-- view token of the autoplay, which other code counts, is a number that does not come back.) A
-- time.Duration is an integer of nanoseconds, a time.Time the nanoseconds since the zero time, a string
-- the list of its bytes, a map the list of its entries. A float64 is exact where it matters: the
-- completion threshold is decided with the rounding of the conversion and of the division.
--
-- Functions are structurally recursive, but for three on fuel. `strip_suffixes` drops at least a byte
-- each time, so one more than the length is enough. `scan` takes at most two calls for a token, so twice
-- the tokens and two is enough. `digits` has one more than the number, and each digit divides it by 10.
-- `queue_capacity` and `page_size` are the constants of the source.
--
-- Parameters. The ports and the context (Host), strconv.ParseFloat (FloatParser), time.Parse
-- (TimeParser), strings.ToLower (`lower`), strings.EqualFold (`equal_fold`), the Unicode tables
-- (Unicode), the regular expressions of core/metadata_variants.go (Patterns), netip.ParseAddr
-- (AddrParser), the HTML tokenizer, the texts of uitext.T(), the time zone, the metadata providers and
-- the opening sources are arguments of the definitions that use them. The scan of JSON reads the tokens
-- that json.Decoder gives.
--
-- Not modelled: the adapters (HTTP, SQL, libmpv) other than the scan of JSON, the widgets, the timers
-- and the closing of channels, the embedded data, the Unicode tables and the regular expressions.
pub mod Prelude
pub mod Models
pub mod Playback
pub mod Effects
pub mod Host
pub mod App
pub mod Tracking
pub mod Metadata
pub mod Library
pub mod Refresh
pub mod Views
pub mod Desktop
pub mod Adapters
pub mod ProxyAddress
pub mod Policy
mod Tests
