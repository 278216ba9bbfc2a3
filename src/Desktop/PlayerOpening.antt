-- ===== src/Desktop/PlayerOpening.antt =====
-- apps/desktop/player_opening.go: playerOpening, which looks up the opening of the episode that plays and
-- shows it while that load is on screen. A lookup's context has the lookup's number; `view` is the load on
-- screen, which each load counts up.
pub mod OnScreen
pub mod Single
use anime_portable.Prelude.{
  ℕ, ◌+◌, ◌/◌, ◌==◌, if◌then◌else◌, length, Str, is_empty, ℤ, pos, pos_part, leb_ℤ, Duration, Bool,
  ◌&&◌, ◌||◌, Option, none, some, List, [], ◌∷◌, pick,
}
use anime_portable.Views.Data.{PlayRequest}

-- backend.Opening, and an error of the lookup is none.
pub record FoundOpening : Type 0 where
  pub found : Bool
  pub start : ℤ
  pub end_at : ℤ

-- The goroutine of a lookup.
pub record OpeningLookup : Type 0 where
  pub number : ℕ
  pub generation : ℕ
  pub anime_id : Str
  pub episode_id : Str
  pub length_millis : ℤ

-- An update that waits for the UI thread.
pub record OpeningUpdate : Type 0 where
  pub generation : ℕ
  pub answer : Option FoundOpening

-- What was shown, with the load on screen at that time.
pub record ShownOpening : Type 0 where
  pub generation : ℕ
  pub on_screen : ℕ
  pub opening : FoundOpening

-- playerOpening with what it has started and shown.
pub record PlayerOpening : Type 0 where
  pub asked : ℕ
  pub cancel : Option ℕ
  pub started : ℕ
  pub lookups : List OpeningLookup
  pub cancelled : List ℕ
  pub updates : List OpeningUpdate
  pub shown : List ShownOpening
  pub view : ℕ

-- `opening.cancel()`
abbrev pub with_cancelled : Option ℕ → List ℕ → List ℕ
with_cancelled none cancelled = cancelled
with_cancelled (some number) cancelled = number ∷ cancelled

-- stop
unfoldable pub stop_lookup : PlayerOpening → PlayerOpening
stop_lookup s = record s { cancel = none; cancelled = with_cancelled s.cancel s.cancelled }

-- What playing does once it asks.
unfoldable pub ask_opening : ℕ → PlayRequest → ℤ → PlayerOpening → PlayerOpening
ask_opening generation request millis s =
    let stopped = stop_lookup (record s { asked = generation }) in
    record stopped {
      cancel = some s.started;
      started = s.started + 1;
      lookups =
          record {
            number = s.started;
            generation = generation;
            anime_id = request.anime_id;
            episode_id = request.episode_id;
            length_millis = millis;
          }
          ∷ s.lookups;
    }

-- playing; a length that is not positive is none.
unfoldable pub opening_playing : ℕ → PlayRequest → Duration → PlayerOpening → PlayerOpening
opening_playing generation request length s =
    if (generation == s.asked)
      || leb_ℤ length (pos 0)
      || is_empty request.anime_id
      || is_empty request.episode_id
    then s
    else ask_opening generation request (pos (pos_part length / 1000000)) s

-- The end of a lookup, with its `defer cancel()`.
abbrev pub lookup_answered :
    Option FoundOpening
    → Option (OpeningLookup × List OpeningLookup)
    → PlayerOpening
    → PlayerOpening
lookup_answered answer none s = s
lookup_answered answer (some (lookup, rest)) s = record s {
  lookups = rest;
  cancelled = lookup.number ∷ s.cancelled;
  updates = record { generation = lookup.generation; answer = answer } ∷ s.updates;
}

-- The update of an answer.
unfoldable pub show_answer : ℕ → Option FoundOpening → PlayerOpening → PlayerOpening
show_answer generation none s = s
show_answer generation (some opening) s =
    if opening.found && (s.view == generation)
    then record s {
      shown = record { generation = generation; on_screen = s.view; opening = opening } ∷ s.shown;
    }
    else s

abbrev pub opening_updated :
    Option (OpeningUpdate × List OpeningUpdate) → PlayerOpening → PlayerOpening
opening_updated none s = s
opening_updated (some (update, rest)) s =
    show_answer update.generation update.answer (record s { updates = rest })

-- A playback state names the load on screen, as the player's callback does.
pub data OpeningAction : Type 0 where
  new_load stops : OpeningAction
  plays : PlayRequest → Duration → OpeningAction
  answers : ℕ → Option FoundOpening → OpeningAction
  runs_update : ℕ → OpeningAction

unfoldable pub opening_step : PlayerOpening → OpeningAction → PlayerOpening
opening_step s new_load = record s { view = s.view + 1 }
opening_step s stops = stop_lookup s
opening_step s (plays request length) = opening_playing s.view request length s
opening_step s (answers i answer) = lookup_answered answer (pick i s.lookups) s
opening_step s (runs_update i) = opening_updated (pick i s.updates) s

unfoldable pub opening_run : PlayerOpening → List OpeningAction → PlayerOpening
opening_run s [] = s
opening_run s (action ∷ actions) = opening_run (opening_step s action) actions

-- `&playerOpening{...}`
abbrev pub no_lookup : PlayerOpening
no_lookup = record {
  asked = 0;
  cancel = none;
  started = 0;
  lookups = [];
  cancelled = [];
  updates = [];
  shown = [];
  view = 0;
}
