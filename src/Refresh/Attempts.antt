-- ===== src/Refresh/Attempts.antt =====
-- How often core/refresh.go lets an automatic refresh start.
use anime_portable.Prelude.{
  Str, str_eq, str_eq_iff, str_eq_refl, ltb_ℤ, ◌≡◌, Bool, true, false, not, some, List, [], ◌∷◌,
  arith,
}
use anime_portable.Models.{Time}
use anime_portable.Library.Following.{time_sub}
use anime_portable.Refresh.{Refresher, last_attempt, set_attempt, attempt}

last_attempt-set :
    (entries : List (Str × Time)) (kind : Str) (now : Time)
    → last_attempt (set_attempt entries kind now) kind ≡ some now
unfolding last_attempt set_attempt
last_attempt-set [] kind now = ground (arith, str_eq_refl kind)
last_attempt-set ((key, time) ∷ rest) kind now = ground (arith, last_attempt-set rest kind now)

last_attempt-set_other :
    (entries : List (Str × Time)) (kind other : Str) (now : Time)
    → str_eq kind other ≡ false
    → last_attempt (set_attempt entries kind now) other ≡ last_attempt entries other
unfolding last_attempt set_attempt
last_attempt-set_other [] kind other now h = ground arith
last_attempt-set_other ((key, time) ∷ rest) kind other now h = ground (
  arith,
  last_attempt-set_other rest kind other now h,
  str_eq_iff key kind,
  str_eq_iff key other,
  str_eq_iff kind other,
)

-- After an attempt of one kind that was let through, an automatic one of the same kind is let through
-- exactly when the interval has passed; a forced one always is; and one of another kind is judged as
-- it would have been before.
pub attempt_paced :
    (r : Refresher) (kind other : Str) (force : Bool) (first second : Time)
    → (attempt r kind force first).1 ≡ true
    → str_eq kind other ≡ false
    → let r' = (attempt r kind force first).0 in
      ((attempt r' kind false second).1 ≡ not (ltb_ℤ (time_sub second first) r.interval))
      × ((attempt r' kind true second).1 ≡ true)
      × ((attempt r' other false second).1 ≡ (attempt r other false second).1)
unfolding attempt
attempt_paced r kind other force first second through h =
    let same = last_attempt-set r.attempts kind first in
    let apart = last_attempt-set_other r.attempts kind other first h in
    (ground (arith, same), ground arith, ground (arith, apart))
