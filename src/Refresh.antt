-- ===== src/Refresh.antt =====
-- core/refresh.go: Refresher, which limits how many refresh requests run at once and how often
-- automatic ones start. A channel of tokens is the number of tokens in it.
pub mod Slots
pub mod Attempts
use anime_portable.Prelude.{
  ℕ, zero, suc, ◌+◌, ◌-◌, max, ltb, if◌then◌else◌, Str, str_eq, ltb_ℤ, Duration, Bool, true, false,
  not, ◌&&◌, Option, none, some, List, [], ◌∷◌,
}
use anime_portable.Models.{Time}
use anime_portable.Library.Following.{time_sub}

-- Where a job is between the start of acquire and the end of its release.
pub data JobPhase : Type 0 where
  arriving  -- before it has what a background job takes first
        queued  -- waiting for a slot
        checking  -- with a slot, before the contexts are checked
        running finished :
      JobPhase

pub record Job : Type 0 where
  pub background : Bool
  pub phase : JobPhase

-- Refresher; `limit` is the capacity of `slots`, and that of `background` is one less. `jobs` are the
-- jobs of all its runs, and `attempts` the entries of its map.
pub record Refresher : Type 0 where
  pub limit : ℕ
  pub slots : ℕ
  pub background : ℕ
  pub interval : Duration
  pub attempts : List (Str × Time)
  pub jobs : List Job

-- NewRefresher
unfoldable pub new_refresher : ℕ → Duration → Refresher
new_refresher limit interval = record {
  limit = max limit 2;
  slots = 0;
  background = 0;
  interval = interval;
  attempts = [];
  jobs = [];
}

-- `attempts[kind]`
unfoldable pub last_attempt : List (Str × Time) → Str → Option Time
last_attempt [] kind = none
last_attempt ((key, time) ∷ rest) kind =
    let later = last_attempt rest kind in if str_eq key kind then some time else later

-- `attempts[kind] = now`
unfoldable pub set_attempt : List (Str × Time) → Str → Time → List (Str × Time)
set_attempt [] kind now = (kind, now) ∷ []
set_attempt ((key, time) ∷ rest) kind now =
    let later = set_attempt rest kind now in
    if str_eq key kind then (key, now) ∷ rest else (key, time) ∷ later

-- Whether the last attempt of a kind is too recent.
abbrev pub too_soon : Refresher → Str → Time → Bool
too_soon r kind now = elim (last_attempt r.attempts kind) [
  | none ↦ false
  | some last ↦ ltb_ℤ (time_sub now last) r.interval
]

-- Attempt; `now` is what the clock says.
unfoldable pub attempt : Refresher → Str → Bool → Time → Refresher × Bool
attempt r kind force now =
    if too_soon r kind now && not force
    then (r, false)
    else (record r { attempts = set_attempt r.attempts kind now }, true)

-- releaseBackground, when a job gives its token back.
abbrev pub release_background : Job → Refresher → Refresher
release_background job r = if job.background then record r { background = r.background - 1 } else r

-- release: `<-refresher.slots; releaseBackground()`
abbrev pub release : Job → Refresher → Refresher
release job r = release_background job (record r { slots = r.slots - 1 })

abbrev pub at : Job → JobPhase → Job
at job phase = record job { phase = phase }

-- What the goroutine of one job does next: the value is the job and the refresher's tokens. `ended` is
-- whether a context has ended, which a wait may or may not see before its token.
unfoldable pub advance : Bool → Job → Refresher → Job × Refresher
advance ended job r = elim job.phase [
  | arriving ↦
      if not job.background
      then (at job queued, r)
      else if ended
      then (at job finished, r)
      else if ltb r.background (r.limit - 1)
      then (at job queued, record r { background = r.background + 1 })
      else (job, r)
  | queued ↦
      if ended
      then (at job finished, release_background job r)
      else if ltb r.slots r.limit
      then (at job checking, record r { slots = r.slots + 1 })
      else (job, r)
  | checking ↦ if ended then (at job finished, release job r) else (at job running, r)
  | running ↦ (at job finished, release job r)
  | finished ↦ (job, r)
]

-- The goroutine of the job at an index takes its next step.
unfoldable pub advance_at : Bool → ℕ → List Job → Refresher → List Job × Refresher
advance_at ended i [] r = ([], r)
advance_at ended zero (job ∷ jobs) r = let (job', r') = advance ended job r in (job' ∷ jobs, r')
advance_at ended (suc i) (job ∷ jobs) r =
    let (jobs', r') = advance_at ended i jobs r in (job ∷ jobs', r')

pub data RefreshAction : Type 0 where
  submits : Bool → RefreshAction  -- Run (false) or RunInBackground (true) comes to a job
  advances : Bool → ℕ → RefreshAction

unfoldable pub refresh_step : Refresher → RefreshAction → Refresher
refresh_step r (submits background) = record r {
  jobs = record { background = background; phase = arriving } ∷ r.jobs;
}
refresh_step r (advances ended i) =
    let (jobs, r') = advance_at ended i r.jobs r in record r' { jobs = jobs }

-- The refresher after any interleaving of its jobs.
unfoldable pub refresh_run : Refresher → List RefreshAction → Refresher
refresh_run r [] = r
refresh_run r (action ∷ actions) = refresh_run (refresh_step r action) actions
