-- ===== src/Refresh/Slots.antt =====
-- The tokens of core/refresh.go.
use anime_portable.Prelude.{ℕ, ◌+◌, ◌-◌, ◌≤◌, if◌then◌else◌, ◌≡◌, List, [], ◌∷◌}
use anime_portable.Refresh.{queued, checking, running, Job, Refresher}

-- Whether a job has a slot, and whether it has a background token.
unfoldable pub has_slot : Job → ℕ
has_slot job = elim job.phase [ checking ↦ 1 | running ↦ 1 | _ ↦ 0 ]

unfoldable pub has_token : Job → ℕ
has_token job =
    if job.background then elim job.phase [ queued ↦ 1 | checking ↦ 1 | running ↦ 1 | _ ↦ 0 ] else 0

-- The jobs that have a slot, those in the background that have one, and those with a token.
unfoldable pub slots_of : List Job → ℕ
slots_of [] = 0
slots_of (job ∷ jobs) = has_slot job + slots_of jobs

unfoldable pub tokens_of : List Job → ℕ
tokens_of [] = 0
tokens_of (job ∷ jobs) = has_token job + tokens_of jobs

-- The slots that jobs in the background have.
unfoldable pub background_slots : List Job → ℕ
background_slots [] = 0
background_slots (job ∷ jobs) = (if job.background then has_slot job else 0) + background_slots jobs

-- The channels hold the tokens of the jobs, and `s` and `t` others, and no more than they can.
abbrev IsBalanced : Refresher → ℕ → ℕ → ℕ → ℕ → Type 0
IsBalanced r slots tokens s t =
    (r.slots ≡ slots + s)
    × (r.background ≡ tokens + t)
    × (r.slots ≤ r.limit)
    × (r.background ≤ r.limit - 1)
