-- ===== src/Desktop/Queue.antt =====
-- apps/desktop/play_queue.go: actionQueue, whose actions run one after the other. A channel that is
-- closed at the end of an action is that action's phase; `tail` is the last one.
pub mod InOrder
use anime_portable.Prelude.{
  ℕ, zero, suc, ◌+◌, if◌then◌else◌, take, Bool, true, false, List, [], ◌∷◌, ◌++◌,
}

pub data TaskPhase : Type 0 where
  waiting running finished : TaskPhase

-- The actions in the order of Enqueue.
abbrev pub ActionQueue : Type 0
ActionQueue = List TaskPhase

-- newActionQueue, whose tail is closed.
abbrev pub new_queue : ActionQueue
new_queue = []

-- Enqueue: the goroutine of the action waits for the tail there was.
unfoldable pub enqueue : ActionQueue → ActionQueue
enqueue queue = queue ++ waiting ∷ []

abbrev pub is_finished : TaskPhase → Bool
is_finished finished = true
is_finished phase = false

-- Whether the channel of the last of some actions is closed; `previous` is the one before them.
unfoldable pub is_closed : Bool → ActionQueue → Bool
is_closed previous [] = previous
is_closed previous (phase ∷ phases) = is_closed (is_finished phase) phases

-- Drain's channel at the time of a number of actions.
unfoldable pub is_drained : ℕ → ActionQueue → Bool
is_drained n queue = is_closed true (take n queue)

-- What the goroutine of an action does next, given whether the one before has ended.
unfoldable pub advance_phase : Bool → TaskPhase → TaskPhase
advance_phase previous waiting = if previous then running else waiting
advance_phase previous running = finished
advance_phase previous finished = finished

unfoldable pub advance_task : Bool → ℕ → ActionQueue → ActionQueue
advance_task previous i [] = []
advance_task previous zero (phase ∷ phases) = advance_phase previous phase ∷ phases
advance_task previous (suc i) (phase ∷ phases) = phase ∷ advance_task (is_finished phase) i phases

pub data QueueAction : Type 0 where
  enqueues : QueueAction
  goes_on : ℕ → QueueAction

unfoldable pub queue_step : ActionQueue → QueueAction → ActionQueue
queue_step queue enqueues = enqueue queue
queue_step queue (goes_on i) = advance_task true i queue

unfoldable pub queue_run : ActionQueue → List QueueAction → ActionQueue
queue_run queue [] = queue
queue_run queue (action ∷ actions) = queue_run (queue_step queue action) actions
