-- ===== src/Desktop/Queue/InOrder.antt =====
-- The order in which actionQueue of apps/desktop/play_queue.go runs its actions.
use anime_portable.Desktop.Queue.{
  is_drained, TaskPhase, queue_run, is_closed, enqueue, ActionQueue, advance_task, finished,
  queue_step, QueueAction, advance_phase, waiting, goes_on, running, new_queue, enqueues,
}
use anime_portable.Prelude.{
  ℕ, zero, suc, take, All, All-append, ◌≡◌, refl, true, false, List, [], ◌∷◌, arith,
}

abbrev pub IsWaiting : TaskPhase → Type 0
IsWaiting phase = phase ≡ waiting

-- Ended actions, at most one that runs, and those that wait, in the order of Enqueue.
pub IsInOrder : ActionQueue → Type 0
IsInOrder [] = Unit
IsInOrder (finished ∷ phases) = IsInOrder phases
IsInOrder (running ∷ phases) = All IsWaiting phases
IsInOrder (waiting ∷ phases) = All IsWaiting phases

waiting-IsInOrder : (phases : ActionQueue) → All IsWaiting phases → IsInOrder phases
unfolding IsInOrder
waiting-IsInOrder [] h = tt
waiting-IsInOrder (waiting ∷ phases) h = h.1
waiting-IsInOrder (running ∷ phases) h = cc
waiting-IsInOrder (finished ∷ phases) h = cc

enqueue-IsInOrder : (queue : ActionQueue) → IsInOrder queue → IsInOrder (enqueue queue)
unfolding enqueue IsInOrder
enqueue-IsInOrder [] h = tt
enqueue-IsInOrder (finished ∷ phases) h = enqueue-IsInOrder phases h
enqueue-IsInOrder (running ∷ phases) h = All-append IsWaiting phases (waiting ∷ []) h (refl, tt)
enqueue-IsInOrder (waiting ∷ phases) h = All-append IsWaiting phases (waiting ∷ []) h (refl, tt)

-- Nothing goes on behind an action that has not ended.
held-IsWaiting :
    (i : ℕ) (phases : ActionQueue)
    → All IsWaiting phases
    → All IsWaiting (advance_task false i phases)
unfolding advance_task advance_phase
held-IsWaiting i [] h = tt
held-IsWaiting zero (waiting ∷ phases) h = h
held-IsWaiting zero (running ∷ phases) h = cc
held-IsWaiting zero (finished ∷ phases) h = cc
held-IsWaiting (suc i) (waiting ∷ phases) h = (h.0, held-IsWaiting i phases h.1)
held-IsWaiting (suc i) (running ∷ phases) h = cc
held-IsWaiting (suc i) (finished ∷ phases) h = cc

advance-IsInOrder :
    (i : ℕ) (queue : ActionQueue) → IsInOrder queue → IsInOrder (advance_task true i queue)
unfolding advance_task advance_phase IsInOrder
advance-IsInOrder i [] h = tt
advance-IsInOrder zero (finished ∷ phases) h = h
advance-IsInOrder zero (running ∷ phases) h = waiting-IsInOrder phases h
advance-IsInOrder zero (waiting ∷ phases) h = h
advance-IsInOrder (suc i) (finished ∷ phases) h = advance-IsInOrder i phases h
advance-IsInOrder (suc i) (running ∷ phases) h = held-IsWaiting i phases h
advance-IsInOrder (suc i) (waiting ∷ phases) h = held-IsWaiting i phases h

run-IsInOrder :
    (queue : ActionQueue) (actions : List QueueAction)
    → IsInOrder queue
    → IsInOrder (queue_run queue actions)
unfolding queue_run queue_step
run-IsInOrder queue [] h = h
run-IsInOrder queue (enqueues ∷ actions) h =
    run-IsInOrder (enqueue queue) actions (enqueue-IsInOrder queue h)
run-IsInOrder queue (goes_on i ∷ actions) h =
    run-IsInOrder (advance_task true i queue) actions (advance-IsInOrder i queue h)

-- The channel of an action that waits is not closed.
waiting-open :
    (n : ℕ) (phases : ActionQueue) → All IsWaiting phases → is_closed false (take n phases) ≡ false
unfolding is_closed
waiting-open zero phases h = refl
waiting-open (suc n) [] h = refl
waiting-open (suc n) (waiting ∷ phases) h = waiting-open n phases h.1
waiting-open (suc n) (running ∷ phases) h = cc
waiting-open (suc n) (finished ∷ phases) h = cc

drained-finished :
    (n : ℕ) (queue : ActionQueue)
    → IsInOrder queue
    → is_closed true (take n queue) ≡ true
    → All (λ phase. phase ≡ finished) (take n queue)
unfolding is_closed IsInOrder
drained-finished zero queue h closed = tt
drained-finished (suc n) [] h closed = tt
drained-finished (suc n) (finished ∷ phases) h closed = (refl, drained-finished n phases h closed)
drained-finished (suc n) (running ∷ phases) h closed =
    absurd (ground (arith, waiting-open n phases h, closed))
drained-finished (suc n) (waiting ∷ phases) h closed =
    absurd (ground (arith, waiting-open n phases h, closed))

-- However the goroutines are scheduled, the actions of the queue are at all times some that have ended,
-- at most one that runs, and then only ones that wait, in the order in which they were queued; and when
-- the channel is closed that Drain gave when there were `n`, all those have ended.
pub queue-IsInOrder :
    (actions : List QueueAction) (n : ℕ)
    → let queue = queue_run new_queue actions in
      IsInOrder queue × (is_drained n queue ≡ true → All (λ phase. phase ≡ finished) (take n queue))
unfolding is_drained IsInOrder
queue-IsInOrder actions n =
    let ordered = run-IsInOrder new_queue actions tt in
    (ordered, λ drained. drained-finished n (queue_run new_queue actions) ordered drained)
