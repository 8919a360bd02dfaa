-- ===== src/Queue.antt =====
-- include/core/pipeline/concurrent_queue.hpp. Each method runs under the mutex of the queue, so a
-- method is one step; threads are the order in which their calls take the mutex. A waiting `pop` takes
-- its step when the condition variable lets it go on.
pub mod History
use mind_trace.Base.{
  ℕ, Bool, true, false, not, ◌||◌, List, [], ◌∷◌, ◌++◌, Option, none, some, if◌then◌else◌, length,
  is_empty,
}

pub record ConcurrentQueue {ℓ} (A : Type ℓ) : Type ℓ where
  pub queue : List A
  pub stopped : Bool

module _ {ℓ} {A : Type ℓ} where
  unfoldable pub new_queue : ConcurrentQueue A
  new_queue = record { queue = []; stopped = false }

  unfoldable pub push : ConcurrentQueue A → A → ConcurrentQueue A
  push q item = record q { queue = q.queue ++ item ∷ [] }

  -- The front, and the queue without it.
  front : List A → Bool → Option A × ConcurrentQueue A
  front [] b = (none, record { queue = []; stopped = b })
  front (item ∷ rest) b = (some item, record { queue = rest; stopped = b })

  unfoldable pub try_pop : ConcurrentQueue A → Option A × ConcurrentQueue A
  unfolding front
  try_pop q = front q.queue q.stopped

  -- The predicate of the condition variable: `!queue_.empty() || stopped_`.
  unfoldable pub may_go_on : ConcurrentQueue A → Bool
  may_go_on q = not (is_empty q.queue) || q.stopped

  -- `none`: the thread waits.
  unfoldable pub pop : ConcurrentQueue A → Option (Option A × ConcurrentQueue A)
  unfolding front may_go_on
  pop q = if may_go_on q then some (front q.queue q.stopped) else none

  -- `pop_for` at the moment when its wait ends, by a notification or by the timeout.
  unfoldable pub pop_for : ConcurrentQueue A → Option A × ConcurrentQueue A
  unfolding front may_go_on
  pop_for q = if may_go_on q then front q.queue q.stopped else (none, q)

  unfoldable pub stop : ConcurrentQueue A → ConcurrentQueue A
  stop q = record q { stopped = true }

  unfoldable pub empty : ConcurrentQueue A → Bool
  empty q = is_empty q.queue

  unfoldable pub size : ConcurrentQueue A → ℕ
  size q = length q.queue

  unfoldable pub is_stopped : ConcurrentQueue A → Bool
  is_stopped q = q.stopped
