-- ===== src/Queue/History.antt =====
-- Histories of calls on the queue of include/core/pipeline/concurrent_queue.hpp, from any threads.
use mathlib.Core.List.{append_assoc, append-nil}
use mind_trace.Base.{
  ◌≡◌, ◌↔◌, refl, ap, ◌∙◌, sym, Bool, true, false, List, [], ◌∷◌, ◌++◌, Option, none, some, arith,
  ◌⊎◌, inl, inr,
}
use mind_trace.Queue.{ConcurrentQueue, push, try_pop, pop, pop_for, stop, front}

pub data Call {ℓ} (A : Type ℓ) : Type ℓ where
  pushes : A → Call A
  tries pops waits stops : Call A

module _ {ℓ} {A : Type ℓ} where
  abbrev given : Option A → List A
  given none = []
  given (some a) = a ∷ []

  -- What a call hands out, and the queue after it. A `pop` that waits leaves the queue as it is.
  after_pop :
      ConcurrentQueue A → Option (Option A × ConcurrentQueue A) → Option A × ConcurrentQueue A
  after_pop q none = (none, q)
  after_pop q (some r) = r

  unfoldable pub call : ConcurrentQueue A → Call A → Option A × ConcurrentQueue A
  unfolding after_pop
  call q (pushes a) = (none, push q a)
  call q tries = try_pop q
  call q pops = after_pop q (pop q)
  call q waits = pop_for q
  call q stops = (none, stop q)

  -- The items that a history puts in.
  abbrev pub put_in : List (Call A) → List A
  put_in [] = []
  put_in (pushes a ∷ cs) = a ∷ put_in cs
  put_in (tries ∷ cs) = put_in cs
  put_in (pops ∷ cs) = put_in cs
  put_in (waits ∷ cs) = put_in cs
  put_in (stops ∷ cs) = put_in cs

  -- The items that it hands out, in order, and the queue after it.
  unfoldable pub run : ConcurrentQueue A → List (Call A) → List A × ConcurrentQueue A
  run q [] = ([], q)
  run q (c ∷ cs) = let later = run (call q c).1 cs in (given (call q c).0 ++ later.0, later.1)

  abbrev added : Call A → List A
  added (pushes a) = a ∷ []
  added _ = []

  front_parts : (xs : List A) (b : Bool) → given (front xs b).0 ++ (front xs b).1.queue ≡ xs
  unfolding front
  front_parts [] b = refl
  front_parts (x ∷ xs) b = refl

  pop_parts :
      (xs : List A) (b : Bool)
      → let q : ConcurrentQueue A = record { queue = xs; stopped = b } in
        let r = after_pop q (pop q) in given r.0 ++ r.1.queue ≡ xs
  unfolding pop after_pop
  pop_parts [] true = refl
  pop_parts [] false = refl
  pop_parts (x ∷ xs) b = refl

  wait_parts :
      (xs : List A) (b : Bool)
      → let r = pop_for (record { queue = xs; stopped = b }) in given r.0 ++ r.1.queue ≡ xs
  unfolding pop_for
  wait_parts [] true = refl
  wait_parts [] false = refl
  wait_parts (x ∷ xs) b = refl

  call_parts :
      (q : ConcurrentQueue A) (c : Call A)
      → given (call q c).0 ++ (call q c).1.queue ≡ q.queue ++ added c
  unfolding call push try_pop stop
  call_parts q (pushes a) = refl
  call_parts q tries = front_parts q.queue q.stopped ∙ sym (append-nil q.queue)
  call_parts q pops = pop_parts q.queue q.stopped ∙ sym (append-nil q.queue)
  call_parts q waits = wait_parts q.queue q.stopped ∙ sym (append-nil q.queue)
  call_parts q stops = sym (append-nil q.queue)

  put_in-cons : (c : Call A) (cs : List (Call A)) → put_in (c ∷ cs) ≡ added c ++ put_in cs
  put_in-cons (pushes a) cs = refl
  put_in-cons _ cs = refl

  -- First in, first out, whatever the threads do: the items handed out in a history and then those that
  -- are still queued are those that were queued at its start and then those that it put in, in this
  -- order. No item is lost, repeated or overtaken, also once the queue is stopped.
  pub run_fifo :
      (q : ConcurrentQueue A) (cs : List (Call A))
      → (run q cs).0 ++ (run q cs).1.queue ≡ q.queue ++ put_in cs
  unfolding run
  run_fifo q [] = sym (append-nil q.queue)
  run_fifo q (c ∷ cs) =
      append_assoc (given (call q c).0) (run (call q c).1 cs).0 _
      ∙ ap (λ r. given (call q c).0 ++ r) (run_fifo (call q c).1 cs)
      ∙ sym (append_assoc (given (call q c).0) (call q c).1.queue (put_in cs))
      ∙ ap (λ r. r ++ put_in cs) (call_parts q c)
      ∙ append_assoc q.queue (added c) (put_in cs)
      ∙ ap (λ r. q.queue ++ r) (sym (put_in-cons c cs))

  -- A thread that pops waits exactly when nothing is queued and nobody has stopped the queue.
  pub pop_waits : (q : ConcurrentQueue A) → (pop q ≡ none) ↔ ((q.queue ≡ []) × (q.stopped ≡ false))
  unfolding pop
  pop_waits q = (λ h. (ground arith, ground arith), λ h. ground arith)

module _ {ℓ} {A : Type ℓ} where
  -- `pop_for` hands out the front, or nothing and leaves the items.
  abbrev pub Waited : List A → Option A × ConcurrentQueue A → Type ℓ
  Waited xs r =
      ((r.0 ≡ none) × (r.1.queue ≡ xs)) ⊎ ((a : A) × (r.0 ≡ some a) × (xs ≡ a ∷ r.1.queue))

  Waited-cases : (xs : List A) (b : Bool) → Waited xs (pop_for (record { queue = xs; stopped = b }))
  unfolding pop_for
  Waited-cases [] true = inl (refl, refl)
  Waited-cases [] false = inl (refl, refl)
  Waited-cases (x ∷ xs) b = inr (x, refl, refl)

  pub pop_for-Waited : (q : ConcurrentQueue A) → Waited q.queue (pop_for q)
  pop_for-Waited q = Waited-cases q.queue q.stopped
