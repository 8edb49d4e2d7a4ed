-- ===== src/Log.antt =====
-- log.c: the queue between the threads that log and the thread that writes.
pub mod Fifo
pub mod Level
pub mod Logger
mod Tests
use nvhttpd.Base.{ℕ, Bool, true, false, Option, none, some, ◌==◌, if◌then◌else◌}

-- The memory of the `next` fields; an output is its address.
abbrev pub Links : Type 0
Links = ℕ → Option ℕ

-- `a->next = v`
abbrev pub link : ℕ → Option ℕ → Links → Links
link a v next b = if b == a then v else next b

pub record LogQueue : Type 0 where
  pub head : Option ℕ
  pub tail : Option ℕ
  pub stop : Bool
  pub next : Links

-- The part of `enqueue` behind `output->next = NULL`.
unfoldable pub append_output : Option ℕ → ℕ → LogQueue → LogQueue
append_output (some t) output queue = record queue {
  next = link t (some output) queue.next;
  tail = some output;
}
append_output none output queue = record queue { head = some output; tail = some output }

unfoldable pub enqueue : LogQueue → ℕ → LogQueue
enqueue queue output =
    append_output queue.tail output (record queue { next = link output none queue.next })

-- How `dequeue` ends: it waits, for an output or for the stop, or returns an output or NULL.
pub data Dequeued : Type 0 where
  waits : Dequeued
  returns : Option ℕ → LogQueue → Dequeued

-- `if (queue->head == NULL) queue->tail = NULL;`
abbrev pub tail_behind : Option ℕ → Option ℕ → Option ℕ
tail_behind none tail = none
tail_behind (some h) tail = tail

-- The branches of `dequeue` on the head of the queue.
unfoldable pub dequeue_head : Option ℕ → LogQueue → Dequeued
dequeue_head none queue =
    if queue.stop then returns none (record queue { head = none; tail = none }) else waits
dequeue_head (some output) queue =
    returns (some output)
      (record queue { head = queue.next output; tail = tail_behind (queue.next output) queue.tail })

unfoldable pub dequeue : LogQueue → Dequeued
dequeue queue = dequeue_head queue.head queue
