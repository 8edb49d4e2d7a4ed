-- ===== src/Server/Threads.antt =====
-- `handle_connections` and the ends of `handle_client_request`: which threads run, and how they are
-- counted.
pub mod Counts
pub mod Drains
mod Tests
use nvhttpd.Base.{ℕ, suc, ◌+◌, ◌-◌, ◌≤◌, ◌<◌, ◌≡◌}

abbrev pub max_threads : ℕ
max_threads = 100

-- Where the loop of `handle_connections` is: at `http_accept`; at the mutex, with a client; at
-- `pthread_create`; at the mutex again, since that call failed; behind the loop.
pub data Phase : Type 0 where
  accepting accepted counted uncounting stopped : Phase

-- `active_threads` is an int, decremented only where it is positive. `handling` is the number of the
-- threads that run `handle_client_request` and are in front of `active_threads--`.
pub record Threads : Type 0 where
  pub phase : Phase
  pub active_threads : ℕ
  pub handling : ℕ

-- A step of the loop or of a thread; every critical section of `thread_mutex` is one step.
pub data Step (s : Threads) : Threads → Type 0 where
  -- `http_accept` returns NULL, or the attributes of the thread fail and the client is closed.
  no_client : s.phase ≡ accepting → Step s s
  accept : s.phase ≡ accepting → Step s (record s { phase = accepted })
  -- Too many threads: the client is closed.
  reject :
      s.phase ≡ accepted → max_threads ≤ s.active_threads → Step s (record s { phase = accepting })
  count :
      s.phase ≡ accepted
      → s.active_threads < max_threads
      → Step s (record s { phase = counted; active_threads = s.active_threads + 1 })
  create : s.phase ≡ counted → Step s (record s { phase = accepting; handling = s.handling + 1 })
  create_fails : s.phase ≡ counted → Step s (record s { phase = uncounting })
  uncount :
      s.phase ≡ uncounting
      → Step s (record s { phase = accepting; active_threads = s.active_threads - 1 })
  -- The end of `handle_client_request`.
  end_thread :
      {n : ℕ}
      → s.handling ≡ suc n
      → Step s (record s { active_threads = s.active_threads - 1; handling = n })
  -- `terminate` is set.
  terminate : s.phase ≡ accepting → Step s (record s { phase = stopped })

abbrev pub idle : Threads
idle = record { phase = accepting; active_threads = 0; handling = 0 }

-- Steps of the loop and the threads, in any order.
pub data Steps (s : Threads) : Threads → Type 0 where
  here : Steps s s
  next : {t u : Threads} → Steps s t → Step t u → Steps s u
