-- ===== src/Server/Threads/Tests.antt =====
-- Two clients: a thread for the first, and none for the second.
use nvhttpd.Base.{◌<◌, suc, ◌≡◌, refl, ◌⊎◌, arith}
use nvhttpd.Server.Threads.{
  max_threads, accepting, accepted, counted, uncounting, Threads, accept, count, create,
  create_fails, idle, Steps, here, next,
}
use nvhttpd.Server.Threads.Counts.{IsCounted, Steps-IsCounted, Steps-admit}
use nvhttpd.Server.Threads.Drains.{Reaches, IsIdle, IsIdle-Reaches}

abbrev one_thread : Threads
one_thread = record { phase = accepting; active_threads = 1; handling = 1 }

one_thread-Steps : Steps idle one_thread
one_thread-Steps = next (next (next here (accept refl)) (count refl (omega arith))) (create refl)

abbrev one_client : Threads
one_client = record { phase = accepted; active_threads = 1; handling = 1 }

one_client-Steps : Steps idle one_client
one_client-Steps = next one_thread-Steps (accept refl)

abbrev two_counted : Threads
two_counted = record { phase = counted; active_threads = 2; handling = 1 }

abbrev no_second : Threads
no_second = record { phase = uncounting; active_threads = 2; handling = 1 }

no_second-Steps : Steps idle no_second
no_second-Steps = next (next one_client-Steps (count refl (omega arith))) (create_fails refl)

Steps-IsCounted_example : IsCounted no_second
Steps-IsCounted_example = Steps-IsCounted no_second-Steps

Steps-admit_example :
    ((two_counted.phase ≡ accepting)
      × (one_client.handling ≡ max_threads)
      × (two_counted.active_threads ≡ one_client.active_threads))
    ⊎ (((two_counted.phase ≡ counted)
          × (one_client.handling < max_threads)
          × (two_counted.active_threads ≡ suc one_client.active_threads))
        ⊎ ((two_counted.phase ≡ accepted) × (one_client.handling ≡ suc two_counted.handling)))
Steps-admit_example = Steps-admit one_client-Steps (count refl (omega arith)) refl

IsIdle-Reaches_example : Reaches IsIdle no_second
IsIdle-Reaches_example = IsIdle-Reaches no_second-Steps
