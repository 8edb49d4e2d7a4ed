-- ===== src/Server/Threads/Counts.antt =====
-- `active_threads` is the number of the threads.
use nvhttpd.Base.{ℕ, suc, ◌+◌, ◌≤◌, ◌<◌, ◌≡◌, refl, ap, ◌⊎◌, inl, inr, arith}
use nvhttpd.Server.Threads.{
  max_threads, Phase, accepting, accepted, counted, uncounting, stopped, Threads, Step, no_client,
  accept, reject, count, create, create_fails, uncount, end_thread, terminate, idle, Steps, here,
  next,
}

-- The thread that is counted and not created yet, or not at all.
abbrev pub pending : Phase → ℕ
pending accepting = 0
pending accepted = 0
pending counted = 1
pending uncounting = 1
pending stopped = 0

pub record IsCounted (s : Threads) : Type 0 where
  pub counts : s.active_threads ≡ s.handling + pending s.phase
  pub bounded : s.active_threads ≤ max_threads

Step-IsCounted : {s t : Threads} → Step s t → IsCounted s → IsCounted t
Step-IsCounted (no_client p) i = i
Step-IsCounted (accept p) i = record {
  counts = omega (arith, i.counts, ap pending p);
  bounded = i.bounded;
}
Step-IsCounted (reject p full) i = record {
  counts = omega (arith, i.counts, ap pending p);
  bounded = i.bounded;
}
Step-IsCounted (count p room) i = record {
  counts = omega (arith, i.counts, ap pending p);
  bounded = omega arith;
}
Step-IsCounted (create p) i = record {
  counts = omega (arith, i.counts, ap pending p);
  bounded = i.bounded;
}
Step-IsCounted (create_fails p) i = record {
  counts = omega (arith, i.counts, ap pending p);
  bounded = i.bounded;
}
Step-IsCounted (uncount p) i = record {
  counts = omega (arith, i.counts, ap pending p);
  bounded = omega (arith, i.bounded);
}
Step-IsCounted (end_thread h) i = record {
  counts = omega (arith, i.counts, h);
  bounded = omega (arith, i.bounded);
}
Step-IsCounted (terminate p) i = record {
  counts = omega (arith, i.counts, ap pending p);
  bounded = i.bounded;
}

pub Steps-keep_count : {s t : Threads} → Steps s t → IsCounted s → IsCounted t
Steps-keep_count here i = i
Steps-keep_count (next steps step) i = Step-IsCounted step (Steps-keep_count steps i)

-- Whatever the loop and the threads have done, `active_threads` is the number of the threads that
-- handle a client, and one more between its increment and the result of `pthread_create`; it is at
-- most max_threads.
pub Steps-IsCounted : {s : Threads} → Steps idle s → IsCounted s
Steps-IsCounted steps = Steps-keep_count steps (record { counts = refl; bounded = omega arith })

-- The loop has accepted a client. The next step turns it away, and then max_threads threads handle
-- clients; or it counts a thread for it, and then there are fewer; or it is the end of a thread.
pub Steps-admit :
    {s t : Threads}
    → Steps idle s
    → Step s t
    → s.phase ≡ accepted
    → ((t.phase ≡ accepting) × (s.handling ≡ max_threads) × (t.active_threads ≡ s.active_threads))
      ⊎ (((t.phase ≡ counted)
            × (s.handling < max_threads)
            × (t.active_threads ≡ suc s.active_threads))
          ⊎ ((t.phase ≡ accepted) × (s.handling ≡ suc t.handling)))
Steps-admit steps step p = go (Steps-IsCounted steps) step p
  where
    go :
        {s t : Threads}
        → IsCounted s
        → Step s t
        → s.phase ≡ accepted
        → ((t.phase ≡ accepting)
            × (s.handling ≡ max_threads)
            × (t.active_threads ≡ s.active_threads))
          ⊎ (((t.phase ≡ counted)
                × (s.handling < max_threads)
                × (t.active_threads ≡ suc s.active_threads))
              ⊎ ((t.phase ≡ accepted) × (s.handling ≡ suc t.handling)))
    go i (no_client p) q = absurd cc
    go i (accept p) q = absurd cc
    go i (reject p full) q = inl (refl, omega (arith, i.counts, i.bounded, ap pending p), refl)
    go i (count p room) q = inr (inl (refl, omega (arith, i.counts, ap pending p), omega arith))
    go i (create p) q = absurd cc
    go i (create_fails p) q = absurd cc
    go i (uncount p) q = absurd cc
    go i (end_thread h) q = inr (inr (q, h))
    go i (terminate p) q = absurd cc
