-- ===== src/Server/Threads/Drains.antt =====
-- The server can always become idle.
use nvhttpd.Base.{ℕ, zero, suc, ◌-◌, ◌≡◌, refl, ap, ◌⊎◌, inl, inr, arith, le_or_lt}
use nvhttpd.Server.Threads.{
  max_threads, Phase, accepting, accepted, counted, uncounting, stopped, Threads, Step, reject,
  count, create, uncount, end_thread, idle, Steps, here, next,
}
use nvhttpd.Server.Threads.Counts.{Steps-IsCounted, Steps-keep_count, pending}

joined : {s t u : Threads} → Steps s t → Steps t u → Steps s u
joined first here = first
joined first (next steps step) = next (joined first steps) step

-- Some state that the server can come to, with this property.
abbrev pub Reaches : (Threads → Type 0) → Threads → Type 0
Reaches P s = (t : Threads) × Steps s t × P t

Reaches-step : {P : Threads → Type 0} {s t : Threads} → Step s t → Reaches P t → Reaches P s
Reaches-step step (u, steps, p) = (u, joined (next here step) steps, p)

-- The loop comes back to `http_accept`, or has ended.
abbrev pub AtRest : Threads → Type 0
AtRest s = (s.phase ≡ accepting) ⊎ (s.phase ≡ stopped)

AtRest-Reaches : (s : Threads) (p : Phase) → s.phase ≡ p → Reaches AtRest s
AtRest-Reaches s accepting p = (s, here, inl p)
AtRest-Reaches s accepted p = elim (le_or_lt max_threads s.active_threads) [
  | inl full ↦ Reaches-step (reject p full) (_, here, inl refl)
  | inr room ↦ Reaches-step (count p room) (Reaches-step (create refl) (_, here, inl refl))
]
AtRest-Reaches s counted p = Reaches-step (create p) (_, here, inl refl)
AtRest-Reaches s uncounting p = Reaches-step (uncount p) (_, here, inl refl)
AtRest-Reaches s stopped p = (s, here, inr p)

AllEnded-Reaches :
    (n : ℕ) (s : Threads) → s.handling ≡ n → AtRest s → Reaches (λ t. AtRest t × (t.handling ≡ 0)) s
AllEnded-Reaches zero s h rest = (s, here, (rest, h))
AllEnded-Reaches (suc n) s h rest = Reaches-step (end_thread h) (
    AllEnded-Reaches n (record s { active_threads = s.active_threads - 1; handling = n }) refl rest)

AtRest-pending : (s : Threads) → AtRest s → pending s.phase ≡ 0
AtRest-pending s (inl p) = ap pending p
AtRest-pending s (inr p) = ap pending p

-- No thread runs, none is counted, and the loop is at `http_accept` or has ended.
pub record IsIdle (s : Threads) : Type 0 where
  pub rest : AtRest s
  pub none_left : s.handling ≡ 0
  pub none_counted : s.active_threads ≡ 0

-- From every state that the server comes to, it can come to an idle one, where no thread runs, none
-- is counted, and the loop is at `http_accept` or has ended.
pub IsIdle-Reaches : {s : Threads} → Steps idle s → Reaches IsIdle s
IsIdle-Reaches {s} steps =
    let (t, first, rest) = AtRest-Reaches s s.phase refl in
    let (u, second, (rest', none_left)) = AllEnded-Reaches t.handling t refl rest in
    let i = Steps-keep_count (joined first second) (Steps-IsCounted steps) in
    (
      u,
      joined first second,
      record {
        rest = rest';
        none_left = none_left;
        none_counted = omega (arith, i.counts, none_left, AtRest-pending u rest');
      },
    )
