-- ===== src/Bridges/Telegram/Ready.antt =====
-- The rounds of polling that are pending, with the live run of the effect.
use agentleh_app.Base.{
  ℕ, ◌+◌, Bool, true, false, ◌&&◌, List, [], ◌∷◌, Option, none, some, ◌≡◌, ◌≤◌, ◌<◌, refl, arith,
  All,
}
use agentleh_app.Bridges.Telegram.Runs.{count}
use agentleh_app.Bridges.Telegram.{Round, Dialog, is_waiting, is_live}

-- What holds also between an event and the effects that follow it.
pub record Ready (live : Option ℕ) (next : ℕ) (ticks polls : List Round) (closes : List ℕ)
    (waits : Bool) : Type 0 where
  pub single : (i : ℕ) → count i ticks + count i polls ≤ 1
  pub fresh : (i : ℕ) → next ≤ i → count i ticks + count i polls ≡ 0
  pub live_old : (r : ℕ) → live ≡ some r → r < next
  pub closes_old : All (λ c. c < next) closes
  pub closes_done : All (λ c. (is_live c live && waits) ≡ false) closes

abbrev pub IsReady : Dialog → Type 0
IsReady s = Ready s.live s.next_run s.ticks s.polls s.closes (is_waiting s.status)

module _ {live : Option ℕ} {next : ℕ} {ticks polls : List Round} {closes : List ℕ} {waits : Bool}
    (h : Ready live next ticks polls closes waits) where
  -- A dialog that does not wait.
  pub Ready-still : Ready live next ticks polls closes false
  Ready-still = record {
    single = h.single;
    fresh = h.fresh;
    live_old = h.live_old;
    closes_old = h.closes_old;
    closes_done = still closes;
  }
    where
      still : (cs : List ℕ) → All (λ c. (is_live c live && false) ≡ false) cs
      still [] = tt
      still (c ∷ cs) = (ground arith, still cs)

  -- Rounds that are no more than before.
  pub Ready-fewer :
      (ticks' polls' : List Round)
      → ((i : ℕ) → count i ticks' + count i polls' ≤ count i ticks + count i polls)
      → Ready live next ticks' polls' closes waits
  Ready-fewer ticks' polls' fewer = record {
    single = λ i. omega (arith, h.single i, fewer i);
    fresh = λ i l. omega (arith, h.fresh i l, fewer i);
    live_old = h.live_old;
    closes_old = h.closes_old;
    closes_done = h.closes_done;
  }

-- A dialog with no live run.
pub Ready-none :
    {live : Option ℕ} {next : ℕ} {ticks polls : List Round} {closes : List ℕ} {waits : Bool}
    (waits' : Bool)
    → Ready live next ticks polls closes waits
    → Ready none next ticks polls closes waits'
Ready-none {closes} waits' h = record {
  single = h.single;
  fresh = h.fresh;
  live_old = λ r e. absurd (ground arith);
  closes_old = h.closes_old;
  closes_done = off closes;
}
  where
    off : (cs : List ℕ) → All (λ c. (is_live c none && waits') ≡ false) cs
    off [] = tt
    off (c ∷ cs) = (refl, off cs)

-- A new run with its first round.
pub Ready-armed :
    {next : ℕ} {ticks polls : List Round} {closes : List ℕ} {waits : Bool} (d : ℕ)
    → Ready none next ticks polls closes waits
    → Ready
        (some next)
        (next + 1)
        (record { effect_run = next; deadline = d; first = true } ∷ ticks)
        polls
        closes
        true
Ready-armed {next} {ticks} {polls} {closes} d h = record {
  single = λ i. ground (arith, h.single i, h.fresh i);
  fresh = λ i l. ground (arith, h.fresh i);
  live_old = λ r e. ground arith;
  closes_old = older closes h.closes_old;
  closes_done = other closes h.closes_old;
}
  where
    older : (cs : List ℕ) → All (λ c. c < next) cs → All (λ c. c < next + 1) cs
    older [] k = tt
    older (c ∷ cs) (k, ks) = (omega arith, older cs ks)

    other :
        (cs : List ℕ)
        → All (λ c. c < next) cs
        → All (λ c. (is_live c (some next) && true) ≡ false) cs
    other [] k = tt
    other (c ∷ cs) (k, ks) = (ground arith, other cs ks)
