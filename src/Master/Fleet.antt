-- ===== src/Master/Fleet.antt =====
-- What the master of mpic/master_linux.cc promises, without its maps, its calls and its signals: two
-- sets of processes, and the steps that change them.
use mpic.Prelude.{ℕ, ◌≡◌, Bool, true, false, ◌||◌}

-- `size` is the number of running processes.
pub record Fleet : Type 0 where
  pub running : ℕ → Bool
  pub exiting : ℕ → Bool
  pub size : ℕ
  pub stopping : Bool

-- A step, for `n` configured workers.
--   tended: workers that have ended are replaced one by one, and exiting ones may go.
--   kept: nothing happens.
--   renewed: with none exiting, `n` new workers run and all of the old ones exit.
--   stopped: from now on none runs, and all that ran exit.
pub data FleetStep (n : ℕ) : Fleet → Fleet → Type 0 where
  tended :
      {f g : Fleet}
      → f.stopping ≡ false
      → g.stopping ≡ false
      → g.size ≡ f.size
      → ((p : ℕ) → g.exiting p ≡ true → f.exiting p ≡ true)
      → FleetStep n f g
  kept :
      {f g : Fleet}
      → g.stopping ≡ f.stopping
      → g.size ≡ f.size
      → ((p : ℕ) → g.running p ≡ f.running p)
      → ((p : ℕ) → g.exiting p ≡ f.exiting p)
      → FleetStep n f g
  renewed :
      {f g : Fleet}
      → g.stopping ≡ f.stopping
      → g.size ≡ n
      → ((p : ℕ) → f.exiting p ≡ false)
      → ((p : ℕ) → g.exiting p ≡ f.running p)
      → FleetStep n f g
  stopped :
      {f g : Fleet}
      → g.stopping ≡ true
      → g.size ≡ 0
      → ((p : ℕ) → g.running p ≡ false)
      → ((p : ℕ) → g.exiting p ≡ (f.running p || f.exiting p))
      → FleetStep n f g

-- Any number of steps.
pub data FleetRun (n : ℕ) (f : Fleet) : Fleet → Type 0 where
  begin : FleetRun n f f
  continue : {g h : Fleet} → FleetRun n f g → FleetStep n g h → FleetRun n f h
