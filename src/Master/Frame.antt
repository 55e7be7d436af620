-- ===== src/Master/Frame.antt =====
-- What the routines that talk to the loaded library leave alone.
use mpic.Prelude.{ℕ, ◌≡◌, refl, ap, ◌∙◌, List, [], ◌∷◌, ◌++◌}
use mpic.Os.{Os, Call}
use mpic.Os.Machine.{Event, called, invoked, Machine}
use mpic.Os.Kernel.{IsKernel}
use mpic.Master.{State}

-- The POSIX and libdaemon calls among the events.
abbrev pub calls : List Event → List Call
calls [] = []
calls (called c ∷ es) = c ∷ calls es
calls (invoked m ∷ es) = calls es

pub calls-append : (es fs : List Event) → calls (es ++ fs) ≡ calls es ++ calls fs
calls-append [] fs = refl
calls-append (called c ∷ es) fs = ap (◌∷◌ c) (calls-append es fs)
calls-append (invoked m ∷ es) fs = calls-append es fs

-- No call was made, and no child came or went.
pub record Still {os : Os} (K : IsKernel os) (m m' : Machine os) : Type 0 where
  pub child : (p : ℕ) → K.child m'.world p ≡ K.child m.world p
  pub calls : calls m'.events ≡ calls m.events

-- Moreover the maps and the options are as they were.
pub record Frame {os : Os} (K : IsKernel os) (s t : State os) : Type 0 where
  pub still : Still K s.machine t.machine
  pub running : t.running ≡ s.running
  pub exiting : t.exiting ≡ s.exiting
  pub option : t.option ≡ s.option

module _ {os : Os} (K : IsKernel os) where
  pub Still-refl : (m : Machine os) → Still K m m
  Still-refl m = record { child = λ p. refl; calls = refl }

  pub Still-trans : {m n o : Machine os} → Still K m n → Still K n o → Still K m o
  Still-trans a b = record { child = λ p. b.child p ∙ a.child p; calls = b.calls ∙ a.calls }

  pub Frame-refl : (s : State os) → Frame K s s
  Frame-refl s = record {
    still = Still-refl s.machine;
    running = refl;
    exiting = refl;
    option = refl;
  }

  pub Frame-trans : {s t u : State os} → Frame K s t → Frame K t u → Frame K s u
  Frame-trans a b = record {
    still = Still-trans a.still b.still;
    running = b.running ∙ a.running;
    exiting = b.exiting ∙ a.exiting;
    option = b.option ∙ a.option;
  }
