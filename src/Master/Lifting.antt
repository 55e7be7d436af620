-- ===== src/Master/Lifting.antt =====
-- Steps of the machine inside the state of the master.
use mpic.Prelude.{◌≡◌, refl}
use mpic.Prelude.State.{Outcome, returned, exited, aborted, unfinished, Returns}
use mpic.Os.{Os}
use mpic.Os.Machine.{Machine, M}
use mpic.Options.{Options}
use mpic.Master.{State, lift}

-- A step that comes back does so inside the state, and changes nothing but the machine.
pub lift-Returns :
    {os : Os} {A : Type 0} (P : A → Machine os → Type 0) (f : M os A) (s : State os)
    → Returns P (f s.machine)
    → Returns (λ a u. (m : Machine os) × (u ≡ record s { machine = m }) × P a m) (lift os f s)
lift-Returns {os} {A} P f s h = of_outcome (f s.machine) h
  where
    of_outcome :
        (o : Outcome A (Machine os))
        → Returns P o
        → Returns
            (λ a u. (m : Machine os) × (u ≡ record s { machine = m }) × P a m)
            (lift os (λ _. o) s)
    of_outcome (returned a m) h = (m, refl, h)
    of_outcome (exited c m) h = h
    of_outcome (aborted m) h = h
    of_outcome (unfinished m) h = h

abbrev pub with_option : {os : Os} → Options → State os → State os
with_option o t = record t { option = o }
