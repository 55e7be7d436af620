-- ===== src/Framework/Ending.antt =====
-- How the worker of examples/mpic-framework ends.
use mpic.Prelude.{
  ℕ, zero, suc, ◌≡◌, refl, ◌∙◌, Bool, true, false, List, [], ◌∷◌, ◌++◌, pos, Bytes, replicate,
}
use mathlib.Core.List.{append_assoc}
use mpic.Prelude.State.{Exits, Exits-and_then, Exits-mono}
use mpic.Os.{Os, sleep}
use mpic.Os.Machine.{Machine, called}
use mpic.Farewell.Title.{Named, Told, announce_lem}
use mpic.Framework.{sigterm, run}

module _ {os : Os} (name : Bytes) where
  -- After `n` seconds of the loop the title tells the end, which comes five seconds later.
  pub record Ended (p n : ℕ) (m u : Machine os) : Type 0 where
    pub title : Told p name m u.title
    pub events : u.events ≡ m.events ++ (replicate n (called (sleep 1)) ++ (called (sleep 5) ∷ []))

  sigterm-Ended :
      (p : ℕ) (ps : List ℕ) (m : Machine os)
      → Named p ps m
      → Exits (pos 0) (Ended p 0 m) (sigterm os name m)
  unfolding sigterm
  sigterm-Ended p ps m h =
      let r = announce_lem p ps name m h in rw r.1 (refl, record { title = r.2; events = refl })

  abbrev slept : Machine os → Machine os
  slept m = record m {
    world = (os.sys (sleep 1) m.world).1;
    events = m.events ++ (called (sleep 1) ∷ []);
  }

  -- One more second before.
  after_nap : (p n : ℕ) (m u : Machine os) → Ended p n (slept m) u → Ended p (suc n) m u
  after_nap p n m u e = record {
    title = e.title;
    events =
        e.events
        ∙ append_assoc m.events (called (sleep 1) ∷ [])
            (replicate n (called (sleep 1)) ++ (called (sleep 5) ∷ []));
  }

  -- With the static name known and the title's space set up, a SIGTERM that comes during sleep
  -- `n + 1` of `EchoModule::Run` ends the process with 0. It has slept `n + 1` times for a second and
  -- then once for five, and its title tells that the worker shuts down.
  pub run-Ended :
      (p : ℕ) (ps : List ℕ) (n : ℕ) (cs : List Bool) (m : Machine os)
      → Named p ps m
      → Exits (pos 0) (Ended p (suc n) m) (run os name (replicate n false ++ (true ∷ cs)) m)
  unfolding run
  run-Ended p ps zero cs m h = Exits-and_then (pos 0) (Ended p 1 m) (sigterm os name (slept m)) _ (
      Exits-mono (pos 0) (Ended p 0 (slept m)) (Ended p 1 m) (sigterm os name (slept m))
        (sigterm-Ended p ps (slept m) h) (after_nap p 0 m))
  run-Ended p ps (suc n) cs m h =
      Exits-mono (pos 0) (Ended p (suc n) (slept m)) (Ended p (suc (suc n)) m) _
        (run-Ended p ps n cs (slept m) h) (after_nap p (suc n) m)
