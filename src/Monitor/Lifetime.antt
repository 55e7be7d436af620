-- ===== src/Monitor/Lifetime.antt =====
-- The worker of examples/monitor-worker, from the fork to its end.
use mpic.Prelude.{
  ℕ, zero, suc, ◌≤◌, ◌≡◌, refl, ◌∙◌, ap, sym, map, List, [], ◌∷◌, ◌++◌, ℤ, pos, bytes,
}
use mathlib.Core.List.{append_assoc, append-nil}
use mpic.Prelude.State.{Returns, Returns-and_then, Returns-mono, Exits, Exits-Returns}
use mpic.Os.{Os, Call, fork, unblock, getpid, fopen, fprintf, fflush, fclose, sleep}
use mpic.Os.Machine.{Machine, called}
use mpic.Title.Writing.{shown, set-shown}
use mpic.Farewell.Title.{set_title-done}
use mpic.Monitor.{after_fork, spawn_child_worker, sigset}
use mpic.Monitor.Program.{run_worker, write_lines}

-- The calls for `n` lines from line `i` on.
abbrev pub lines : ℕ → ℤ → ℕ → ℕ → List Call
lines f pid i zero = []
lines f pid i (suc n) = getpid ∷ fprintf f i pid ∷ fflush f ∷ sleep 1 ∷ lines f pid (suc i) n

-- The calls of the worker once its log is opened, or not, and what it returns.
abbrev pub written : ℤ → ℕ → List Call
written pid zero = []
written pid (suc f) = lines (suc f) pid 0 5 ++ (fclose (suc f) ∷ [])

abbrev pub code_of : ℕ → ℤ
code_of zero = pos 1
code_of (suc f) = pos 0

abbrev pub open_log : Call
open_log = fopen (bytes "/tmp/mpic.log") (bytes "a+")

module _ {os : Os} (pid : ℤ) where
  -- What the child leaves: its calls, and the title, whose space starts at `p`.
  pub record Logged (p f : ℕ) (m u : Machine os) : Type 0 where
    pub events :
        u.events ≡ m.events ++ map called (fork ∷ unblock sigset ∷ open_log ∷ written pid f)
    pub title :
        (a : ℕ)
        → u.title.mem a
          ≡ shown m.title.mem p m.title.g_last (m.exe_name ++ bytes "(mpic): worker process") a

module _ {os : Os} (pid : ℤ) (id : (w : os.World) → (os.sys getpid w).0 ≡ pid) where
  abbrev Calls : List Call → Machine os → Machine os → Type 0
  Calls cs m u = (u.events ≡ m.events ++ map called cs) × (u.title ≡ m.title)

  write_lines-Calls :
      (f i n : ℕ) (m : Machine os)
      → Returns (λ _ u. Calls (lines f pid i n) m u) (write_lines os f i n m)
  unfolding write_lines
  write_lines-Calls f i zero m = (sym (append-nil m.events), refl)
  write_lines-Calls f i (suc n) m = rw (id m.world) (
      Returns-mono _ (λ _ u. Calls (lines f pid i (suc n)) m u) _ (write_lines-Calls f (suc i) n _)
        (λ _ u c. (c.0 ∙ simp append_assoc, c.1)))

  abbrev Worked : ℕ → Machine os → ℤ → Machine os → Type 0
  Worked f m code u = (code ≡ code_of f) × Calls (open_log ∷ written pid f) m u

  run_worker-Worked :
      (f : ℕ) (m : Machine os)
      → ((w : os.World) → (os.sys open_log w).0 ≡ pos f)
      → Returns (Worked f m) (run_worker os m)
  unfolding run_worker
  run_worker-Worked zero m opens = rw (opens m.world) (refl, (refl, refl))
  run_worker-Worked (suc f) m opens = rw (opens m.world) (
      Returns-and_then (λ _ u. Calls (lines (suc f) pid 0 5) opened u) (Worked (suc f) m)
        (write_lines os (suc f) 0 5 opened) _ (write_lines-Calls (suc f) 0 5 opened)
        (λ _ u c.
          (refl, (ap (λ es. es ++ called (fclose (suc f)) ∷ []) c.0 ∙ simp append_assoc, c.1))))
    where
      opened : Machine os
      opened = record m {
        world = (os.sys open_log m.world).1;
        events = m.events ++ called open_log ∷ [];
      }

  -- On the child's side of the fork, with the title's space set up, the process of the monitor's
  -- worker exits: with 0, after five lines of its log, each flushed and followed by a second of
  -- sleep, if the log can be opened, and otherwise with 1 and without a line. It has unblocked the
  -- signals first, and its title says that it is the worker.
  pub spawn_child_worker-Logged :
      (p f : ℕ) (ps : List ℕ) (m : Machine os)
      → m.title.argv ≡ p ∷ ps
      → p ≤ m.title.g_last
      → (os.sys fork m.world).0 ≡ pos 0
      → ((w : os.World) → (os.sys open_log w).0 ≡ pos f)
      → Exits (code_of f) (Logged pid p f m) (spawn_child_worker os (run_worker os) m)
  unfolding spawn_child_worker after_fork
  spawn_child_worker-Logged p f ps m attached room child opens =
      let text = m.exe_name ++ bytes "(mpic): worker process" in
      let (t, done, shows, _, _, _) = set-shown text m.title p ps attached room in
      let m₁ : Machine os = record m {
        world = (os.sys fork m.world).1;
        events = m.events ++ called fork ∷ [];
      } in
      let m₂ : Machine os = record m₁ {
        title = t;
        world = (os.sys (unblock sigset) m₁.world).1;
        events = m₁.events ++ called (unblock sigset) ∷ [];
      } in
      rw (child, set_title-done text m₁ t done)
        (Exits-Returns ℕ (code_of f) (Worked f m₂) (Logged pid p f m) (run_worker os m₂)
          (run_worker-Worked f m₂ opens)
          (λ c u w. (
            w.0,
            record {
              events = w.1.0 ∙ simp append_assoc;
              title = λ a. ap (λ t. t.mem a) w.1.1 ∙ shows a;
            },
          )))
