-- ===== src/Tests/Supervision.antt =====
-- The theorems on the main loop, at two workers.
use mpic.Prelude.{
  ℕ, ◌≡◌, refl, ◌||◌, true, false, some, List, [], ◌∷◌, arith, pos, bytes, ◌==◌, inl,
}
use mpic.Prelude.State.{Returns, Leaves}
use mpic.Os.{Signal, sigchld, sighup, sigterm}
use mpic.DynLib.{get_symbol, symbol_found}
use mpic.Options.{Options, new_options}
use mpic.Master.{State}
use mpic.Master.Frame.{calls}
use mpic.Master.Processes.{ProcessMap, has, insert, erase}
use mpic.Master.Loader.{init_module}
use mpic.Master.Workers.{spawn_child_workers, kill_children}
use mpic.Master.Signals.{
  replace_workers, handle_sigchld, handle_sighub, handle_sigterm, main_loop, round,
}
use mpic.Master.Signals.Supervised.{Supervised}
use mpic.Master.Signals.Reaping.{handle_sigchld-Supervised}
use mpic.Master.Signals.Replacing.{Replaced}
use mpic.Master.Signals.Reload.{handle_sighub-Replaced, handle_sighub_refused}
use mpic.Master.Signals.Shutdown.{Terminated, handle_sigterm-Terminated, main_loop_stops}
use mpic.Master.Signals.Calm.{main_loop_calm}
use mpic.Master.Signals.Lifetime.{Rounds, start, next, Rounds-Between, Between}
use mpic.Tests.Posix.{posix, kernel, quiet}

abbrev pub op : Options
op = record new_options { worker_processes = pos 2; name = bytes "op" }

abbrev pub processes : List ℕ → ProcessMap
processes [] = []
processes (p ∷ ps) = (p, record { pid = p }) ∷ processes ps

-- Two children, 101 and 102; `ps` run and `qs` are exiting.
abbrev pub master : List ℕ → List ℕ → List ℕ → List Signal → State posix
master ps qs dead signals = record {
  machine = record {
    world = record { next = 102; live = λ p. p == 101 || p == 102; dead = dead; signals = signals };
    events = [];
    exe_name = bytes "nfmpic";
    flags_log_dir = bytes "/tmp/";
    title = record { mem = λ a. 0; argv = []; environ = []; attached = true; g_last = 0 };
  };
  option = op;
  resource = 1;
  module_ptr = 1;
  dlmodule = some (record { handler = 7; dll_path = bytes "/tmp/echo.so"; error = [] });
  can_reload = true;
  running = processes ps;
  exiting = processes qs;
}

abbrev pub two_running : List ℕ → List Signal → State posix
two_running = master (101 ∷ 102 ∷ []) []

two_running-Supervised :
    (dead : List ℕ) (signals : List Signal) → Supervised kernel 2 (two_running dead signals)
unfolding has
two_running-Supervised dead signals = record {
  table = record { sorted = omega arith; apart = λ p. ground arith; exact = λ p. ground arith };
  sorted = tt;
  count = refl;
}

handle_sigchld-Supervised_example :
    Returns
      (λ _ t. Supervised kernel 2 t)
      (handle_sigchld posix 5 op (two_running (101 ∷ 102 ∷ []) []))
handle_sigchld-Supervised_example =
    handle_sigchld-Supervised kernel quiet op 2 5 (two_running (101 ∷ 102 ∷ []) [])
      (two_running-Supervised (101 ∷ 102 ∷ []) []) (omega arith)

handle_sighub-Replaced_example :
    Returns
      (λ _ u. Replaced kernel 2 (processes (101 ∷ 102 ∷ [])) [] 1 u)
      (handle_sighub posix op (two_running [] []))
unfolding init_module get_symbol symbol_found
handle_sighub-Replaced_example =
    handle_sighub-Replaced kernel op 2 (two_running [] []) _ (two_running-Supervised [] []) refl
      refl refl refl

-- One worker runs, and one is exiting.
abbrev pub half_exiting : List ℕ → List Signal → State posix
half_exiting = master (101 ∷ []) (102 ∷ [])

half_exiting-Supervised :
    (dead : List ℕ) (signals : List Signal) → Supervised kernel 1 (half_exiting dead signals)
unfolding has
half_exiting-Supervised dead signals = record {
  table = record { sorted = omega arith; apart = λ p. ground arith; exact = λ p. ground arith };
  sorted = omega arith;
  count = refl;
}

handle_sighub_refused_example :
    Returns
      (λ _ u.
        Supervised kernel 1 u
        × (u.running ≡ processes (101 ∷ []))
        × (u.exiting ≡ processes (102 ∷ []))
        × (u.module_ptr ≡ 1)
        × (calls u.machine.events ≡ []))
      (handle_sighub posix op (half_exiting [] []))
handle_sighub_refused_example =
    handle_sighub_refused kernel op 1 (half_exiting [] []) (half_exiting [] [])
      (half_exiting-Supervised [] []) (inl refl)

handle_sigterm-Terminated_example :
    Returns
      (λ _ u. Terminated kernel (two_running [] []) u)
      (handle_sigterm posix (two_running [] []))
handle_sigterm-Terminated_example =
    handle_sigterm-Terminated kernel 2 (two_running [] []) (two_running-Supervised [] [])

-- Both workers are exiting.
abbrev both_exiting : List ℕ → List Signal → State posix
both_exiting = master [] (101 ∷ 102 ∷ [])

both_exiting-Supervised :
    (dead : List ℕ) (signals : List Signal) → Supervised kernel 0 (both_exiting dead signals)
unfolding has
both_exiting-Supervised dead signals = record {
  table = record { sorted = tt; apart = λ p. refl; exact = λ p. ground arith };
  sorted = omega arith;
  count = refl;
}

main_loop_stops_example :
    Returns
      (λ code t. (code ≡ pos 0) × Supervised kernel 0 t)
      (main_loop posix 4 3 op true (both_exiting (101 ∷ []) (sigchld ∷ [])))
main_loop_stops_example =
    main_loop_stops kernel quiet op 0 3 3 17 (both_exiting (101 ∷ []) (sigchld ∷ []))
      (both_exiting-Supervised (101 ∷ []) (sigchld ∷ [])) refl refl (omega arith)

main_loop_calm_example :
    Leaves
      (λ t. (t.running ≡ []) × (calls t.machine.events ≡ []))
      (main_loop posix 4 3 op true (both_exiting [] (sighup ∷ sigterm ∷ [])))
main_loop_calm_example =
    main_loop_calm posix op 4 3 (both_exiting [] (sighup ∷ sigterm ∷ [])) refl refl

-- A worker ends and is replaced, and then the workers are reloaded.
two_rounds :
    (t : State posix) × Rounds quiet op 5 (two_running (101 ∷ []) (sigchld ∷ sighup ∷ [])) false t
unfolding round handle_sigchld handle_sighub init_module get_symbol symbol_found has insert erase
    spawn_child_workers replace_workers kill_children
two_rounds = (_, next (next start (omega arith) refl) (omega arith) refl)

Rounds-Between_example : Between kernel op false two_rounds.0
Rounds-Between_example =
    Rounds-Between kernel op quiet 5 (two_running-Supervised (101 ∷ []) (sigchld ∷ sighup ∷ []))
      two_rounds.1
