-- ===== src/Tests/Echoing.antt =====
-- The theorems on the echo module, over the servers of Tests/Serving.antt.
use mpic.Prelude.{refl, true, false, [], ◌∷◌, bytes, arith}
use mpic.Prelude.State.{Returns}
use mpic.Options.{new_options}
use mpic.Servers.{ask_to_stop, after_forking, run_servers}
use mpic.Echo.{Worker, serve, init_in_worker}
use mpic.Echo.Starting.{Lived, serve-Lived}
use mpic.Tests.Posix.{posix}
use mpic.Tests.Serving.{servers, drains, resource}
use mpic.Tests.Titles.{before}

abbrev worker : Worker posix servers
worker = record {
  machine = record {
    world = record { next = 3; live = λ p. false; dead = []; signals = [] };
    events = [];
    exe_name = bytes "nfmpic";
    flags_log_dir = bytes "/tmp";
    title = before;
  };
  option = record new_options { name = bytes "echo" };
  running = true;
  resource = resource true true;
  trace = [];
}

serve-Lived_example :
    Returns (Lived worker 100 3) (serve posix servers (false ∷ false ∷ true ∷ false ∷ []) 5 worker)
unfolding ask_to_stop init_in_worker run_servers after_forking
serve-Lived_example =
    serve-Lived worker drains 100 (104 ∷ []) 2 (false ∷ []) 5 (refl, refl, omega arith) refl
      (refl, refl, refl, refl) (λ v w. refl) (refl, omega arith)
