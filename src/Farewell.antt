-- ===== src/Farewell.antt =====
-- What the handlers of SIGTERM in apps/modules/echo/echo_module.cc, examples/mpic-framework/main.cc
-- and examples/master-workers/main.cc do first: the title tells that the worker shuts down.
pub mod Title
use mpic.Prelude.{◌++◌, Bytes, bytes}
use mpic.Prelude.State.{◌>>=◌}
use mpic.Os.{Os}
use mpic.Os.Machine.{M, set_title}
use mpic.Options.{get_exe_name}

-- The title, from the static name and the name in the options.
abbrev pub farewell : Bytes → Bytes → Bytes
farewell exe name = exe ++ (bytes "(" ++ (name ++ bytes "): worker process is shutting down ..."))

unfoldable pub announce : (os : Os) → Bytes → M os (Unit {0})
announce os name = do exe ← get_exe_name os; set_title os (farewell exe name)
