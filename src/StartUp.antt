-- ===== src/StartUp.antt =====
-- mpic/internal/inner_pre.cc: the static object whose constructor runs before `main`.
use mpic.Prelude.{negsuc, if◌then◌else◌, is_negative}
use mpic.Prelude.State.{exited, ◌>>=◌, pure}
use mpic.Os.{Os, ignore_sigpipe}
use mpic.Os.Machine.{M, sys}

-- `OnStartup::OnStartup`; a negative result of `signal` is SIG_ERR.
unfoldable pub on_startup : (os : Os) → M os (Unit {0})
on_startup os = do
  old ← sys os ignore_sigpipe
  if is_negative old then exited (negsuc 0) else pure tt
