-- ===== src/Echo/Tracing.antt =====
-- The trace of a worker of apps/modules/echo/echo_module.cc.
use mpic.Prelude.{◌≡◌, refl, List, ◌++◌, map, drop, length, drop-length-append}
use mpic.Echo.{Step}

-- What is behind `old` in the new list is what the trace gets.
pub traced :
    {A : Type 0} (f : A → Step) (trace : List Step) (old new more : List A)
    → new ≡ old ++ more
    → trace ++ map f (drop (length old) new) ≡ trace ++ map f more
traced f trace old new more e = rw (e, drop-length-append old more) refl
