-- ===== src/Tests/Forking.antt =====
-- The theorems on the daemonizer, where the fork succeeds and where it does not.
use mpic.Prelude.{refl, [], ◌∷◌, ℤ, pos, negsuc, bytes}
use mpic.Os.{Os, Call, getpid, daemon_fork}
use mpic.Daemonizer.{init, main}
use mpic.Daemonizer.Forking.{Forks, Aborts, forked, init-Forks, main_fork_fails}
use mpic.Tests.Posix.{posix, World}
use mpic.Tests.Starting.{machine, world}

init-Forks_example :
    Forks (machine posix world) (forked (machine posix world)) (init posix (machine posix world))
init-Forks_example = init-Forks (machine posix world)

abbrev answers : Call → World → ℤ × World
answers getpid w = (pos 42, w)
answers daemon_fork w = (negsuc 0, w)
answers _ w = (pos 0, w)

abbrev no_room : Os
no_room = record posix { sys = answers }

main_fork_fails_example :
    Aborts (main no_room (bytes "daemon" ∷ bytes "-d" ∷ []) (machine no_room world))
main_fork_fails_example =
    main_fork_fails (machine no_room world) (bytes "daemon") 42 0 (λ w. refl) (λ w. refl)
