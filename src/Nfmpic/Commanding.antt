-- ===== src/Nfmpic/Commanding.antt =====
-- The whole process of apps/nfmpic on Linux, where the command line asks for a command to a daemon.
use mpic.Prelude.{
  ◌≡◌, refl, sym, ap, subst, ◌∙◌, ◌++◌, ◌∷◌, [], ℕ, Bool, true, false, ◌||◌, Option, some, List,
  Bytes, ℤ, negsuc, is_empty, is_negative, is_positive, if◌then◌else◌, if_not,
}
use mathlib.Core.Option
use mathlib.Core.List.{append_assoc}
use mpic.Prelude.State.{
  Returns, Returns-and_then, Returns-mono, and_then, modify, ◌>>◌, pure, returned,
}
use mpic.Os.{Os, Call, ignore_sigpipe, daemon_pid_file_is_running}
use mpic.Os.Machine.{Machine, called}
use mpic.Os.Machine
use mpic.Options
use mpic.Options.{Options, new_options, VariablesMap}
use mpic.Options.Given.{read_options-AsGiven}
use mpic.Options.Starting.{given_options, Ready, checks}
use mpic.Options.Named.{Linked, AllAbsolute, StartedNamed, init-StartedNamed}
use mpic.Master.{State, lift}
use mpic.Master.Daemon
use mpic.Master.Frame.{calls, calls-append}
use mpic.Master.Loader.Parts.{lift_known}
use mpic.Master.Lifting.{lift-Returns, with_option}
use mpic.Master.Daemon.Commands.{Command, command_of, obeyed, Answer}
use mpic.Master.Daemon.Ordering.{commanding, verdict, run-Answer}
use mpic.StartUp
use mpic.Nfmpic.{Parser, base_part, ServiceMap, on_startup, main, program}

-- SIGPIPE is ignored by one call.
abbrev ignoring : {os : Os} → Machine os → Machine os
ignoring {os} m = record m {
  world = (os.sys ignore_sigpipe m.world).1;
  events = m.events ++ called ignore_sigpipe ∷ [];
}

library_startup :
    {os : Os} (m : Machine os)
    → is_negative (os.sys ignore_sigpipe m.world).0 ≡ false
    → StartUp.on_startup os m ≡ returned tt (ignoring m)
unfolding StartUp.on_startup
library_startup m e = rw e refl

own_startup :
    {os : Os} (m : Machine os)
    → is_negative (os.sys ignore_sigpipe m.world).0 ≡ false
    → on_startup os m ≡ returned tt (ignoring m)
unfolding on_startup
own_startup m e = rw e refl

-- The title's `Init` makes no call but `malloc`.
init_title-quiet :
    {os : Os} (m : Machine os)
    → m.title.attached ≡ false
    → Returns (λ _ n. n.events ≡ m.events) (Machine.init_title os m)
unfolding Machine.init_title
init_title-quiet m fresh =
    subst (Returns (λ _ n. n.events ≡ m.events)) (sym (if_not _ _ m.title.attached fresh)) refl

module _ {os : Os} (s : State os) (argv : List Bytes) (vm : VariablesMap) where
  abbrev at_run : Machine os → State os
  at_run m = record s {
    machine = m;
    option = record (given_options argv vm) { initialized = true };
  }

  abbrev Begun : Machine os → Bool → State os → Type 0
  Begun m ok u =
      (n : Machine os) × (ok ≡ true)
      × (u ≡ at_run n)
      × (n.events ≡ m.events ++ checks (given_options argv vm))
      × (is_empty n.exe_name ≡ false)

  init-Begun :
      (K : Linked os) (parse : List Bytes → Option VariablesMap)
      (R : Ready os (given_options argv vm)) (m : Machine os)
      → m.title.attached ≡ false
      → parse argv ≡ some vm
      → vm.help ≡ false
      → AllAbsolute vm
      → Returns (Begun m) (Daemon.init os parse argv new_options (record s { machine = m }))
  unfolding Daemon.init
  init-Begun K parse R m fresh parsed no_help given =
      let t : State os = record s { machine = m; option = new_options } in
      Returns-and_then _ (Begun m) (lift os (Machine.init_title os) t) _
        (lift-Returns (λ _ n. n.events ≡ m.events) (Machine.init_title os) t
          (init_title-quiet m fresh))
        (λ _ u (n, e, ev).
          subst
            (λ v. Returns (Begun m) (
              and_then (lift os (Options.init os parse argv new_options) v)
                (λ r. do modify (with_option r.1); pure r.0)))
            (sym e)
            (Returns-and_then _ (Begun m)
              (lift os (Options.init os parse argv new_options) (record t { machine = n })) _
              (lift-Returns (StartedNamed (given_options argv vm) n)
                (Options.init os parse argv new_options) (record t { machine = n })
                (init-StartedNamed K parse argv vm R n parsed no_help given))
              (λ r u (k, f, a). (
                k,
                ap (λ x. x.0) a.0,
                ap (with_option r.1) f ∙ ap (λ x. with_option x.1 (record s { machine = k })) a.0,
                a.1 ∙ ap (λ es. es ++ checks (given_options argv vm)) ev,
                a.2,
              ))))

  abbrev pub command : Command
  command = command_of vm.kill vm.reload

  ordered_run :
      (vm.kill || (vm.reload || vm.status)) ≡ true
      → ((given_options argv vm).kill
          || ((given_options argv vm).reload || (given_options argv vm).status))
        ≡ true
  ordered_run h = let g = read_options-AsGiven argv vm in rw (g.2, g.3, g.4) h

  same_command : command_of (given_options argv vm).kill (given_options argv vm).reload ≡ command
  same_command = let g = read_options-AsGiven argv vm in rw (g.2, g.3) refl

  main-Answer :
      (K : Linked os) (parse : Parser) (sm : ServiceMap) (R : Ready os (given_options argv vm))
      (up done : Bool) (rounds fuel : ℕ) (m : Machine os)
      → m.title.attached ≡ false
      → parse argv ≡ some (vm, sm)
      → vm.help ≡ false
      → AllAbsolute vm
      → (vm.kill || (vm.reload || vm.status)) ≡ true
      → ((w : os.World) → is_positive (os.sys daemon_pid_file_is_running w).0 ≡ up)
      → ((w : os.World) → obeyed os command w ≡ done)
      → Returns
          (Answer
            (record s { machine = m })
            (calls (checks (given_options argv vm)) ++ commanding command up)
            (verdict up done))
          (main os parse rounds fuel argv (record s { machine = m }))
  unfolding main
  main-Answer K parse sm R up done rounds fuel m fresh parsed no_help given ordered is_up is_done =
      Returns-and_then (Begun m) Answered
        (Daemon.init os (base_part parse) argv new_options (record s { machine = m })) _
        (init-Begun K (base_part parse) R m fresh (ap (Option.map (λ v. v.0)) parsed) no_help given)
        (λ ok u (n, d, e, ev, known).
          subst
            (λ b. Returns Answered ((if b then Daemon.run os rounds fuel else pure (negsuc 0)) u))
            (sym d)
            (subst (λ v. Returns Answered (Daemon.run os rounds fuel v)) (sym e)
              (Returns-mono (Answer (at_run n) (commanding command up) (verdict up done)) Answered _
                (run-Answer (at_run n) command up done rounds fuel known (ordered_run ordered)
                  same_command is_up is_done)
                (λ c t a. (a.0, a.1 ∙ asked_after n ev, a.2, a.3)))))
    where
      Answered : ℤ → State os → Type 0
      Answered =
          Answer (record s { machine = m })
            (calls (checks (given_options argv vm)) ++ commanding command up) (verdict up done)

      asked_after :
          (n : Machine os)
          → n.events ≡ m.events ++ checks (given_options argv vm)
          → calls n.events ++ commanding command up
            ≡ calls m.events ++ (calls (checks (given_options argv vm)) ++ commanding command up)
      asked_after n ev =
          ap (λ es. calls es ++ commanding command up) ev
          ∙ (ap (λ cs. cs ++ commanding command up)
                (calls-append m.events (checks (given_options argv vm)))
              ∙ append_assoc (calls m.events) (calls (checks (given_options argv vm)))
                  (commanding command up))

  -- All calls of the process.
  abbrev pub commanding_calls : Bool → List Call
  commanding_calls up =
      ignore_sigpipe ∷ ignore_sigpipe ∷ calls (checks (given_options argv vm))
      ++ commanding command up

  -- On a command line with absolute paths that asks for kill, reload or status and for no help, where
  -- SIGPIPE can be ignored, the link to the program names it, the title is not set up yet, and the log
  -- directory and the files are there: the process of nfmpic ignores SIGPIPE twice, tests the files,
  -- asks whether a daemon is up, and only if one is makes the one call of the first of the orders. It
  -- returns 0 if a daemon is up and obeys, and 1 otherwise, and has started no process.
  pub program-Answer :
      (K : Linked os) (parse : Parser) (sm : ServiceMap) (R : Ready os (given_options argv vm))
      (up done : Bool) (rounds fuel : ℕ)
      → ((w : os.World) → is_negative (os.sys ignore_sigpipe w).0 ≡ false)
      → s.machine.title.attached ≡ false
      → parse argv ≡ some (vm, sm)
      → vm.help ≡ false
      → AllAbsolute vm
      → (vm.kill || (vm.reload || vm.status)) ≡ true
      → ((w : os.World) → is_positive (os.sys daemon_pid_file_is_running w).0 ≡ up)
      → ((w : os.World) → obeyed os command w ≡ done)
      → Returns
          (Answer s (commanding_calls up) (verdict up done))
          (program os parse rounds fuel argv s)
  unfolding program
  program-Answer K parse sm R up done rounds fuel pipe fresh parsed no_help given ordered is_up
        is_done =
      let m = ignoring s.machine in
      subst
        (λ o.
          Returns Answered
            (and_then o (λ _. do lift os (on_startup os); main os parse rounds fuel argv)))
        (sym (lift_known (StartUp.on_startup os) s tt m (library_startup s.machine (pipe _))))
        (subst (λ o. Returns Answered (and_then o (λ _. main os parse rounds fuel argv)))
          (sym (
            lift_known (on_startup os) (record s { machine = m }) tt (ignoring m)
              (own_startup m (pipe _))))
          (Returns-mono _ Answered
            (main os parse rounds fuel argv (record s { machine = ignoring m }))
            (main-Answer K parse sm R up done rounds fuel (ignoring m) fresh parsed no_help given
              ordered is_up is_done)
            (λ c t a. (a.0, a.1 ∙ simp (calls-append, append_assoc), a.2, a.3))))
    where
      Answered : ℤ → State os → Type 0
      Answered = Answer s (commanding_calls up) (verdict up done)
