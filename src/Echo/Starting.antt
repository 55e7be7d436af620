-- ===== src/Echo/Starting.antt =====
-- `EchoModule::InitInWorker` of apps/modules/echo/echo_module.cc, and `Run` after it.
use mpic.Prelude.{
  ℕ, suc, ◌≡◌, refl, sym, ap, subst, ◌∙◌, Bool, true, false, List, [], ◌∷◌, ◌++◌, ℤ, pos, bytes,
  replicate, map, drop, length,
}
use mathlib.Core.List.{append_assoc, append-nil, map-append}
use mpic.Prelude.State.{
  and_then, Returns-map_state, Returns, Returns-and_then, Returns-mono, Returns-Leaves, Leaves,
}
use mpic.Os.{Os, catch_sigterm}
use mpic.Os.Machine.{Machine, called}
use mpic.Servers
use mpic.Servers.{
  Evpp, Resource, Action, Server, base_loop, tcp, udp, http, start, after_fork, handle_http,
  handle_udp, handle_tcp_connections, handle_tcp_messages, after_forking, call, start_server,
  run_servers, is_set,
}
use mpic.Servers.Ready.{
  IsWhole, AllStart, Ready, forked, started, call-Ready, after_forking-Ready, run_servers-Ready,
}
use mpic.Servers.Waiting.{Drains}
use mpic.Servers.Stopping.{shutdown}
use mpic.Echo.{
  Worker, Step, of_process, of_servers, Routine, in_resource, init_in_worker, run, serve,
}
use mpic.Farewell.Title.{Named, Told}
use mpic.Echo.Tracing.{traced}
use mpic.Echo.Running.{Patient, Stopped, naps, stopping, run-Stopped}

-- What the handlers ask of the servers.
abbrev pub handlers : List Action
handlers =
    handle_http (bytes "/echo") ∷ handle_udp ∷ handle_tcp_connections ∷ handle_tcp_messages ∷ []

-- All handlers are set before the first server starts.
abbrev pub startup : List Action
startup = forked ++ handlers ++ started

-- A stop of servers that were all made.
whole-stopping :
    {ev : Evpp} (r : Resource ev) → IsWhole r → stopping r ≡ shutdown true true true true
whole-stopping r h = rw (h.0, h.1, h.2, h.3) refl

module _ {os : Os} {ev : Evpp} (w : Worker os ev) where
  -- The machine once the handler of SIGTERM is set.
  abbrev pub caught : Machine os
  caught = record w.machine {
    world = (os.sys catch_sigterm w.machine.world).1;
    events = w.machine.events ++ (called catch_sigterm ∷ []);
  }

  -- The trace where the servers were asked for `ds` after that.
  abbrev begun_trace : List Action → List Step
  begun_trace ds = w.trace ++ of_process (called catch_sigterm) ∷ map of_servers ds

  -- The state in which the servers were asked for `ds`.
  pub record Begun (ds : List Action) (u : Worker os ev) : Type 0 where
    pub machine : u.machine ≡ caught
    pub running : u.running ≡ w.running
    pub option : u.option ≡ w.option
    pub ready : Ready (w.resource.acts ++ ds) u.resource
    pub trace : u.trace ≡ begun_trace ds

  begun_trace-append :
      (ds es : List Action) → begun_trace ds ++ map of_servers es ≡ begun_trace (ds ++ es)
  begun_trace-append ds es =
      append_assoc w.trace (of_process (called catch_sigterm) ∷ map of_servers ds)
        (map of_servers es)
      ∙ ap (λ fs. w.trace ++ of_process (called catch_sigterm) ∷ fs)
          (sym (map-append of_servers ds es))

  -- A part of `InitInWorker` that asks the servers for `es`, and what follows it.
  then_resource :
      {A : Type 0} (f : Servers.Routine ev A) (ds es : List Action) (u : Worker os ev)
      (rest : A → Routine os ev Bool)
      → ((cs : List Action) (r : Resource ev)
          → Ready cs r
          → Returns (λ _ t. Ready (cs ++ es) t) (f r))
      → Begun ds u
      → ((a : A) (v : Worker os ev)
          → Begun (ds ++ es) v
          → Returns (λ ok v. (ok ≡ true) × Begun startup v) (rest a v))
      → Returns (λ ok v. (ok ≡ true) × Begun startup v) (and_then (in_resource os ev f u) rest)
  then_resource f ds es u rest g b k =
      Returns-and_then (λ _ v. Begun (ds ++ es) v) (λ ok v. (ok ≡ true) × Begun startup v)
        (in_resource os ev f u) rest
        (Returns-map_state (λ _ t. Ready ((w.resource.acts ++ ds) ++ es) t)
          (λ _ v. Begun (ds ++ es) v)
          (λ r. record u {
            resource = r;
            trace = u.trace ++ map of_servers (drop (length u.resource.acts) r.acts);
          })
          (f u.resource) (g (w.resource.acts ++ ds) u.resource b.ready)
          (λ _ t q. record {
            machine = b.machine;
            running = b.running;
            option = b.option;
            ready = (q.0 ∙ append_assoc w.resource.acts ds es, q.1);
            trace =
                traced of_servers u.trace u.resource.acts t.acts es
                  (q.0 ∙ ap (λ cs. cs ++ es) (sym b.ready.0))
                ∙ (ap (λ tr. tr ++ map of_servers es) b.trace ∙ begun_trace-append ds es);
          }))
        k

  -- With all pointers of the resource set, and servers that start, `InitInWorker` returns true. It
  -- has called `AfterFork` of each server, set all handlers, and only then started the servers; the
  -- handler of SIGTERM was set before that.
  pub init_in_worker-Begun :
      IsWhole w.resource
      → AllStart ev
      → Returns (λ ok v. (ok ≡ true) × Begun startup v) (init_in_worker os ev w)
  unfolding init_in_worker
  init_in_worker-Begun h s =
      then_resource (after_forking ev) [] forked _ _ after_forking-Ready
        (record {
          machine = refl;
          running = refl;
          option = refl;
          ready = (sym (append-nil w.resource.acts), h);
          trace = traced of_process w.trace w.machine.events _ (called catch_sigterm ∷ []) refl;
        })
        (λ _ u b.
          then_resource (call ev (λ _. handle_http (bytes "/echo")) http) _
            (handle_http (bytes "/echo") ∷ []) u _
            (call-Ready (λ _. handle_http (bytes "/echo")) http) b
            (λ _ u b.
              then_resource (call ev (λ _. handle_udp) udp) _ (handle_udp ∷ []) u _
                (call-Ready (λ _. handle_udp) udp) b
                (λ _ u b.
                  then_resource (call ev (λ _. handle_tcp_connections) tcp) _
                    (handle_tcp_connections ∷ []) u _ (call-Ready (λ _. handle_tcp_connections) tcp)
                    b
                    (λ _ u b.
                      then_resource (call ev (λ _. handle_tcp_messages) tcp) _
                        (handle_tcp_messages ∷ []) u _ (call-Ready (λ _. handle_tcp_messages) tcp) b
                        (λ _ u b.
                          then_resource (run_servers ev) _ started u _ (run_servers-Ready s) b
                            (λ _ u b. (refl, b)))))))

  -- What the worker has done at its end, `n` sleeps among it, and what it leaves.
  pub record Lived (p n : ℕ) (result : ℤ) (u : Worker os ev) : Type 0 where
    pub code : result ≡ pos 0
    pub running : u.running ≡ false
    pub acts : u.resource.acts ≡ w.resource.acts ++ startup ++ shutdown true true true true
    pub events : u.machine.events ≡ w.machine.events ++ called catch_sigterm ∷ naps n
    pub trace :
        u.trace
        ≡ w.trace
          ++ (of_process (called catch_sigterm) ∷ map of_servers startup
              ++ (map of_process (naps n) ++ map of_servers (shutdown true true true true)))
    pub title : Told p w.option.name w.machine u.machine.title

  lived : (p n : ℕ) (u v : Worker os ev) → Begun startup u → Stopped p n u v → Lived p n (pos 0) v
  lived p n u v b q = record {
    code = refl;
    running = q.running;
    acts = q.acts ∙ rw (b.ready.0, whole-stopping u.resource b.ready.1) refl;
    events =
        q.events
        ∙ (ap (λ m. m.events ++ naps n) b.machine
            ∙ append_assoc w.machine.events (called catch_sigterm ∷ []) (naps n));
    trace =
        q.trace
        ∙ (rw (b.trace, whole-stopping u.resource b.ready.1)
            (append_assoc w.trace (of_process (called catch_sigterm) ∷ map of_servers startup)
              (map of_process (naps n) ++ map of_servers (shutdown true true true true))));
    title =
        subst (λ o. Told p o.name w.machine v.machine.title) b.option
          (subst (λ m. Told p u.option.name m v.machine.title) b.machine q.title);
  }

  -- With the static name known, the title's space set up, all pointers of the resource set, servers
  -- that start, and that stop in time after it, `InitInWorker` and `Run` return 0 if a SIGTERM comes
  -- during sleep `n + 1`. In one order for the process and the servers, the worker has set the handler
  -- of SIGTERM, called `AfterFork`, set the handlers, started the servers, slept so often, and only
  -- then paused and stopped the servers; and its title tells that it shuts down.
  pub serve-Lived :
      (D : Drains ev) (p : ℕ) (ps : List ℕ) (n : ℕ) (cs : List Bool) (fuel : ℕ)
      → Named p ps w.machine
      → w.running ≡ true
      → IsWhole w.resource
      → AllStart ev
      → Leaves (λ v. Patient D fuel v.resource) (init_in_worker os ev w)
      → Returns (Lived p (suc n)) (serve os ev (replicate n false ++ true ∷ cs) fuel w)
  unfolding serve
  serve-Lived D p ps n cs fuel named r h s told =
      Returns-and_then (λ ok v. ((ok ≡ true) × Begun startup v) × Patient D fuel v.resource)
        (Lived p (suc n)) (init_in_worker os ev w) _
        (Returns-Leaves _ _ (init_in_worker os ev w) (init_in_worker-Begun h s) told)
        (λ _ u ((ok, b), patient).
          Returns-mono _ (Lived p (suc n)) (run os ev (replicate n false ++ true ∷ cs) fuel u)
            (run-Stopped D p ps n cs fuel u (subst (Named p ps) (sym b.machine) named)
              (b.running ∙ r) patient)
            (λ _ v q. subst (λ c. Lived p (suc n) c v) (sym q.0) (lived p (suc n) u v b q.1)))
