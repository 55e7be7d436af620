-- ===== src/Echo.antt =====
-- apps/modules/echo/echo_module.cc: the module that each worker runs, over the servers of
-- nfmpic_resource.cc. evpp, with its connections and messages, is a parameter.
pub mod Tracing
pub mod Running
pub mod Starting
use mpic.Prelude.{
  ℕ, zero, suc, Bool, true, false, ◌&&◌, ◌||◌, List, [], ◌∷◌, ◌++◌, ℤ, pos, Bytes, bytes, ◌==◌, map,
  if◌then◌else◌, drop, length,
}
use mpic.Prelude.State.{Outcome, returned, unfinished, map_state, ◌>>=◌, ◌>>◌, pure, abort, modify}
use mpic.Os.{Os, catch_sigterm, usleep}
use mpic.Os.Machine.{Machine, M, Event, sys}
use mpic.Options
use mpic.Farewell.{announce}
use mpic.Servers
use mpic.Servers.{
  Evpp, Resource, Action, tcp, udp, http, handle_http, handle_udp, handle_tcp_connections,
  handle_tcp_messages, after_forking, call, run_servers, stop_servers,
}

-- What the worker does: a call of the process, or a request to the servers.
pub data Step : Type 0 where
  of_process : Event → Step
  of_servers : Action → Step

-- A worker: the process, the options of its master, the variable `running`, and the resource. `trace`
-- is read by none of the code: it puts the calls of the process and the requests to the servers, the
-- `events` and the `acts`, in one order.
pub record Worker (os : Os) (ev : Evpp) : Type 0 where
  pub machine : Machine os
  pub option : Options.Options
  pub running : Bool
  pub resource : Resource ev
  pub trace : List Step

abbrev pub Routine : Os → Evpp → Type 0 → Type 0
Routine os ev A = Worker os ev → Outcome A (Worker os ev)

-- What the handlers of the TCP server ask of a connection.
pub data Reply : Type 0 where
  send : Bytes → Reply
  close : Reply

-- `==` of two strings.
unfoldable pub same_text : Bytes → Bytes → Bool
same_text [] [] = true
same_text [] (b ∷ t) = false
same_text (a ∷ s) [] = false
same_text (a ∷ s) (b ∷ t) = (a == b) && same_text s t

-- The two texts that end a connection.
unfoldable pub is_farewell : Bytes → Bool
unfolding same_text
is_farewell s = same_text s (bytes "quit") || same_text s (bytes "exit")

-- `OnTCPMessage`, with all that the buffer holds.
unfoldable pub on_tcp_message : Bytes → List Reply
unfolding is_farewell
on_tcp_message s = send s ∷ (if is_farewell s then close ∷ [] else [])

-- What `HTTPRequestHandler` gives to the callback.
unfoldable pub http_request_handler : Bytes → Bytes → Bytes → Bytes
http_request_handler remote_ip uri body =
    bytes "func=HTTPRequestHandler OK ip="
    ++ (remote_ip ++ (bytes "\n uri=" ++ (uri ++ (bytes "\n body=" ++ (body ++ bytes "\n")))))

-- What `UDPRequestHandler` sends; the text that it builds before is not used.
abbrev pub udp_request_handler : Bytes → Bytes
udp_request_handler msg = msg

module _ (os : Os) (ev : Evpp) where
  -- A part that works on the process, and one that works on the resource: what it adds to the calls
  -- or to the requests goes to the end of the trace.
  abbrev pub in_process : {A : Type 0} → M os A → Routine os ev A
  in_process f w =
      map_state
        (λ m. record w {
          machine = m;
          trace = w.trace ++ map of_process (drop (length w.machine.events) m.events);
        })
        (f w.machine)

  abbrev pub in_resource : {A : Type 0} → Servers.Routine ev A → Routine os ev A
  in_resource f w =
      map_state
        (λ r. record w {
          resource = r;
          trace = w.trace ++ map of_servers (drop (length w.resource.acts) r.acts);
        })
        (f w.resource)

  -- The handler of SIGTERM.
  unfoldable pub on_sigterm : Routine os ev (Unit {0})
  on_sigterm w =
      (do in_process (announce os w.option.name); modify (λ u. record u { running = false })) w

  unfoldable pub init_in_worker : Routine os ev Bool
  init_in_worker = do
    _ ← in_process (sys os catch_sigterm)
    in_resource (after_forking ev)
    _ ← in_resource (call ev (λ _. handle_http (bytes "/echo")) http)
    _ ← in_resource (call ev (λ _. handle_udp) udp)
    _ ← in_resource (call ev (λ _. handle_tcp_connections) tcp)
    _ ← in_resource (call ev (λ _. handle_tcp_messages) tcp)
    in_resource (run_servers ev)
    pure true

  -- A sleep of the loop of `Run`, during which SIGTERM comes or does not.
  unfoldable pub nap : Bool → Routine os ev (Unit {0})
  unfolding on_sigterm
  nap came = do _ ← in_process (sys os (usleep 300000)); if came then on_sigterm else pure tt

  -- The loop of `Run`, with what comes during each sleep.
  unfoldable pub wait_running : List Bool → Routine os ev (Unit {0})
  unfolding nap
  wait_running [] w = if w.running then unfinished w else returned tt w
  wait_running (came ∷ cs) w = if w.running then (do nap came; wait_running cs) w else returned tt w

  -- `Run`; `fuel` bounds the rounds of the last loop of `StopServers`.
  unfoldable pub run : List Bool → ℕ → Routine os ev ℤ
  unfolding wait_running
  run signals fuel = do
    wait_running signals
    (λ w. if w.running then abort w else returned tt w)
    in_resource (stop_servers ev fuel)
    pure (pos 0)

  -- `InitInWorker` and then `Run`, as `SpawnChildWorker` of mpic/master_linux.cc calls them.
  unfoldable pub serve : List Bool → ℕ → Routine os ev ℤ
  unfolding init_in_worker run
  serve signals fuel = do _ ← init_in_worker; run signals fuel
