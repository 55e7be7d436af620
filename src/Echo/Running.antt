-- ===== src/Echo/Running.antt =====
-- `EchoModule::InitInWorker` and `EchoModule::Run` of apps/modules/echo/echo_module.cc.
use mpic.Prelude.{
  ℕ, zero, suc, ◌<◌, ◌≡◌, refl, sym, ap, ◌∙◌, Bool, true, false, List, [], ◌∷◌, ◌++◌, ℤ, pos,
  replicate, if_not, subst, map, drop, length,
}
use mathlib.Core.List.{append_assoc, append-nil}
use mpic.Prelude.State.{
  aborted, and_then, pure, ◌>>◌, Outcome, returned, Returns, Returns-and_then, Returns-then,
  Returns-mono, Returns-map_state, Leaves,
}
use mpic.Os.{Os, usleep}
use mpic.Os.Machine.{Event, called}
use mpic.Farewell.Title.{Named, Told, announce_lem}
use mpic.Servers.{Evpp, Resource, Action, stop_servers, ask_to_stop}
use mpic.Servers.Waiting.{Drains}
use mpic.Servers.Stopping.{shutdown, stop_servers-Returns}
use mpic.Echo.{
  Worker, of_process, of_servers, Routine, in_resource, on_sigterm, nap, wait_running, run,
}
use mpic.Echo.Tracing.{traced}

-- The sleeps of the loop.
abbrev pub naps : ℕ → List Event
naps n = replicate n (called (usleep 300000))

-- The time that the servers need is below `fuel`.
abbrev pub Patient : {ev : Evpp} → Drains ev → ℕ → Resource ev → Type 0
Patient {ev} D fuel r = Leaves (λ t. D.Told t.world × (D.pending t.world < fuel)) (ask_to_stop ev r)

-- What a stop of these servers asks of them.
abbrev pub stopping : {ev : Evpp} → Resource ev → List Action
stopping r = shutdown r.base_loop r.tcp r.udp r.http

module _ {os : Os} {ev : Evpp} where
  -- After `n` sleeps, in the last of which SIGTERM came.
  pub record Notified (p n : ℕ) (w u : Worker os ev) : Type 0 where
    pub running : u.running ≡ false
    pub resource : u.resource ≡ w.resource
    pub events : u.machine.events ≡ w.machine.events ++ naps n
    pub trace : u.trace ≡ w.trace ++ map of_process (naps n)
    pub title : Told p w.option.name w.machine u.machine.title

  on_sigterm-Notified :
      (p : ℕ) (ps : List ℕ) (w : Worker os ev)
      → Named p ps w.machine
      → Returns (λ _ u. Notified p 0 w u) (on_sigterm os ev w)
  unfolding on_sigterm
  on_sigterm-Notified p ps w h =
      let r = announce_lem p ps w.option.name w.machine h in
      rw r.1 (record {
        running = refl;
        resource = refl;
        events = sym (append-nil w.machine.events);
        trace =
            traced of_process w.trace w.machine.events w.machine.events []
              (sym (append-nil w.machine.events));
        title = r.2;
      })

  abbrev napped : Worker os ev → Worker os ev
  napped w = record w {
    machine = record w.machine {
      world = (os.sys (usleep 300000) w.machine.world).1;
      events = w.machine.events ++ (called (usleep 300000) ∷ []);
    };
    trace =
        w.trace
        ++ map of_process
            (drop (length w.machine.events) (w.machine.events ++ (called (usleep 300000) ∷ [])));
  }

  napped_trace :
      (w : Worker os ev) → (napped w).trace ≡ w.trace ++ of_process (called (usleep 300000)) ∷ []
  napped_trace w = traced of_process w.trace w.machine.events _ (called (usleep 300000) ∷ []) refl

  -- `Run` leaves the loop once `running` is false.
  leave :
      (cs : List Bool) (w : Worker os ev)
      → w.running ≡ false
      → wait_running os ev cs w ≡ returned tt w
  unfolding wait_running
  leave [] w h = if_not _ _ w.running h
  leave (c ∷ cs) w h = if_not _ _ w.running h

  wait_running-Notified :
      (p : ℕ) (ps : List ℕ) (n : ℕ) (cs : List Bool) (w : Worker os ev)
      → Named p ps w.machine
      → w.running ≡ true
      → Returns
          (λ _ u. Notified p (suc n) w u)
          (wait_running os ev (replicate n false ++ true ∷ cs) w)
  unfolding wait_running nap
  wait_running-Notified p ps zero cs w h r =
      Returns-then (λ _ u. Notified p 1 w u) w.running _ _ r
        (Returns-and_then (λ _ u. Notified p 1 w u) (λ _ u. Notified p 1 w u) (nap os ev true w)
          (λ _. wait_running os ev cs)
          (Returns-mono (λ _ u. Notified p 0 (napped w) u) (λ _ u. Notified p 1 w u)
            (on_sigterm os ev (napped w)) (on_sigterm-Notified p ps (napped w) h)
            (λ _ u s. record {
              running = s.running;
              resource = s.resource;
              events = s.events ∙ append-nil (napped w).machine.events;
              trace = s.trace ∙ (append-nil (napped w).trace ∙ napped_trace w);
              title = s.title;
            }))
          (λ _ u s. subst (Returns (λ _ v. Notified p 1 w v)) (sym (leave cs u s.running)) s))
  wait_running-Notified p ps (suc n) cs w h r =
      Returns-then (λ _ u. Notified p (suc (suc n)) w u) w.running _ _ r
        (Returns-mono (λ _ u. Notified p (suc n) (napped w) u) (λ _ u. Notified p (suc (suc n)) w u)
          _ (wait_running-Notified p ps n cs (napped w) h r)
          (λ _ u s. record {
            running = s.running;
            resource = s.resource;
            events =
                s.events
                ∙ append_assoc w.machine.events (called (usleep 300000) ∷ []) (naps (suc n));
            trace =
                s.trace
                ∙ (ap (λ tr. tr ++ map of_process (naps (suc n))) (napped_trace w)
                    ∙ append_assoc w.trace (of_process (called (usleep 300000)) ∷ [])
                        (map of_process (naps (suc n))));
            title = s.title;
          }))

  -- What `Run` leaves: the title tells that the worker shuts down, and the servers are stopped.
  pub record Stopped (p n : ℕ) (w u : Worker os ev) : Type 0 where
    pub running : u.running ≡ false
    pub acts : u.resource.acts ≡ w.resource.acts ++ stopping w.resource
    pub events : u.machine.events ≡ w.machine.events ++ naps n
    pub trace :
        u.trace ≡ w.trace ++ (map of_process (naps n) ++ map of_servers (stopping w.resource))
    pub title : Told p w.option.name w.machine u.machine.title

  stop_servers-Stopped :
      (D : Drains ev) (p n fuel : ℕ) (w u : Worker os ev)
      → Patient D fuel w.resource
      → Notified p n w u
      → Returns (λ _ v. Stopped p n w v) (in_resource os ev (stop_servers ev fuel) u)
  stop_servers-Stopped D p n fuel w u told s =
      Returns-map_state (λ _ t. t.acts ≡ u.resource.acts ++ stopping u.resource)
        (λ _ v. Stopped p n w v)
        (λ r. record u {
          resource = r;
          trace = u.trace ++ map of_servers (drop (length u.resource.acts) r.acts);
        })
        (stop_servers ev fuel u.resource)
        (stop_servers-Returns D fuel u.resource (subst (Patient D fuel) (sym s.resource) told))
        (λ _ t e. record {
          running = s.running;
          acts = e ∙ ap (λ r. r.acts ++ stopping r) s.resource;
          events = s.events;
          trace =
              traced of_servers u.trace u.resource.acts t.acts (stopping u.resource) e
              ∙ (ap (λ tr. tr ++ map of_servers (stopping u.resource)) s.trace
                  ∙ (append_assoc w.trace (map of_process (naps n))
                        (map of_servers (stopping u.resource))
                      ∙ ap
                          (λ (r : Resource ev).
                            w.trace ++ (map of_process (naps n) ++ map of_servers (stopping r)))
                          s.resource));
          title = s.title;
        })

  -- With the static name known, the title's space set up, and servers that stop in time, a SIGTERM
  -- that comes during sleep `n + 1` makes `Run` return 0. It has slept so often, and only then stopped
  -- the servers that were made, in order; the title tells that the worker shuts down, and `running` is
  -- false.
  pub run-Stopped :
      (D : Drains ev) (p : ℕ) (ps : List ℕ) (n : ℕ) (cs : List Bool) (fuel : ℕ) (w : Worker os ev)
      → Named p ps w.machine
      → w.running ≡ true
      → Patient D fuel w.resource
      → Returns
          (λ code u. (code ≡ pos 0) × Stopped p (suc n) w u)
          (run os ev (replicate n false ++ true ∷ cs) fuel w)
  unfolding run
  run-Stopped D p ps n cs fuel w h r told =
      Returns-and_then (λ _ u. Notified p (suc n) w u) Done
        (wait_running os ev (replicate n false ++ true ∷ cs) w) _
        (wait_running-Notified p ps n cs w h r)
        (λ _ u s.
          subst (λ o. Returns Done (and_then o (λ _. rest)))
            (sym (
              if_not {A = Outcome (Unit {0}) (Worker os ev)} (aborted u) (returned tt u) u.running
                s.running))
            (Returns-and_then (λ _ v. Stopped p (suc n) w v) Done
              (in_resource os ev (stop_servers ev fuel) u) (λ _. pure (pos 0))
              (stop_servers-Stopped D p (suc n) fuel w u told s) (λ _ v q. (refl, q))))
    where
      Done : ℤ → Worker os ev → Type 0
      Done code u = (code ≡ pos 0) × Stopped p (suc n) w u

      rest : Routine os ev ℤ
      rest = do in_resource os ev (stop_servers ev fuel); pure (pos 0)
