-- ===== src/Servers.antt =====
-- apps/modules/echo/nfmpic_resource.cc and apps/nfmpic/option.h: the servers of the echo module.
-- The servers themselves are evpp's, and a parameter.
pub mod Startup
pub mod Ready
pub mod Waiting
pub mod Stopping
use mpic.Prelude.{
  ℕ, zero, suc, Bool, true, false, not, List, [], ◌∷◌, ◌++◌, ℤ, pos, Bytes, is_empty, is_positive,
  bytes, if◌then◌else◌,
}
use mpic.Prelude.State.{Outcome, returned, unfinished, ◌>>=◌, ◌>>◌, pure, abort, modify}

-- The fields of `nfmpic::Option`, with their defaults.
pub record Options : Type 0 where
  pub tcp_thread_pool_size : ℤ
  pub http_thread_pool_size : ℤ
  pub tcp_port : ℤ
  pub http_ports : Bytes
  pub udp_ports : Bytes

abbrev pub new_options : Options
new_options = record {
  tcp_thread_pool_size = pos 4;
  http_thread_pool_size = pos 4;
  tcp_port = pos 8070;
  http_ports = bytes "8080,8081";
  udp_ports = bytes "1053,1054";
}

pub data Server : Type 0 where
  base_loop tcp udp http : Server

-- What the code asks of evpp. The TCP server is made with its port and number of threads.
pub data Action : Type 0 where
  make_loop make_http make_udp : Action
  make_tcp : ℤ → ℤ → Action
  init_http init_udp : Bytes → Action
  init_tcp : Action
  after_fork start pause stop is_stopped : Server → Action
  sleep : ℕ → Action
  handle_http : Bytes → Action
  handle_udp handle_tcp_connections handle_tcp_messages : Action

-- A `bool` where the action has none is not read.
pub record Evpp : Type 1 where
  pub World : Type 0
  pub act : Action → World → Bool × World

-- Whether each pointer of the object is set, and the actions so far but `is_stopped` and `sleep`
-- in the loop at the end.
pub record Resource (ev : Evpp) : Type 0 where
  pub world : ev.World
  pub acts : List Action
  pub base_loop : Bool
  pub tcp : Bool
  pub udp : Bool
  pub http : Bool

abbrev pub Routine : Evpp → Type 0 → Type 0
Routine ev A = Resource ev → Outcome A (Resource ev)

module _ (ev : Evpp) where
  abbrev pub act : Action → Routine ev Bool
  act a r =
      let o = ev.act a r.world in returned o.0 (record r { world = o.1; acts = r.acts ++ (a ∷ []) })

  -- A pointer's field.
  abbrev pub is_set : Server → Resource ev → Bool
  is_set base_loop r = r.base_loop
  is_set tcp r = r.tcp
  is_set udp r = r.udp
  is_set http r = r.http

  -- A method called through a pointer that is not tested, and through one that is.
  unfoldable pub call : (Server → Action) → Server → Routine ev Bool
  call f v r = if is_set v r then act (f v) r else abort r

  unfoldable pub call_if : (Server → Action) → Server → Routine ev (Unit {0})
  call_if f v r = if is_set v r then (do _ ← act (f v); pure tt) r else returned tt r

  unfoldable pub init_udp_server : Options → Routine ev Bool
  init_udp_server op =
      if is_empty op.udp_ports
      then pure true
      else do _ ← act make_udp; modify (λ r. record r { udp = true }); act (init_udp op.udp_ports)

  unfoldable pub init_tcp_server : Options → Routine ev Bool
  unfolding init_udp_server
  init_tcp_server op = if not (is_positive op.tcp_port) then init_udp_server op else do
    _ ← act (make_tcp op.tcp_port op.tcp_thread_pool_size)
    modify (λ r. record r { tcp = true })
    rc ← act init_tcp
    if not rc then pure false else init_udp_server op

  unfoldable pub init_http_server : Options → Routine ev Bool
  unfolding init_tcp_server
  init_http_server op = if is_empty op.http_ports then init_tcp_server op else do
    _ ← act make_http
    modify (λ r. record r { http = true })
    rc ← act (init_http op.http_ports)
    if not rc then pure false else init_tcp_server op

  -- `Init`
  unfoldable pub init : Options → Routine ev Bool
  unfolding init_http_server
  init op = do _ ← act make_loop; modify (λ r. record r { base_loop = true }); init_http_server op

  -- `AfterFork`
  unfoldable pub after_forking : Routine ev (Unit {0})
  unfolding call
  after_forking = do
    _ ← call after_fork base_loop
    _ ← call after_fork http
    _ ← call after_fork tcp
    _ ← call after_fork udp
    pure tt

  -- A server that does not start ends the process by a fatal log line.
  unfoldable pub start_server : Server → Routine ev (Unit {0})
  unfolding call
  start_server v = do rc ← call start v; if rc then pure tt else abort

  -- `RunServers`
  unfoldable pub run_servers : Routine ev (Unit {0})
  unfolding start_server
  run_servers = do start_server tcp; start_server http; start_server udp; start_server base_loop

  -- `p && !p->IsStopped()`
  unfoldable pub is_stopping : Server → Routine ev Bool
  is_stopping v r =
      let o = ev.act (is_stopped v) r.world in
      if is_set v r then returned (not o.0) (record r { world = o.1 }) else returned false r

  -- The tests of a round of the last loop, in order; a later pointer is not asked after one that
  -- is stopping.
  unfoldable pub any_stopping : List Server → Routine ev Bool
  unfolding is_stopping
  any_stopping [] = pure false
  any_stopping (v ∷ vs) = do
    stopping ← is_stopping v
    if stopping then pure true else any_stopping vs

  -- `for (;; sleep(1))`
  unfoldable pub wait_stopped : ℕ → Routine ev (Unit {0})
  unfolding any_stopping
  wait_stopped zero = unfinished
  wait_stopped (suc fuel) = do
    stopping ← any_stopping (base_loop ∷ tcp ∷ udp ∷ http ∷ [])
    if stopping
        then (do modify (λ r. record r { world = (ev.act (sleep 1) r.world).1 }); wait_stopped fuel)
        else pure tt

  -- The part of `StopServers` before the last loop.
  unfoldable pub ask_to_stop : Routine ev (Unit {0})
  unfolding call_if
  ask_to_stop = do
    call_if pause udp
    call_if pause http
    call_if stop base_loop
    _ ← act (sleep 1)
    call_if stop udp
    call_if stop http
    call_if stop base_loop
    call_if stop tcp

  -- `StopServers`; `fuel` bounds the rounds of its loop.
  unfoldable pub stop_servers : ℕ → Routine ev (Unit {0})
  unfolding ask_to_stop wait_stopped
  stop_servers fuel = do ask_to_stop; wait_stopped fuel
