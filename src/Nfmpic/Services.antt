-- ===== src/Nfmpic/Services.antt =====
-- The command line of nfmpic, and the servers of the echo module that it configures.
use mpic.Prelude.{
  ◌≡◌, refl, ap, subst, Bool, true, false, not, ◌&&◌, Option, none, some, List, ℤ, pos, Bytes,
  is_empty, is_positive,
}
use mathlib.Core.Option
use mpic.Prelude.State.{Returns, Returns-and_then}
use mpic.Os.{Os}
use mpic.Os.Machine.{Machine}
use mpic.Options
use mpic.Options.{VariablesMap, value_or}
use mpic.Options.Resolving.{AllNonEmpty}
use mpic.Options.Paths.{Resolves, Accepted, init-Returns}
use mpic.Servers
use mpic.Servers.{Evpp, Resource, after_forking}
use mpic.Servers.Startup.{Starts, is_complete, init-Starts}
use mpic.Nfmpic.{
  ServiceMap, Parser, base_part, NetworkOptions, new_network_options, notify_services, init,
}

-- No ports are given as the empty text.
abbrev names_ports : Option Bytes → Bool
names_ports none = true
names_ports (some p) = not (is_empty p)

abbrev is_port : Option ℤ → Bool
is_port none = true
is_port (some p) = is_positive p

-- No option on the command line turns a server off.
abbrev pub keeps_servers : ServiceMap → Bool
keeps_servers sm = names_ports sm.http_ports && (is_port sm.tcp_port && names_ports sm.udp_ports)

value-names_ports :
    (p : Option Bytes) (d : Bytes)
    → is_empty d ≡ false
    → not (is_empty (value_or d p)) ≡ names_ports p
value-names_ports none d h = rw h refl
value-names_ports (some p) d h = refl

value-is_port :
    (p : Option ℤ) (d : ℤ) → is_positive d ≡ true → is_positive (value_or d p) ≡ is_port p
value-is_port none d h = h
value-is_port (some p) d h = refl

notify_services-is_complete :
    (sm : ServiceMap) → is_complete (notify_services sm Servers.new_options) ≡ keeps_servers sm
unfolding notify_services
notify_services-is_complete sm =
    rw
      (
        value-names_ports sm.http_ports Servers.new_options.http_ports refl,
        value-is_port sm.tcp_port (pos 8070) refl,
        value-names_ports sm.udp_ports Servers.new_options.udp_ports refl,
      )
      refl

module _ {os : Os} (ev : Evpp) where
  -- The options of a command line, and what the resource comes to that is made with them.
  abbrev pub Serves :
      Parser
      → List Bytes
      → VariablesMap
      → ServiceMap
      → Resource ev
      → Bool × NetworkOptions
      → Machine os
      → Type 0
  Serves parse argv vm sm r (ok, op) m =
      Accepted {os = os} (base_part parse) argv vm (ok, op.base) m
      × Returns (λ set t. set ≡ true → Starts (keeps_servers sm) (after_forking ev t))
          (Servers.init ev op.service r)

  -- If `realpath` finds every path and gives an absolute one, `Init` of new options, on a command
  -- line that can be parsed, asks for no help and gives no empty path, returns, and what it leaves of
  -- the library's options is absolute and as given. A fresh resource whose `Init` takes the options
  -- of the services returns from that; where the result is true, `AfterFork` of it comes back exactly
  -- if the command line turns no server off, that is if it gives no empty HTTP or UDP ports and no
  -- TCP port below 1. Otherwise `AfterFork` ends in a call through NULL.
  pub init-Serves :
      (R : Resolves os) (parse : Parser) (argv : List Bytes) (vm : VariablesMap) (sm : ServiceMap)
      (m : Machine os) (r : Resource ev)
      → parse argv ≡ some (vm, sm)
      → vm.help ≡ false
      → AllNonEmpty vm
      → r.udp ≡ false
      → r.tcp ≡ false
      → r.http ≡ false
      → Returns (Serves parse argv vm sm r) (init os parse argv new_network_options m)
  unfolding init
  init-Serves R parse argv vm sm m r parsed no_help given u t h =
      Returns-and_then (Accepted (base_part parse) argv vm) (Serves parse argv vm sm r)
        (Options.init os (base_part parse) argv Options.new_options m) _
        (init-Returns R (base_part parse) argv vm m (ap (Option.map (λ v. v.0)) parsed) no_help
          given)
        (λ a n acc. (
          acc,
          rw parsed (
              subst
                (λ b.
                  Returns (λ set t. set ≡ true → Starts b (after_forking ev t))
                    (Servers.init ev (notify_services sm Servers.new_options) r))
                (notify_services-is_complete sm)
                (init-Starts ev (notify_services sm Servers.new_options) r u t h)),
        ))
