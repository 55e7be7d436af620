-- ===== src/Nfmpic.antt =====
-- apps/nfmpic: main.cc, main-inl.h and the `Init` of option.h, on Linux.
pub mod Services
pub mod Commanding
pub mod Windows
use mpic.Prelude.{
  ℕ, Bool, Option, none, some, map, List, ℤ, negsuc, Bytes, if◌then◌else◌, is_negative,
}
use mathlib.Core.Option
use mpic.Prelude.State.{exited, ◌>>=◌, ◌>>◌, pure}
use mpic.Os.{Os, ignore_sigpipe}
use mpic.Os.Machine
use mpic.Os.Machine.{M}
use mpic.Options
use mpic.Options.{VariablesMap, value_or}
use mpic.Servers
use mpic.Master.{Routine, lift}
use mpic.Master.Daemon
use mpic.StartUp

-- `nfmpic::Option`: the fields of `mpic::Option`, and its own.
pub record NetworkOptions : Type 0 where
  pub base : Options.Options
  pub service : Servers.Options

abbrev pub new_network_options : NetworkOptions
new_network_options = record { base = Options.new_options; service = Servers.new_options }

-- What the command line gives of the "network service options".
pub record ServiceMap : Type 0 where
  pub tcp_thread_pool_size : Option ℤ
  pub http_thread_pool_size : Option ℤ
  pub tcp_port : Option ℤ
  pub http_ports : Option Bytes
  pub udp_ports : Option Bytes

-- The default of each option is the value that its field has before.
unfoldable pub notify_services : ServiceMap → Servers.Options → Servers.Options
notify_services sm op = record {
  tcp_thread_pool_size = value_or op.tcp_thread_pool_size sm.tcp_thread_pool_size;
  http_thread_pool_size = value_or op.http_thread_pool_size sm.http_thread_pool_size;
  tcp_port = value_or op.tcp_port sm.tcp_port;
  http_ports = value_or op.http_ports sm.http_ports;
  udp_ports = value_or op.udp_ports sm.udp_ports;
}

-- What boost reads from a command line with both groups of options.
abbrev pub Parser : Type 0
Parser = List Bytes → Option (VariablesMap × ServiceMap)

abbrev pub base_part : Parser → List Bytes → Option VariablesMap
base_part parse argv = Option.map (λ v. v.0) (parse argv)

-- The fields of the services after `Init`: boost writes them where it writes the others.
abbrev pub read_services : Parser → List Bytes → NetworkOptions → Servers.Options
read_services parse argv op =
    if op.base.initialized
    then op.service
    else elim (parse argv) [ none ↦ op.service | some v ↦ notify_services v.1 op.service ]

module _ (os : Os) where
  -- The constructor of main-inl.h, which does what that of the library does.
  unfoldable pub on_startup : M os (Unit {0})
  on_startup = do
    old ← Machine.sys os ignore_sigpipe
    if is_negative old then exited (negsuc 0) else pure tt

  -- `Option::Init`
  unfoldable pub init : Parser → List Bytes → NetworkOptions → M os (Bool × NetworkOptions)
  init parse argv op = do
    (ok, base) ← Options.init os (base_part parse) argv op.base
    pure (ok, record { base = base; service = read_services parse argv op })

  -- `main`. The master reads the fields of `mpic::Option` only. `rounds` and `fuel` are those of its
  -- `Run`.
  unfoldable pub main : Parser → ℕ → ℕ → List Bytes → Routine os ℤ
  main parse rounds fuel argv = do
    ok ← Daemon.init os (base_part parse) argv Options.new_options
    if ok then Daemon.run os rounds fuel else pure (negsuc 0)

  -- The process: the two static objects are made before `main`, and their constructors do the same.
  unfoldable pub program : Parser → ℕ → ℕ → List Bytes → Routine os ℤ
  unfolding main
  program parse rounds fuel argv = do
    lift os (StartUp.on_startup os)
    lift os on_startup
    main parse rounds fuel argv
