-- ===== src/Tests/Serving.antt =====
-- The theorems on the servers of the echo module, over small servers that need two seconds to stop.
use mpic.Prelude.{ℕ, ◌-◌, ◌≡◌, refl, Bool, true, false, ◌==◌, [], arith}
use mpic.Prelude.State.{Returns}
use mpic.Servers.{Evpp, Action, Resource, stop, is_stopped, sleep, stop_servers, ask_to_stop}
use mpic.Servers.Waiting.{Drains}
use mpic.Servers.Stopping.{shutdown, stop_servers-Returns}

pub record Clock : Type 0 where
  pub left : ℕ
  pub stopping : Bool

abbrev pub act : Action → Clock → Bool × Clock
act (is_stopped v) w = (w.left == 0, w)
act (sleep n) w = (true, record w { left = w.left - n })
act (stop v) w = (true, record w { stopping = true })
act _ w = (true, w)

abbrev pub servers : Evpp
servers = record { World = Clock; act = act }

abbrev pub drains : Drains servers
drains = record {
  Told = λ w. w.stopping ≡ true;
  pending = λ w. w.left;
  asked_told = λ v w t. t;
  slept_told = λ w t. t;
  asked = λ v w t. refl;
  stopped = λ v w t e. ground (arith, e);
  slept = λ w t p. omega (arith, p);
}

abbrev pub resource : Bool → Bool → Resource servers
resource t u = record {
  world = record { left = 3; stopping = false };
  acts = [];
  base_loop = t;
  tcp = t;
  udp = u;
  http = u;
}

stop_servers-Returns_example :
    Returns
      (λ _ t. t.acts ≡ shutdown true true false false)
      (stop_servers servers 5 (resource true false))
unfolding ask_to_stop
stop_servers-Returns_example =
    stop_servers-Returns drains 5 (resource true false) (refl, omega arith)
