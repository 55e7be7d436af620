-- ===== src/Servers/Startup.antt =====
-- `Resource::Init` in the master and `Resource::AfterFork` in a worker, of
-- apps/modules/echo/nfmpic_resource.cc.
use mpic.Prelude.{
  ◌≡◌, refl, subst, ◌∙◌, Bool, true, false, not, ◌&&◌, List, is_empty, is_positive, if◌then◌else◌,
  inl, inr, Bool-cases,
}
use mpic.Prelude.State.{Outcome, returned, exited, aborted, unfinished, Returns, Returns-mono, pure}
use mpic.Servers.{
  Evpp, Options, Resource, Routine, Action, init, init_http_server, init_tcp_server,
  init_udp_server, after_forking,
}

-- All three servers are configured.
abbrev pub is_complete : Options → Bool
is_complete op =
    not (is_empty op.http_ports) && (is_positive op.tcp_port && not (is_empty op.udp_ports))

-- A routine that comes back, or one that ends in a fault.
abbrev pub Starts : {S : Type 0} → Bool → Outcome (Unit {0}) S → Type 0
Starts b (returned a s) = b ≡ true
Starts b (exited c s) = ⊥
Starts b (aborted s) = b ≡ false
Starts b (unfinished s) = ⊥

module _ (ev : Evpp) where
  after_forking-Starts :
      (w : ev.World) (acts : List Action) (b t u h : Bool)
      → Starts (b && (h && (t && u))) (
          after_forking ev
            (record { world = w; acts = acts; base_loop = b; tcp = t; udp = u; http = h }))
  unfolding after_forking
  after_forking-Starts w acts false t u h = refl
  after_forking-Starts w acts true t u false = refl
  after_forking-Starts w acts true false u true = refl
  after_forking-Starts w acts true true false true = refl
  after_forking-Starts w acts true true true true = refl

  -- The pointers of `t` are those of `r`, and one more is set if this is true.
  abbrev UdpSet : Bool → Resource ev → Resource ev → Type 0
  UdpSet b r t = (t.udp ≡ b) × (t.tcp ≡ r.tcp) × (t.http ≡ r.http) × (t.base_loop ≡ r.base_loop)

  abbrev TcpSet : Options → Bool → Resource ev → Resource ev → Type 0
  TcpSet op b r t =
      (t.udp ≡ not (is_empty op.udp_ports))
      × (t.tcp ≡ b)
      × (t.http ≡ r.http)
      × (t.base_loop ≡ r.base_loop)

  abbrev HttpSet : Options → Bool → Resource ev → Resource ev → Type 0
  HttpSet op b r t =
      (t.udp ≡ not (is_empty op.udp_ports))
      × (t.tcp ≡ is_positive op.tcp_port)
      × (t.http ≡ b)
      × (t.base_loop ≡ r.base_loop)

  init_udp_server-Set :
      (op : Options) (r : Resource ev)
      → r.udp ≡ false
      → Returns (λ ok t. UdpSet (not (is_empty op.udp_ports)) r t) (init_udp_server ev op r)
  unfolding init_udp_server
  init_udp_server-Set op r h = elim (Bool-cases (is_empty op.udp_ports)) [
    | inl e ↦ rw e (h, refl, refl, refl)
    | inr e ↦ rw e (refl, refl, refl, refl)
  ]

  -- What follows the `Init` of the TCP server, by its result.
  after_tcp-Set :
      (op : Options) (rc : Bool) (r : Resource ev)
      → r.udp ≡ false
      → let step : Routine ev Bool = if not rc then pure false else init_udp_server ev op in
        Returns (λ ok t. ok ≡ true → TcpSet op r.tcp r t) (step r)
  after_tcp-Set op false r h = λ e. cc
  after_tcp-Set op true r h =
      Returns-mono _ (λ ok t. ok ≡ true → TcpSet op r.tcp r t) (init_udp_server ev op r)
        (init_udp_server-Set op r h) (λ ok t s e. s)

  init_tcp_server-Set :
      (op : Options) (r : Resource ev)
      → r.udp ≡ false
      → r.tcp ≡ false
      → Returns
          (λ ok t. ok ≡ true → TcpSet op (is_positive op.tcp_port) r t)
          (init_tcp_server ev op r)
  unfolding init_tcp_server
  init_tcp_server-Set op r h g = elim (Bool-cases (is_positive op.tcp_port)) [
    | inl e ↦ rw e (after_tcp-Set op _ _ h)
    | inr e ↦ rw e (
        Returns-mono _ (λ ok t. ok ≡ true → TcpSet op false r t) (init_udp_server ev op r)
          (init_udp_server-Set op r h) (λ ok t s x. (s.0, s.1 ∙ g, s.2, s.3)))
  ]

  after_http-Set :
      (op : Options) (rc : Bool) (r : Resource ev)
      → r.udp ≡ false
      → r.tcp ≡ false
      → let step : Routine ev Bool = if not rc then pure false else init_tcp_server ev op in
        Returns (λ ok t. ok ≡ true → HttpSet op r.http r t) (step r)
  after_http-Set op false r h g = λ e. cc
  after_http-Set op true r h g = init_tcp_server-Set op r h g

  init_http_server-Set :
      (op : Options) (r : Resource ev)
      → r.udp ≡ false
      → r.tcp ≡ false
      → r.http ≡ false
      → Returns
          (λ ok t. ok ≡ true → HttpSet op (not (is_empty op.http_ports)) r t)
          (init_http_server ev op r)
  unfolding init_http_server
  init_http_server-Set op r h g f = elim (Bool-cases (is_empty op.http_ports)) [
    | inl e ↦ rw e (
        Returns-mono _ (λ ok t. ok ≡ true → HttpSet op false r t) (init_tcp_server ev op r)
          (init_tcp_server-Set op r h g) (λ ok t s x. ((s x).0, (s x).1, (s x).2 ∙ f, (s x).3)))
    | inr e ↦ rw e (after_http-Set op _ _ h g)
  ]

  all_set :
      (b h t u h' t' u' : Bool)
      → b ≡ true
      → h ≡ h'
      → t ≡ t'
      → u ≡ u'
      → (b && (h && (t && u))) ≡ (h' && (t' && u'))
  all_set b h t u h' t' u' p q r s = rw (p, q, r, s) refl

  -- `Init` of a fresh resource returns. Where it returns true, `AfterFork` on the object that it
  -- leaves comes back exactly if the HTTP, TCP and UDP servers are all configured; if one is
  -- not, it ends in a call through NULL.
  pub init-Starts :
      (op : Options) (r : Resource ev)
      → r.udp ≡ false
      → r.tcp ≡ false
      → r.http ≡ false
      → Returns (λ ok t. ok ≡ true → Starts (is_complete op) (after_forking ev t)) (init ev op r)
  unfolding init
  init-Starts op r h g f =
      Returns-mono _ (λ ok t. ok ≡ true → Starts (is_complete op) (after_forking ev t)) _
        (init_http_server-Set op _ h g f)
        (λ ok t s x.
          subst (λ b. Starts b (after_forking ev t))
            (all_set t.base_loop t.http t.tcp t.udp _ _ _ (s x).3 (s x).2 (s x).1 (s x).0)
            (after_forking-Starts t.world t.acts t.base_loop t.tcp t.udp t.http))
