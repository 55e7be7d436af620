-- ===== src/Servers/Stopping.antt =====
-- `Resource::StopServers` of apps/modules/echo/nfmpic_resource.cc.
use mpic.Prelude.{ℕ, ◌<◌, ◌≡◌, refl, sym, ap, subst, ◌∙◌, Bool, true, false, List, [], ◌∷◌, ◌++◌}
use mathlib.Core.List.{append_assoc, append-nil}
use mpic.Prelude.State.{
  Outcome, and_then, Leaves, Returns, Returns-mono, Returns-Leaves, Returns-and_then,
}
use mpic.Servers.{
  Evpp, Resource, Routine, Action, Server, base_loop, tcp, udp, http, pause, stop, sleep, is_set,
  call_if, ask_to_stop, wait_stopped, stop_servers,
}
use mpic.Servers.Waiting.{Drains, wait_stopped-Returns}

-- The actions of a stop: no new requests first, then a second for the last ones, and the TCP server
-- at the end. A server that was not made is passed over.
abbrev pub one_if : Bool → Action → List Action
one_if true a = a ∷ []
one_if false a = []

abbrev pub shutdown : Bool → Bool → Bool → Bool → List Action
shutdown l t u h =
    one_if u (pause udp)
    ++ (one_if h (pause http)
        ++ (one_if l (stop base_loop)
            ++ (sleep 1
                ∷ (one_if u (stop udp)
                    ++ (one_if h (stop http)
                        ++ (one_if l (stop base_loop) ++ one_if t (stop tcp)))))))

module _ (ev : Evpp) (l b u h : Bool) where
  -- The pointers that are set, and the actions so far.
  abbrev At : List Action → Resource ev → Type 0
  At ds r = (r.acts ≡ ds) × (r.base_loop ≡ l) × (r.tcp ≡ b) × (r.udp ≡ u) × (r.http ≡ h)

  abbrev flag : Server → Bool
  flag base_loop = l
  flag tcp = b
  flag udp = u
  flag http = h

  is_set-flag : (v : Server) (ds : List Action) (r : Resource ev) → At ds r → is_set ev v r ≡ flag v
  is_set-flag base_loop ds r a = a.1
  is_set-flag tcp ds r a = a.2
  is_set-flag udp ds r a = a.3
  is_set-flag http ds r a = a.4

  call_if-At :
      (f : Server → Action) (v : Server) (ds : List Action) (r : Resource ev) (s : Bool)
      → flag v ≡ s
      → At ds r
      → Returns (λ _ t. At (ds ++ one_if s (f v)) t) (call_if ev f v r)
  unfolding call_if
  call_if-At f v ds r true e a =
      rw (is_set-flag v ds r a, e) (ap (λ cs. cs ++ (f v ∷ [])) a.0, a.1, a.2, a.3, a.4)
  call_if-At f v ds r false e a =
      rw (is_set-flag v ds r a, e) (a.0 ∙ sym (append-nil ds), a.1, a.2, a.3, a.4)

  same_list :
      (ds es : List Action) (o : Outcome (Unit {0}) (Resource ev))
      → ds ≡ es
      → Returns (λ _ t. At ds t) o
      → Returns (λ _ t. At es t) o
  same_list ds es o e p = subst (λ cs. Returns (λ _ t. At cs t) o) e p

  -- A call, and what follows it.
  then_At :
      (f : Server → Action) (v : Server) (ds es : List Action) (r : Resource ev)
      (rest : Routine ev (Unit {0}))
      → At ds r
      → ((t : Resource ev) → At (ds ++ one_if (flag v) (f v)) t → Returns (λ _ u. At es u) (rest t))
      → Returns (λ _ u. At es u) (and_then (call_if ev f v r) (λ _. rest))
  then_At f v ds es r rest a k =
      Returns-and_then (λ _. At (ds ++ one_if (flag v) (f v))) (λ _ u. At es u) (call_if ev f v r)
        (λ _. rest) (call_if-At f v ds r (flag v) refl a) (λ _. k)

  ask_to_stop-At :
      (ds : List Action) (r : Resource ev)
      → At ds r
      → Returns (λ _ t. At (ds ++ shutdown l b u h) t) (ask_to_stop ev r)
  unfolding ask_to_stop
  ask_to_stop-At ds r a = then_At pause udp ds _ r _ a (λ t a. then_At pause http _ _ t _ a (λ t a.
      then_At stop base_loop _ _ t _ a (λ t a.
        then_At stop udp _ _ (second t) _ (ap (λ cs. cs ++ (sleep 1 ∷ [])) a.0, a.1, a.2, a.3, a.4)
          (λ t a. then_At stop http _ _ t _ a (λ t a. then_At stop base_loop _ _ t _ a (λ t a.
            same_list _ _ (call_if ev stop tcp t) (simp append_assoc)
              (call_if-At stop tcp _ t b refl a)))))))
    where
      second : Resource ev → Resource ev
      second t = record t { world = (ev.act (sleep 1) t.world).1; acts = t.acts ++ (sleep 1 ∷ []) }

-- If the world that the requests to stop leave has every server told to stop, and fewer seconds
-- pending than `fuel`, `StopServers` returns. For the servers that were made it has paused UDP and
-- HTTP, stopped the base loop, slept a second, stopped UDP, HTTP and the base loop again, and at
-- last stopped TCP; servers that were not made are passed over.
pub stop_servers-Returns :
    {ev : Evpp} (D : Drains ev) (fuel : ℕ) (r : Resource ev)
    → Leaves (λ t. D.Told t.world × (D.pending t.world < fuel)) (ask_to_stop ev r)
    → Returns
        (λ _ t. t.acts ≡ r.acts ++ shutdown r.base_loop r.tcp r.udp r.http)
        (stop_servers ev fuel r)
unfolding stop_servers
stop_servers-Returns {ev} D fuel r told =
    Returns-and_then
      (λ _ t.
        At ev r.base_loop r.tcp r.udp r.http (r.acts ++ shutdown r.base_loop r.tcp r.udp r.http) t
        × (D.Told t.world × (D.pending t.world < fuel)))
      (λ _ t. t.acts ≡ r.acts ++ shutdown r.base_loop r.tcp r.udp r.http) (ask_to_stop ev r)
      (λ _. wait_stopped ev fuel)
      (Returns-Leaves _ _ (ask_to_stop ev r)
        (ask_to_stop-At ev r.base_loop r.tcp r.udp r.http r.acts r (refl, refl, refl, refl, refl))
        told)
      (λ _ t a.
        Returns-mono (λ _ u. u.acts ≡ t.acts)
          (λ _ u. u.acts ≡ r.acts ++ shutdown r.base_loop r.tcp r.udp r.http)
          (wait_stopped ev fuel t) (wait_stopped-Returns D fuel t a.1.0 a.1.1) (λ _ u e. e ∙ a.0.0))
