-- ===== src/Servers/Waiting.antt =====
-- The loop at the end of `Resource::StopServers` of apps/modules/echo/nfmpic_resource.cc.
use mpic.Prelude.{
  ℕ, zero, suc, ◌<◌, ◌≡◌, refl, ap, subst, ◌∙◌, Bool, true, false, not, List, [], ◌∷◌, arith, inl,
  inr, Bool-cases, if◌then◌else◌, ◌⊎◌,
}
use mpic.Prelude.State.{Returns, Returns-mono, Returns-and_then, pure, modify, ◌>>◌}
use mpic.Servers.{
  Evpp, Resource, Routine, Server, base_loop, tcp, udp, http, is_stopped, sleep, is_set,
  is_stopping, any_stopping, wait_stopped,
}

-- Servers that come to a stop once each was told to: `pending` bounds the seconds that any of them
-- still needs. To ask for their state changes nothing, a second of sleep brings the stop nearer,
-- and with nothing pending each says that it is stopped.
pub record Drains (ev : Evpp) : Type 1 where
  pub Told : ev.World → Type 0
  pub pending : ev.World → ℕ
  pub asked_told : (v : Server) (w : ev.World) → Told w → Told (ev.act (is_stopped v) w).1
  pub slept_told : (w : ev.World) → Told w → Told (ev.act (sleep 1) w).1
  pub asked : (v : Server) (w : ev.World) → Told w → pending (ev.act (is_stopped v) w).1 ≡ pending w
  pub stopped :
      (v : Server) (w : ev.World) → Told w → pending w ≡ 0 → (ev.act (is_stopped v) w).0 ≡ true
  pub slept : (w : ev.World) → Told w → 0 < pending w → pending (ev.act (sleep 1) w).1 < pending w

module _ {ev : Evpp} (D : Drains ev) where
  -- The actions so far are kept, and the servers have as much time left as before.
  abbrev Kept : Resource ev → Resource ev → Type 0
  Kept r t = (t.acts ≡ r.acts) × (D.pending t.world ≡ D.pending r.world) × D.Told t.world

  -- The answer of a round: true only while time is pending.
  abbrev Asked : Resource ev → Bool → Resource ev → Type 0
  Asked r ok t = Kept r t × ((ok ≡ false) ⊎ (0 < D.pending r.world))

  is_stopping-Asked :
      (v : Server) (r : Resource ev) → D.Told r.world → Returns (Asked r) (is_stopping ev v r)
  unfolding is_stopping
  is_stopping-Asked v r told = elim (Bool-cases (is_set ev v r)) [
    | inl e ↦ rw e (
      (refl, D.asked v r.world told, D.asked_told v r.world told),
      still (D.pending r.world) refl,
    )
    | inr e ↦ rw e ((refl, refl, told), inl refl)
  ]
    where
      still :
          (n : ℕ)
          → D.pending r.world ≡ n
          → (not (ev.act (is_stopped v) r.world).0 ≡ false) ⊎ (0 < D.pending r.world)
      still zero e = inl (ap not (D.stopped v r.world told e))
      still (suc n) e = inr (omega (arith, e))

  -- The rest of a round after one answer.
  rest-Asked :
      (rest : Routine ev Bool) (r : Resource ev)
      → ((t : Resource ev) → D.Told t.world → Returns (Asked t) (rest t))
      → (ok : Bool) (t : Resource ev) → Asked r ok t
      → let step : Routine ev Bool = if ok then pure true else rest in Returns (Asked r) (step t)
  rest-Asked rest r ih true t a = a
  rest-Asked rest r ih false t a = Returns-mono (Asked t) (Asked r) (rest t) (ih t a.0.2) (λ ok u b.
      ((b.0.0 ∙ a.0.0, b.0.1 ∙ a.0.1, b.0.2), subst (λ n. (ok ≡ false) ⊎ (0 < n)) a.0.1 b.1))

  any_stopping-Asked :
      (vs : List Server) (r : Resource ev)
      → D.Told r.world
      → Returns (Asked r) (any_stopping ev vs r)
  unfolding any_stopping
  any_stopping-Asked [] r told = ((refl, refl, told), inl refl)
  any_stopping-Asked (v ∷ vs) r told =
      Returns-and_then (Asked r) (Asked r) (is_stopping ev v r) _ (is_stopping-Asked v r told)
        (rest-Asked (any_stopping ev vs) r (any_stopping-Asked vs))

  -- The sleep and the further rounds.
  next_round :
      (fuel : ℕ) (r : Resource ev)
      → D.pending r.world < suc fuel
      → ((t : Resource ev)
          → D.Told t.world
          → D.pending t.world < fuel
          → Returns (λ _ u. u.acts ≡ t.acts) (wait_stopped ev fuel t))
      → (stopping : Bool) (t : Resource ev) → Asked r stopping t
      → let step : Routine ev (Unit {0}) =
          if stopping
          then (do
            modify (λ s. record s { world = (ev.act (sleep 1) s.world).1 })
            wait_stopped ev fuel)
          else pure tt in
        Returns (λ _ u. u.acts ≡ r.acts) (step t)
  next_round fuel r h ih false t a = a.0.0
  next_round fuel r h ih true t a =
      Returns-mono _ (λ _ u. u.acts ≡ r.acts)
        (wait_stopped ev fuel (record t { world = (ev.act (sleep 1) t.world).1 }))
        (ih _ (D.slept_told t.world a.0.2) (shorter a.1)) (λ _ u e. e ∙ a.0.0)
    where
      shorter :
          (true ≡ false) ⊎ (0 < D.pending r.world) → D.pending (ev.act (sleep 1) t.world).1 < fuel
      shorter (inl e) = cc
      shorter (inr p) =
          let q : D.pending (ev.act (sleep 1) t.world).1 < D.pending t.world =
            D.slept t.world a.0.2 (omega (arith, a.0.1)) in
          omega (arith, a.0.1)

  pub wait_stopped-Returns :
      (fuel : ℕ) (r : Resource ev)
      → D.Told r.world
      → D.pending r.world < fuel
      → Returns (λ _ t. t.acts ≡ r.acts) (wait_stopped ev fuel r)
  unfolding wait_stopped
  wait_stopped-Returns zero r told h = omega arith
  wait_stopped-Returns (suc fuel) r told h =
      Returns-and_then (Asked r) (λ _ t. t.acts ≡ r.acts)
        (any_stopping ev (base_loop ∷ tcp ∷ udp ∷ http ∷ []) r) _
        (any_stopping-Asked (base_loop ∷ tcp ∷ udp ∷ http ∷ []) r told)
        (next_round fuel r h (wait_stopped-Returns fuel))
