-- ===== src/Servers/Ready.antt =====
-- `Resource::AfterFork` and `Resource::RunServers` of apps/modules/echo/nfmpic_resource.cc, where all
-- pointers are set and all servers start.
use mpic.Prelude.{◌≡◌, ap, ◌∙◌, Bool, true, List, [], ◌∷◌, ◌++◌}
use mathlib.Core.List.{append_assoc}
use mpic.Prelude.State.{and_then, Returns, Returns-and_then, Returns-mono}
use mpic.Servers.{
  Routine, Evpp, Resource, Action, Server, base_loop, tcp, udp, http, start, after_fork,
  after_forking, call, start_server, run_servers, is_set,
}

-- The four pointers of the resource are set.
abbrev pub IsWhole : {ev : Evpp} → Resource ev → Type 0
IsWhole r = (r.base_loop ≡ true) × (r.tcp ≡ true) × (r.udp ≡ true) × (r.http ≡ true)

-- Every server starts.
abbrev pub AllStart : Evpp → Type 0
AllStart ev = (v : Server) (w : ev.World) → (ev.act (start v) w).0 ≡ true

-- What `AfterFork` and `RunServers` ask of the servers.
abbrev pub forked : List Action
forked = after_fork base_loop ∷ after_fork http ∷ after_fork tcp ∷ after_fork udp ∷ []

abbrev pub started : List Action
started = start tcp ∷ start http ∷ start udp ∷ start base_loop ∷ []

module _ {ev : Evpp} where
  -- The pointers are set, and the actions so far.
  abbrev pub Ready : List Action → Resource ev → Type 0
  Ready ds r = (r.acts ≡ ds) × IsWhole r

  is_set-Ready :
      (v : Server) (ds : List Action) (r : Resource ev) → Ready ds r → is_set ev v r ≡ true
  is_set-Ready base_loop ds r a = a.1.0
  is_set-Ready tcp ds r a = a.1.1
  is_set-Ready udp ds r a = a.1.2
  is_set-Ready http ds r a = a.1.3

  pub call-Ready :
      (f : Server → Action) (v : Server) (ds : List Action) (r : Resource ev)
      → Ready ds r
      → Returns (λ ok t. Ready (ds ++ f v ∷ []) t) (call ev f v r)
  unfolding call
  call-Ready f v ds r a = rw (is_set-Ready v ds r a) (ap (λ cs. cs ++ f v ∷ []) a.0, a.1)

  start_server-Ready :
      (s : AllStart ev) (v : Server) (ds : List Action) (r : Resource ev)
      → Ready ds r
      → Returns (λ _ t. Ready (ds ++ start v ∷ []) t) (start_server ev v r)
  unfolding start_server call
  start_server-Ready s v ds r a =
      rw (is_set-Ready v ds r a, s v r.world) (ap (λ cs. cs ++ start v ∷ []) a.0, a.1)

  -- A call, and what follows it.
  then_call :
      {B : Type 0} (f : Server → Action) (v : Server) (ds : List Action) (r : Resource ev)
      (Q : B → Resource ev → Type 0) (rest : Bool → Routine ev B)
      → Ready ds r
      → ((ok : Bool) (t : Resource ev) → Ready (ds ++ f v ∷ []) t → Returns Q (rest ok t))
      → Returns Q (and_then (call ev f v r) rest)
  then_call f v ds r Q rest a k =
      Returns-and_then (λ ok t. Ready (ds ++ f v ∷ []) t) Q (call ev f v r) rest
        (call-Ready f v ds r a) k

  then_start :
      {B : Type 0} (s : AllStart ev) (v : Server) (ds : List Action) (r : Resource ev)
      (Q : B → Resource ev → Type 0) (rest : Routine ev B)
      → Ready ds r
      → ((t : Resource ev) → Ready (ds ++ start v ∷ []) t → Returns Q (rest t))
      → Returns Q (and_then (start_server ev v r) (λ _. rest))
  then_start s v ds r Q rest a k =
      Returns-and_then (λ _ t. Ready (ds ++ start v ∷ []) t) Q (start_server ev v r) (λ _. rest)
        (start_server-Ready s v ds r a) (λ _. k)

  pub after_forking-Ready :
      (ds : List Action) (r : Resource ev)
      → Ready ds r
      → Returns (λ _ t. Ready (ds ++ forked) t) (after_forking ev r)
  unfolding after_forking
  after_forking-Ready ds r a = then_call after_fork base_loop ds r _ _ a (λ _ t a.
      then_call after_fork http _ t _ _ a (λ _ t a.
        then_call after_fork tcp _ t _ _ a
          (λ _ t a. then_call after_fork udp _ t _ _ a (λ _ t a. (a.0 ∙ simp append_assoc, a.1)))))

  pub run_servers-Ready :
      (s : AllStart ev) (ds : List Action) (r : Resource ev)
      → Ready ds r
      → Returns (λ _ t. Ready (ds ++ started) t) (run_servers ev r)
  unfolding run_servers
  run_servers-Ready s ds r a = then_start s tcp ds r _ _ a (λ t a.
      then_start s http _ t _ _ a (λ t a. then_start s udp _ t _ _ a (λ t a.
        Returns-mono _ (λ _ u. Ready (ds ++ started) u) (start_server ev base_loop t)
          (start_server-Ready s base_loop _ t a) (λ _ u a. (a.0 ∙ simp append_assoc, a.1)))))
