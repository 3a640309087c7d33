-- ===== src/Server/Sockets.antt =====
-- Which sockets a server has open between `start` and `stop` of src/server.cpp.
use cs.Prelude.{
  ℕ, ◌≡◌, refl, sym, ap, some-injective, ◌∙◌, List, [], ◌∷◌, Bool, true, false, Option, none, some,
  if◌then◌else◌, arith, inl,
}
use cs.Text.{Text}
use cs.Result.{Result, ok, err, Error}
use cs.Pair.{KeyValuePair}
use cs.Double.{Doubles}
use cs.Tree.{LsmTree}
use cs.Adapter.Load.{shutdown}
use cs.Server.Lifecycle.{
  Kernel, ServerState, Event, starts, stops, comes, leaves, Outcome, done, terminated, threw,
  Failure, create, opening, first_failure, surviving, survives, accessed, get_instance, halted,
  launch, prepare, with_socket, start, ended, shut_down, stop, step, run,
}
use cs.Server.Owned.{Used, Owned, client_comes-Owned, client_leaves-Owned, closed_down, stopped_lem}

if-Owned :
    (b : Bool) (x y : Outcome × ServerState)
    → (b ≡ true → Owned x.1)
    → (b ≡ false → Owned y.1)
    → Owned (if b then x else y).1
if-Owned true x y f g = f refl
if-Owned false x y f g = g refl

survives-some :
    (o : Option ServerState) {f : ServerState → Option ServerState} {w : ServerState}
    → survives o f ≡ some w
    → (u : ServerState) × (o ≡ some u) × (f u ≡ some w)
survives-some none e = ground (arith, e)
survives-some (some u) e = (u, refl, e)

moved : {v w : ServerState} → v ≡ w → Owned v → Owned w
moved e own = rw⁻¹ e own

surviving-Owned :
    (x : Outcome × ServerState) (w : ServerState) → Owned x.1 → surviving x ≡ some w → Owned w
surviving-Owned (terminated, v) w own e = ground (arith, e)
surviving-Owned (done, v) w own e = moved (some-injective e) own
surviving-Owned (threw f, v) w own e = moved (some-injective e) own

module _ (what : Error → Text) (d : Doubles) (sort : List KeyValuePair → List KeyValuePair)
    (t : LsmTree) where
  accessed_lem :
      (there : Option LsmTree) (v : ServerState)
      → (u : LsmTree) × (o : Option LsmTree) × (accessed what d sort (ok tt, t) there v
          ≡ (ok u, record v { instance_tree = o }))
  accessed_lem none v = (t, some t, refl)
  accessed_lem (some u) v = (u, v.instance_tree, refl)

  get_instance_lem :
      (v : ServerState)
      → (u : LsmTree) × (o : Option LsmTree) × (get_instance what d sort (ok tt, t) v
          ≡ (ok u, record v { instance_tree = o }))
  unfolding get_instance
  get_instance_lem v = accessed_lem v.instance_tree v

  ended_lem :
      (x : Result (Unit {0}) × LsmTree) (v : ServerState)
      → (ended what d sort (ok tt, t) x v).1.open_sockets ≡ v.open_sockets
  ended_lem (ok u, t') v = refl
  ended_lem (err e, t') v = refl

  shut_down_lem :
      (v : ServerState)
      → (shut_down what d sort (ok tt, t) (get_instance what d sort (ok tt, t) v)).1.open_sockets
        ≡ v.open_sockets
  shut_down_lem v =
      let (u, o, made) = get_instance_lem v in
      rw made (ended_lem (shutdown what d sort u) (record v { instance_tree = o }))

  launch_lem :
      (v : ServerState)
      → let w = (launch what d sort (ok tt, t) (get_instance what d sort (ok tt, t) v)).1 in
        (w.open_sockets ≡ v.open_sockets)
        × ((w.server_socket ≡ v.server_socket) × (w.running ≡ true))
  launch_lem v = let (u, o, made) = get_instance_lem v in rw made (refl, (refl, refl))

  stop-Owned :
      (joined : Bool) (v : ServerState) → Owned v → Owned (stop what d sort (ok tt, t) joined v).1
  unfolding stop halted
  stop-Owned joined v own =
      if-Owned v.running _ _
        (λ up. λ r h.
          let still : (halted joined v).open_sockets r ≡ true =
            sym (ap (λ f. f r) (shut_down_lem (halted joined v))) ∙ h in
          ground (arith, stopped_lem v own r still))
        (λ down. own)

  prepare-Owned :
      (s : ℕ) (f : Option Failure) (v : ServerState)
      → ((r : ℕ) → v.open_sockets r ≡ false)
      → Owned
          (prepare what d sort
            (ok tt, t)
            s
            f
            (record v { server_socket = some s; open_sockets = opening s v.open_sockets })).1
  prepare-Owned s (some f) v shut r h = ground (arith, h, shut r)
  prepare-Owned s none v shut r h =
      let (opened, (listens, up)) =
        launch_lem (record v { server_socket = some s; open_sockets = opening s v.open_sockets }) in
      let mine : opening s v.open_sockets r ≡ true = sym (ap (λ f. f r) opened) ∙ h in
      let same : s ≡ r = ground (arith, mine, shut r) in (up, inl (listens ∙ ap some same))

  with_socket-Owned :
      (k : Kernel) (o : Option ℕ) (v : ServerState)
      → ((r : ℕ) → v.open_sockets r ≡ false)
      → Owned (with_socket what d sort (ok tt, t) k o v).1
  with_socket-Owned k none v shut = λ r h. ground (arith, h, shut r)
  with_socket-Owned k (some s) v shut = prepare-Owned s (first_failure k) v shut

  start-Owned :
      (k : Kernel) (v : ServerState) → Owned v → Owned (start what d sort (ok tt, t) k v).1
  unfolding start
  start-Owned k v own =
      if-Owned v.running _ _ (λ up. own)
        (λ down. with_socket-Owned k k.made v (closed_down v own down))

  step-Owned :
      (e : Event) (v w : ServerState) → Owned v → step what d sort (ok tt, t) e v ≡ some w → Owned w
  step-Owned (starts k) v w own e = surviving-Owned _ w (start-Owned k v own) e
  step-Owned (stops joined) v w own e = surviving-Owned _ w (stop-Owned joined v own) e
  step-Owned (comes s) v w own e = surviving-Owned _ w (client_comes-Owned s v own) e
  step-Owned (leaves s) v w own e = moved (some-injective e) (client_leaves-Owned s v own)

  run-step-Owned :
      (events : List Event) (v w : ServerState)
      → Owned v
      → run what d sort (ok tt, t) events v ≡ some w
      → Owned w
  unfolding run
  run-step-Owned [] v w own e = moved (some-injective e) own
  run-step-Owned (x ∷ events) v w own e =
      let (u, on, rest) = survives-some (step what d sort (ok tt, t) x v) e in
      run-step-Owned events u w (step-Owned x v u own on) rest

-- A session of calls of start and stop and of clients that come and go, on a new server, whatever the system
-- calls answer, and where the constructor of the tree succeeds: unless the process is terminated, a socket
-- that is open afterwards is the one that listens or one of a client in the map, and the server runs.
-- So no start that fails and no stop leaves a socket open.
pub run-Owned :
    (what : Error → Text) (d : Doubles) (sort : List KeyValuePair → List KeyValuePair) (t : LsmTree)
    (events : List Event) (v : ServerState)
    → run what d sort (ok tt, t) events create ≡ some v
    → (r : ℕ) → v.open_sockets r ≡ true
    → Used v r
unfolding create
run-Owned what d sort t events v e =
    run-step-Owned what d sort t events create v (λ r h. ground (arith, h)) e
