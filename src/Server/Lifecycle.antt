-- ===== src/Server/Lifecycle.antt =====
-- `start` and `stop` of src/server.cpp, with the clients that come and go in between. What the system calls
-- answer is a parameter of each start. A socket is its descriptor.
use cs.Prelude.{
  ℕ, List, [], ◌∷◌, Bool, true, false, ◌&&◌, Option, none, some, ◌==◌, ltb, if◌then◌else◌, length,
}
use cs.Result.{Result, ok, err, Error}
use cs.Pair.{KeyValuePair}
use cs.Double.{Doubles}
use cs.Text.{Text}
use cs.Tree.{LsmTree}
use cs.Adapter.Load.{shutdown}
use cs.Server.Clients.{max_clients}

-- What a start meets: the descriptor that `socket` gives, and whether the calls that follow succeed.
pub record Kernel : Type 0 where
  pub made : Option ℕ
  pub options_set : Bool
  pub bound : Bool
  pub listening : Bool

pub data Failure : Type 0 where
  socket_failed options_failed bind_failed listen_failed : Failure
  tree_failed : Error → Failure

-- How a call ends: `terminated` is `std::terminate`.
pub data Outcome : Type 0 where
  done terminated : Outcome
  threw : Failure → Outcome

pub record ServerState : Type 0 where
  -- None is -1.
  pub server_socket : Option ℕ
  pub running : Bool
  -- Whether the thread that accepts connections may still be joined.
  pub joinable : Bool
  pub clients : List ℕ
  -- Which sockets the process has open.
  pub open_sockets : ℕ → Bool
  -- The tree of the adapter, once `get_instance` has made it.
  pub instance_tree : Option LsmTree

-- `Server::Server`
unfoldable pub create : ServerState
create = record {
  server_socket = none;
  running = false;
  joinable = false;
  clients = [];
  open_sockets = λ s. false;
  instance_tree = none;
}

abbrev pub opening : ℕ → (ℕ → Bool) → ℕ → Bool
opening s f r = if r == s then true else f r

abbrev pub closing : ℕ → (ℕ → Bool) → ℕ → Bool
closing s f r = if r == s then false else f r

abbrev pub close_server : Option ℕ → (ℕ → Bool) → ℕ → Bool
close_server none f = f
close_server (some s) f = closing s f

-- `for (auto &client : clients)` of the first locked block of `stop`.
unfoldable pub close_clients : List ℕ → (ℕ → Bool) → ℕ → Bool
close_clients [] f = f
close_clients (s ∷ ss) f = close_clients ss (closing s f)

-- The first of the calls after `socket` that fails.
abbrev pub first_failure : Kernel → Option Failure
first_failure k =
    if k.options_set
    then if k.bound then if k.listening then none else some listen_failed else some bind_failed
    else some options_failed

abbrev pub listed : ℕ → List ℕ → Bool
listed s [] = false
listed s (r ∷ rs) = let rest = listed s rs in if s == r then true else rest

-- `clients.erase(it)`, where the key is found.
unfoldable pub erase : ℕ → List ℕ → List ℕ
erase s [] = []
erase s (r ∷ rs) = let rest = r ∷ erase s rs in if s == r then rs else rest

-- What happens to a server: a call of `start`, one of `stop`, with whether the thread that accepts could be
-- joined in the second that it waits, or a client that comes or leaves.
pub data Event : Type 0 where
  starts : Kernel → Event
  stops : Bool → Event
  comes leaves : ℕ → Event

-- `Server::handle_connections`, for a connection on the socket `s`. A socket that is in the map already has
-- its thread replaced, which is `std::terminate`.
unfoldable pub client_comes : ℕ → ServerState → Outcome × ServerState
client_comes s v =
    if v.running && ltb (length v.clients) max_clients
    then (
      if listed s v.clients then terminated else done,
      record v { clients = s ∷ v.clients; open_sockets = opening s v.open_sockets },
    )
    else (done, v)

-- The cleanup of `Server::handle_client`.
unfoldable pub client_leaves : ℕ → ServerState → ServerState
unfolding erase
client_leaves s v = record v {
  clients = erase s v.clients;
  open_sockets = closing s v.open_sockets;
}

-- `stop` up to the adapter. The threads of the clients are detached, and the map is cleared.
unfoldable pub halted : Bool → ServerState → ServerState
unfolding close_clients
halted joined v = record v {
  server_socket = none;
  running = false;
  joinable = if joined then false else v.joinable;
  clients = [];
  open_sockets = close_clients v.clients (close_server v.server_socket v.open_sockets);
}

-- The state, unless the process has ended.
abbrev pub surviving : Outcome × ServerState → Option ServerState
surviving (terminated, v) = none
surviving (done, v) = some v
surviving (threw f, v) = some v

abbrev pub survives : Option ServerState → (ServerState → Option ServerState) → Option ServerState
survives none next = none
survives (some v) next = next v

-- `made` is what the constructor of the tree comes to, when the adapter is first asked for.
module _ (what : Error → Text) (d : Doubles) (sort : List KeyValuePair → List KeyValuePair)
    (made : Result (Unit {0}) × LsmTree) where
  abbrev pub constructed : Result (Unit {0}) × LsmTree → ServerState → Result LsmTree × ServerState
  constructed (ok u, t) v = (ok t, record v { instance_tree = some t })
  constructed (err e, t) v = (err e, v)

  abbrev pub accessed : Option LsmTree → ServerState → Result LsmTree × ServerState
  accessed none v = constructed made v
  accessed (some t) v = (ok t, v)

  -- `LSMAdapter::get_instance`: a constructor that throws is tried again with the next call.
  unfoldable pub get_instance : ServerState → Result LsmTree × ServerState
  get_instance v = accessed v.instance_tree v

  -- Assigning the new thread destroys the old one, which may not be joinable.
  abbrev pub launch : Result LsmTree × ServerState → Outcome × ServerState
  launch (err e, v) = (threw (tree_failed e), v)
  launch (ok t, v) =
      (if v.joinable then terminated else done, record v { running = true; joinable = true })

  abbrev pub prepare : ℕ → Option Failure → ServerState → Outcome × ServerState
  prepare s (some f) v = (threw f, record v { open_sockets = closing s v.open_sockets })
  prepare s none v = launch (get_instance v)

  abbrev pub with_socket : Kernel → Option ℕ → ServerState → Outcome × ServerState
  with_socket k none v = (threw socket_failed, record v { server_socket = none })
  with_socket k (some s) v =
      prepare s (first_failure k)
        (record v { server_socket = some s; open_sockets = opening s v.open_sockets })

  unfoldable pub start : Kernel → ServerState → Outcome × ServerState
  unfolding get_instance
  start k v = if v.running then (done, v) else with_socket k k.made v

  abbrev pub ended : Result (Unit {0}) × LsmTree → ServerState → Outcome × ServerState
  ended (ok u, t) v = (done, record v { instance_tree = some t })
  ended (err e, t) v = (threw (tree_failed e), record v { instance_tree = some t })

  abbrev pub shut_down : Result LsmTree × ServerState → Outcome × ServerState
  shut_down (err e, v) = (threw (tree_failed e), v)
  shut_down (ok t, v) = ended (shutdown what d sort t) v

  unfoldable pub stop : Bool → ServerState → Outcome × ServerState
  unfolding get_instance shutdown halted
  stop joined v = if v.running then shut_down (get_instance (halted joined v)) else (done, v)

  abbrev pub step : Event → ServerState → Option ServerState
  step (starts k) v = surviving (start k v)
  step (stops joined) v = surviving (stop joined v)
  step (comes s) v = surviving (client_comes s v)
  step (leaves s) v = some (client_leaves s v)

  -- A session of a server: none where the process has ended.
  unfoldable pub run : List Event → ServerState → Option ServerState
  unfolding start stop client_comes client_leaves
  run [] v = some v
  run (e ∷ es) v = survives (step e v) (run es)
