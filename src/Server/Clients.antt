-- ===== src/Server/Clients.antt =====
-- The map `clients` of src/server.cpp: `handle_connections` on the thread that accepts, and the cleanup of
-- `handle_client` on the thread of each client, as a step relation. A socket is its descriptor, a thread
-- its number. The kernel hands out a descriptor again once it is closed.
use cs.Prelude.{
  ℕ, ◌+◌, ◌≡◌, ◌≤◌, ◌<◌, refl, List, [], ◌∷◌, ◌++◌, Bool, true, false, some, ◌==◌, leb,
  if◌then◌else◌, length, get_elem?, set, arith, Bool-cases, inl, inr,
}

-- `MAX_CLIENTS`
abbrev pub max_clients : ℕ
max_clients = 64

-- Where the thread of a client is: before `close(client_socket)`, between that and the erasure of its
-- entry, or behind both.
pub data Phase : Type 0 where
  serving closed : ℕ → Phase
  ended : Phase

-- What the accepting thread holds: nothing, or a socket that passed the test for the number of clients.
pub data Acceptor : Type 0 where
  idle : Acceptor
  admitted : ℕ → Acceptor

pub record Server : Type 0 where
  -- The sockets with the threads that serve them.
  pub clients : List (ℕ × ℕ)
  pub threads : List Phase
  pub acceptor : Acceptor

-- `std::terminate` ends the process.
pub data State : Type 0 where
  up : Server → State
  terminated : State

abbrev pub has_client : ℕ → List (ℕ × ℕ) → Bool
has_client s [] = false
has_client s ((k, v) ∷ cs) = let rest = has_client s cs in if k == s then true else rest

-- `clients.erase(it)`, where the key is found.
unfoldable pub erase_client : ℕ → List (ℕ × ℕ) → List (ℕ × ℕ)
erase_client s [] = []
erase_client s ((k, v) ∷ cs) = let rest = (k, v) ∷ erase_client s cs in if k == s then cs else rest

-- The first locked block: a client is turned away where there are too many.
unfoldable pub admit : ℕ → Server → Server
admit s v = if leb max_clients (length v.clients) then v else record v { acceptor = admitted s }

-- The second one. The thread object that stood under the same key is destroyed without having been
-- detached or joined, which is `std::terminate`.
unfoldable pub register : ℕ → Server → State
register s v =
    if has_client s v.clients
    then terminated
    else up (record v {
      clients = (s, length v.threads) ∷ v.clients;
      threads = v.threads ++ serving s ∷ [];
      acceptor = idle;
    })

-- The descriptor of a socket that is not open.
abbrev pub is_serving : ℕ → List Phase → Bool
is_serving s [] = false
is_serving s (serving r ∷ ps) = let rest = is_serving s ps in if r == s then true else rest
is_serving s (closed r ∷ ps) = is_serving s ps
is_serving s (ended ∷ ps) = is_serving s ps

pub data Step : State → State → Type 0 where
  accept :
      {v : Server} (s : ℕ)
      → v.acceptor ≡ idle
      → is_serving s v.threads ≡ false
      → Step (up v) (up (admit s v))
  start : {v : Server} (s : ℕ) → v.acceptor ≡ admitted s → Step (up v) (register s v)
  close :
      {v : Server} (i s : ℕ)
      → get_elem? v.threads i ≡ some (serving s)
      → Step (up v) (up (record v { threads = set v.threads i (closed s) }))
  erase :
      {v : Server} (i s : ℕ)
      → get_elem? v.threads i ≡ some (closed s)
      → Step
          (up v)
          (up (record v { clients = erase_client s v.clients; threads = set v.threads i ended }))

-- The states after some steps.
pub data Reach (from : State) : State → Type 0 where
  here : Reach from from
  later : {p q : State} → Reach from p → Step p q → Reach from q

abbrev pub started : Server
started = record { clients = []; threads = []; acceptor = idle }

abbrev pub pending : Acceptor → ℕ
pending idle = 0
pending (admitted s) = 1

-- No more clients than the limit, one that is about to be registered included.
abbrev pub Bounded : State → Type 0
Bounded (up v) = length v.clients + pending v.acceptor ≤ max_clients
Bounded terminated = Unit

erase_client-length : (s : ℕ) (cs : List (ℕ × ℕ)) → length (erase_client s cs) ≤ length cs
unfolding erase_client
erase_client-length s [] = omega arith
erase_client-length s ((k, v) ∷ cs) = ground (arith, erase_client-length s cs)

admit-Bounded : (s : ℕ) (v : Server) → v.acceptor ≡ idle → Bounded (up v) → Bounded (up (admit s v))
unfolding admit
admit-Bounded s v e h = elim (Bool-cases (leb max_clients (length v.clients))) [
  | inl full ↦ rw full h
  | inr free ↦ rw free (ground (arith, free))
]

register-Bounded :
    (s : ℕ) (v : Server) → v.acceptor ≡ admitted s → Bounded (up v) → Bounded (register s v)
unfolding register
register-Bounded s v e h = elim (Bool-cases (has_client s v.clients)) [
  | inl taken ↦ rw taken tt
  | inr fresh ↦ rw fresh (omega (arith, bound))
]
  where
    bound : length v.clients + 1 ≤ max_clients
    bound = rw e at h

Step-Bounded : {p q : State} → Step p q → Bounded p → Bounded q
Step-Bounded (accept {v} s e f) h = admit-Bounded s v e h
Step-Bounded (start {v} s e) h = register-Bounded s v e h
Step-Bounded (close i s e) h = h
Step-Bounded (erase {v} i s e) h = omega (arith, h, erase_client-length s v.clients)

-- A server never has more clients than MAX_CLIENTS, although the test and the registration of a client are
-- two locked blocks: clients that leave in between only make room.
pub Reach-Bounded : (v : Server) → Reach (up started) (up v) → length v.clients ≤ max_clients
Reach-Bounded v r = omega (arith, go (up v) r)
  where
    go : (p : State) → Reach (up started) p → Bounded p
    go p here = omega arith
    go p (later x s) = Step-Bounded s (go _ x)

-- A cleanup closes the socket before it erases the entry. Where a thread is between the two, the kernel may
-- give the descriptor to the next client: if the server has room and accepts, the process is terminated.
pub Reach-terminated :
    (v : Server) (i s : ℕ)
    → get_elem? v.threads i ≡ some (closed s)
    → is_serving s v.threads ≡ false
    → has_client s v.clients ≡ true
    → v.acceptor ≡ idle
    → length v.clients < max_clients
    → Reach (up v) terminated
unfolding admit register
Reach-terminated v i s e free listed ready room =
    let roomy : leb max_clients (length v.clients) ≡ false = ground arith in
    let accepted : Step (up v) (up (record v { acceptor = admitted s })) =
      rw roomy at (accept {v = v} s ready free) in
    let registered : Step (up (record v { acceptor = admitted s })) terminated =
      rw listed at (start {v = record v { acceptor = admitted s }} s refl) in
    later (later here accepted) registered
