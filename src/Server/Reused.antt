-- ===== src/Server/Reused.antt =====
-- The sockets of the clients of src/server.cpp that are still to be erased, and what happens where the kernel
-- hands out such a descriptor again.
use cs.Prelude.{
  ℕ, zero, suc, ◌+◌, ◌≡◌, ◌≤◌, ◌<◌, refl, List, [], ◌∷◌, ◌++◌, Bool, true, false, some, ◌==◌, leb,
  if◌then◌else◌, length, get_elem?, set, arith, Bool-cases, inl, inr, ==_iff,
}
use cs.Server.Clients.{
  max_clients, Phase, serving, closed, ended, idle, Server, State, up, terminated, has_client,
  erase_client, admit, register, is_serving, Step, accept, start, close, erase, Reach, here, later,
  started, Reach-terminated,
}

abbrev one_if : Bool → ℕ
one_if true = 1
one_if false = 0

-- How many threads have a socket that they have not erased.
abbrev holding : ℕ → List Phase → ℕ
holding s [] = 0
holding s (serving r ∷ ps) = one_if (r == s) + holding s ps
holding s (closed r ∷ ps) = one_if (r == s) + holding s ps
holding s (ended ∷ ps) = holding s ps

-- A socket that a thread has not erased is that of no other thread, and is in the map.
abbrev Listed : State → Type 0
Listed (up v) = (s : ℕ) → holding s v.threads ≤ one_if (has_client s v.clients)
Listed terminated = Unit

close-holding :
    (t s i : ℕ) (ps : List Phase)
    → get_elem? ps i ≡ some (serving s)
    → holding t (set ps i (closed s)) ≡ holding t ps
close-holding t s i [] e = refl
close-holding t s zero (serving r ∷ ps) e = let same : r ≡ s = cc in rw same refl
close-holding t s zero (closed r ∷ ps) e = cc
close-holding t s zero (ended ∷ ps) e = cc
close-holding t s (suc i) (serving r ∷ ps) e = omega (arith, close-holding t s i ps e)
close-holding t s (suc i) (closed r ∷ ps) e = omega (arith, close-holding t s i ps e)
close-holding t s (suc i) (ended ∷ ps) e = close-holding t s i ps e

end-holding :
    (t s i : ℕ) (ps : List Phase)
    → get_elem? ps i ≡ some (closed s)
    → holding t (set ps i ended) + one_if (s == t) ≡ holding t ps
end-holding t s i [] e = cc
end-holding t s zero (serving r ∷ ps) e = cc
end-holding t s zero (closed r ∷ ps) e = let same : r ≡ s = cc in rw same (omega arith)
end-holding t s zero (ended ∷ ps) e = cc
end-holding t s (suc i) (serving r ∷ ps) e = omega (arith, end-holding t s i ps e)
end-holding t s (suc i) (closed r ∷ ps) e = omega (arith, end-holding t s i ps e)
end-holding t s (suc i) (ended ∷ ps) e = end-holding t s i ps e

start-holding :
    (t s : ℕ) (ps : List Phase) → holding t (ps ++ serving s ∷ []) ≡ holding t ps + one_if (s == t)
start-holding t s [] = omega arith
start-holding t s (serving r ∷ ps) = omega (arith, start-holding t s ps)
start-holding t s (closed r ∷ ps) = omega (arith, start-holding t s ps)
start-holding t s (ended ∷ ps) = start-holding t s ps

erase_client-other :
    (t s : ℕ) (cs : List (ℕ × ℕ))
    → (s == t) ≡ false
    → has_client t (erase_client s cs) ≡ has_client t cs
unfolding erase_client
erase_client-other t s [] e = refl
erase_client-other t s ((k, v) ∷ cs) e = ground (arith, e, erase_client-other t s cs e)

register-Listed : (s : ℕ) (v : Server) → Listed (up v) → Listed (register s v)
unfolding register
register-Listed s v h = elim (Bool-cases (has_client s v.clients)) [
  | inl taken ↦ rw taken tt
  | inr fresh ↦ rw fresh (λ t. added t fresh)
]
  where
    added :
        (t : ℕ)
        → has_client s v.clients ≡ false
        → holding t (v.threads ++ serving s ∷ [])
          ≤ one_if (if s == t then true else has_client t v.clients)
    added t fresh = elim (Bool-cases (s == t)) [
      | inl same ↦
          let e : s ≡ t = (==_iff s t).0 same in
          let none_yet : holding t v.threads ≤ 0 = rw (rw e at fresh) at (h t) in
          rw same (omega (arith, none_yet, rw same at (start-holding t s v.threads)))
      | inr other ↦ rw other (omega (arith, h t, rw other at (start-holding t s v.threads)))
    ]

one_if_le : (b : Bool) → one_if b ≤ 1
one_if_le true = omega arith
one_if_le false = omega arith

erase-Listed :
    (i s : ℕ) (v : Server)
    → get_elem? v.threads i ≡ some (closed s)
    → Listed (up v)
    → (t : ℕ) → holding t (set v.threads i ended) ≤ one_if (has_client t (erase_client s v.clients))
erase-Listed i s v e h t = elim (Bool-cases (s == t)) [
  | inl same ↦
      let one_less : holding t (set v.threads i ended) + 1 ≡ holding t v.threads =
        rw same at (end-holding t s i v.threads e) in
      omega (arith, one_less, h t, one_if_le (has_client t v.clients))
  | inr other ↦
      let as_before : holding t (set v.threads i ended) + 0 ≡ holding t v.threads =
        rw other at (end-holding t s i v.threads e) in
      rw (erase_client-other t s v.clients other) (omega (arith, as_before, h t))
]

admit-Listed : (s : ℕ) (v : Server) → Listed (up v) → Listed (up (admit s v))
unfolding admit
admit-Listed s v h = elim (Bool-cases (leb max_clients (length v.clients))) [
  | inl full ↦ rw full h
  | inr free ↦ rw free h
]

Step-Listed : {p q : State} → Step p q → Listed p → Listed q
Step-Listed (accept {v} s e f) h = admit-Listed s v h
Step-Listed (start {v} s e) h = register-Listed s v h
Step-Listed (close {v} i s e) h = λ t. omega (arith, h t, close-holding t s i v.threads e)
Step-Listed (erase {v} i s e) h = erase-Listed i s v e h

Reach-Listed : (p : State) → Reach (up started) p → Listed p
Reach-Listed p here = λ s. omega arith
Reach-Listed p (later x s) = Step-Listed s (Reach-Listed _ x)

serving-holding : (s : ℕ) (ps : List Phase) → is_serving s ps ≡ true → 1 ≤ holding s ps
serving-holding s [] h = ground (arith, h)
serving-holding s (serving r ∷ ps) h = ground (arith, h, serving-holding s ps)
serving-holding s (closed r ∷ ps) h = omega (arith, serving-holding s ps h)
serving-holding s (ended ∷ ps) h = serving-holding s ps h

closed_held : (s i : ℕ) (ps : List Phase) → get_elem? ps i ≡ some (closed s) → 1 ≤ holding s ps
closed_held s i ps e =
    let same : (s == s) ≡ true = (==_iff s s).1 refl in
    let ends = end-holding s s i ps e in omega (arith, rw same at ends)

-- Where a thread has closed its socket and another one serves it, both hold it.
closed-holding :
    (s i : ℕ) (ps : List Phase)
    → get_elem? ps i ≡ some (closed s)
    → is_serving s ps ≡ true
    → 2 ≤ holding s ps
closed-holding s i [] e h = cc
closed-holding s zero (serving r ∷ ps) e h = cc
closed-holding s zero (closed r ∷ ps) e h =
    let same : (r == s) ≡ true = (==_iff r s).1 cc in
    rw same (omega (arith, serving-holding s ps h))
closed-holding s zero (ended ∷ ps) e h = cc
closed-holding s (suc i) (serving r ∷ ps) e h = elim (Bool-cases (r == s)) [
  | inl same ↦ rw same (omega (arith, closed_held s i ps e))
  | inr other ↦
      let serves : is_serving s ps ≡ true = rw other at h in
      rw other (omega (arith, closed-holding s i ps e serves))
]
closed-holding s (suc i) (closed r ∷ ps) e h = omega (arith, closed-holding s i ps e h)
closed-holding s (suc i) (ended ∷ ps) e h = closed-holding s i ps e h

set_there :
    (i : ℕ) (p q : Phase) (ps : List Phase)
    → get_elem? ps i ≡ some p
    → get_elem? (set ps i q) i ≡ some q
set_there i p q [] e = cc
set_there zero p q (x ∷ ps) e = refl
set_there (suc i) p q (x ∷ ps) e = set_there i p q ps e

Reach-after : {p q r : State} → Step p q → Reach q r → Reach p r
Reach-after s here = later here s
Reach-after s (later x s') = later (Reach-after s x) s'

-- From every state that a server can get into in which a client is served, a new one would be accepted and
-- there is room for it, it can come to std::terminate: the cleanup of the client closes its socket, the
-- kernel gives the descriptor to the next client before the entry is erased, and registering that one
-- replaces the thread.
pub serving-terminated :
    (v : Server) (i s : ℕ)
    → Reach (up started) (up v)
    → get_elem? v.threads i ≡ some (serving s)
    → v.acceptor ≡ idle
    → length v.clients < max_clients
    → Reach (up v) terminated
serving-terminated v i s reached there ready room =
    let q : Server = record v { threads = set v.threads i (closed s) } in
    let gone = set_there i (serving s) (closed s) v.threads there in
    let listed = Reach-Listed (up q) (later reached (close {v = v} i s there)) s in
    Reach-after (close {v = v} i s there)
      (Reach-terminated q i s gone (free q gone listed) (in_map q gone listed) ready room)
  where
    free :
        (q : Server)
        → get_elem? q.threads i ≡ some (closed s)
        → holding s q.threads ≤ one_if (has_client s q.clients)
        → is_serving s q.threads ≡ false
    free q gone listed = elim (Bool-cases (is_serving s q.threads)) [
      | inl serves ↦ ground (
        arith,
        closed-holding s i q.threads gone serves,
        listed,
        one_if_le (has_client s q.clients),
      )
      | inr free_now ↦ free_now
    ]

    in_map :
        (q : Server)
        → get_elem? q.threads i ≡ some (closed s)
        → holding s q.threads ≤ one_if (has_client s q.clients)
        → has_client s q.clients ≡ true
    in_map q gone listed = elim (Bool-cases (has_client s q.clients)) [
      | inl present ↦ present
      | inr absent ↦
          let none_left : holding s q.threads ≤ 0 = rw absent at listed in
          ground (arith, none_left, closed_held s i q.threads gone)
    ]
