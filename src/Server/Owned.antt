-- ===== src/Server/Owned.antt =====
-- The clients of src/server.cpp and the open sockets: what is open is in use, while clients come and go and
-- where `stop` closes what is in use.
use cs.Prelude.{
  ℕ, ◌≡◌, refl, sym, ◌∙◌, List, [], ◌∷◌, Bool, true, false, ◌&&◌, Option, none, some, ◌==◌, ltb,
  length, arith, Bool-cases, inl, inr, ◌⊎◌,
}
use cs.Server.Clients.{max_clients}
use cs.Server.Lifecycle.{
  ServerState, opening, closing, close_server, close_clients, listed, erase, client_comes,
  client_leaves,
}

-- A socket that the server keeps open for a reason: it is the one that listens, or that of a client.
abbrev pub Used : ServerState → ℕ → Type 0
Used v r = (v.running ≡ true) × ((v.server_socket ≡ some r) ⊎ (listed r v.clients ≡ true))

abbrev pub Owned : ServerState → Type 0
Owned v = (r : ℕ) → v.open_sockets r ≡ true → Used v r

close_clients-closed :
    (ss : List ℕ) (f : ℕ → Bool) (r : ℕ)
    → close_clients ss f r ≡ true
    → (f r ≡ true) × (listed r ss ≡ false)
unfolding close_clients
close_clients-closed [] f r h = (h, refl)
close_clients-closed (s ∷ ss) f r h =
    let (kept, away) = close_clients-closed ss (closing s f) r h in ground (arith, kept, away)

erase-listed :
    (s : ℕ) (rs : List ℕ) (r : ℕ)
    → (r == s) ≡ false
    → listed r rs ≡ true
    → listed r (erase s rs) ≡ true
unfolding erase
erase-listed s [] r e h = h
erase-listed s (q ∷ rs) r e h = ground (arith, e, h, erase-listed s rs r e)

abbrev Cause : ServerState → ℕ → Type 0
Cause v r = (v.server_socket ≡ some r) ⊎ (listed r v.clients ≡ true)

entered-Cause :
    (s : ℕ) (v : ServerState) (r : ℕ)
    → (r == s) ≡ false
    → Cause v r
    → (v.server_socket ≡ some r) ⊎ (listed r (s ∷ v.clients) ≡ true)
entered-Cause s v r other (inl mine) = inl mine
entered-Cause s v r other (inr there) = inr (rw other there)

entered-Owned :
    (s : ℕ) (v : ServerState)
    → v.running ≡ true
    → Owned v
    → Owned (record v { clients = s ∷ v.clients; open_sockets = opening s v.open_sockets })
entered-Owned s v up own r h = elim (Bool-cases (r == s)) [
  | inl same ↦ (up, inr (rw same refl))
  | inr other ↦ (up, entered-Cause s v r other (own r (rw other at h)).1)
]

pub client_comes-Owned : (s : ℕ) (v : ServerState) → Owned v → Owned (client_comes s v).1
unfolding client_comes
client_comes-Owned s v own r = elim (Bool-cases (v.running && ltb (length v.clients) max_clients)) [
  | inl room ↦ rw room (entered-Owned s v (ground (arith, room)) own r)
  | inr full ↦ rw full (own r)
]

left-Cause :
    (s : ℕ) (v : ServerState) (r : ℕ)
    → (r == s) ≡ false
    → Cause v r
    → (v.server_socket ≡ some r) ⊎ (listed r (erase s v.clients) ≡ true)
left-Cause s v r other (inl mine) = inl mine
left-Cause s v r other (inr there) = inr (erase-listed s v.clients r other there)

pub client_leaves-Owned : (s : ℕ) (v : ServerState) → Owned v → Owned (client_leaves s v)
unfolding client_leaves
client_leaves-Owned s v own r h = elim (Bool-cases (r == s)) [
  | inl same ↦ ground (arith, rw same at h)
  | inr other ↦
      let open_before : v.open_sockets r ≡ true = rw other at h in
      let (up, cause) = own r open_before in (up, left-Cause s v r other cause)
]

-- No socket is open where the server does not run.
pub closed_down :
    (v : ServerState) → Owned v → v.running ≡ false → (r : ℕ) → v.open_sockets r ≡ false
closed_down v own down r = elim (Bool-cases (v.open_sockets r)) [
  | inl on ↦ ground (arith, (own r on).0, down)
  | inr off ↦ off
]

closed_mine : (o : Option ℕ) (f : ℕ → Bool) (r : ℕ) → o ≡ some r → close_server o f r ≡ false
closed_mine none f r e = ground (arith, e)
closed_mine (some s) f r e = ground (arith, e)

closed_before : (o : Option ℕ) (f : ℕ → Bool) (r : ℕ) → close_server o f r ≡ true → f r ≡ true
closed_before none f r h = h
closed_before (some s) f r h = ground (arith, h)

Cause-closed :
    (v : ServerState) (r : ℕ)
    → close_server v.server_socket v.open_sockets r ≡ true
    → listed r v.clients ≡ false
    → Cause v r
    → true ≡ false
Cause-closed v r h away (inl mine) = sym h ∙ closed_mine v.server_socket v.open_sockets r mine
Cause-closed v r h away (inr there) = sym there ∙ away

pub stopped_lem :
    (v : ServerState)
    → Owned v
    → (r : ℕ) → close_clients v.clients (close_server v.server_socket v.open_sockets) r ≡ true
    → true ≡ false
stopped_lem v own r h =
    let f = close_server v.server_socket v.open_sockets in
    let (kept, away) = close_clients-closed v.clients f r h in
    Cause-closed v r kept away (own r (closed_before v.server_socket v.open_sockets r kept)).1
