-- ===== src/Tests/Server.antt =====
-- Examples on the server: a client that asks for a key and leaves.
use cs.Prelude.{ℕ, ◌≡◌, ◌≤◌, refl, List, [], ◌∷◌, ◌++◌, true, false, none, arith, length}
use cs.Result.{ok, Error}
use cs.Store.{codes}
use cs.Text.{Text}
use cs.Compaction.Sorting.{insertion_sort}
use cs.Adapter.Stats.{Times}
use cs.Server.{cut_command}
use cs.Server.Framing.{outcome, run_commands}
use cs.Server.Commands.{
  not_ready, Connection, Socket, accepted, send, send_all, welcome, handle_command, handle_client,
}
use cs.Server.Sending.{Accepts, send_all-sent, handle_client-framed}
use cs.Client.{Event, received, quiet}
use cs.Server.Clients.{
  Server, up, terminated, serving, idle, Reach, here, later, accept, start, started, admit,
  register, max_clients, Reach-Bounded,
}
use cs.Server.Reused.{serving-terminated}
use cs.Tests.{coarse}
use cs.Tests.Trees.{tree}

abbrev pub what : Error → Text
what e = codes "error"

abbrev pub fixed : ℕ → ℕ → Text
fixed precision x = codes "0"

abbrev pub times : Times
times = record { total_read_time_ms = 0; total_write_time_ms = 0 }

-- A socket that takes three bytes with each call.
abbrev pub slow : Socket
slow n = accepted 3

pub slow-Accepts : Accepts slow
slow-Accepts n = (2, refl)

abbrev pub connection : Connection
connection = record { tree = tree; sent = []; calls = 0 }

send_all-sent_example :
    (calls : ℕ) × (send_all slow false 9 (codes "Key found") connection
      ≡ (ok true, record connection { sent = [] ++ codes "Key found"; calls = calls }))
send_all-sent_example =
    send_all-sent slow false 9 (codes "Key found") connection slow-Accepts (omega arith)

fifty : cut_command (codes "50") ≡ none
unfolding cut_command
fifty = refl

-- The reply, cut behind its second character.
abbrev reply_events : List Event
reply_events = received (codes "50") ∷ quiet ∷ received (codes "\r\n") ∷ []

-- The bytes of two commands, cut inside the first delimiter.
abbrev pieces : List Text
pieces = codes "g 5\r" ∷ codes "\nq\r\n" ∷ []

greeted : (send slow welcome connection).0 ≡ true
unfolding send
greeted = refl

whole : (cut_command (codes "g 5") ≡ none) × (cut_command (codes "q") ≡ none) × Unit {0}
unfolding cut_command
whole = (refl, refl, tt)

handle_client-framed_example :
    outcome (
      handle_client what coarse
        (insertion_sort true)
        fixed
        times
        (λ n. n)
        slow
        (λ chunks n. not_ready)
        0
        pieces
        connection)
    ≡ run_commands
        (handle_command what coarse
          (insertion_sort true)
          fixed
          times
          (λ n. n)
          slow
          (λ n. not_ready)
          0)
        (codes "g 5" ∷ codes "q" ∷ [])
        (send slow welcome connection).1
handle_client-framed_example =
    handle_client-framed what coarse (insertion_sort true) fixed times (λ n. n) slow
      (λ chunks n. not_ready) 0 pieces (codes "g 5" ∷ codes "q" ∷ []) connection greeted refl
      (whole.0, (whole.1, tt))

-- One client, served on socket 4.
abbrev one_client : Server
one_client = record { clients = (4, 0) ∷ []; threads = serving 4 ∷ []; acceptor = idle }

one_client-Reach : Reach (up started) (up one_client)
unfolding admit register
one_client-Reach = later (later here (accept 4 refl refl)) (start 4 refl)

Reach-Bounded_example : length one_client.clients ≤ max_clients
Reach-Bounded_example = Reach-Bounded one_client one_client-Reach

serving-terminated_example : Reach (up one_client) terminated
serving-terminated_example =
    serving-terminated one_client 0 4 one_client-Reach refl refl (omega arith)
