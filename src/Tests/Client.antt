-- ===== src/Tests/Client.antt =====
-- Examples on the terminal of the client.
use cs.Prelude.{ℕ, ◌≡◌, refl, Bool, List, [], ◌∷◌, ◌++◌, none, true, take, drop, arith}
use cs.SkipList.{get_all_sorted}
use cs.Store.{codes, same_name}
use cs.Text.{contains, starts_with, Text, signed_text}
use cs.Compaction.Sorting.{insertion_sort}
use cs.Tree.{LsmTree}
use cs.Tree.Holds.{TreeHolds, newest}
use cs.Server.{cut_command, delimiter, go_on}
use cs.Server.Commands.{not_ready, accepted, handle_command}
use cs.Client.{receive_loop, Event, received, response, send_command}
use cs.Client.Welcome.{ready, read_welcome, send_command-read_welcome}
use cs.Client.Receiving.{IsData, bytes_of}
use cs.Client.RoundTrip.{get_answer}
use cs.Client.Main.{Turn, running, interact, then_session}
use cs.Client.Session.{IsAnswered, repeated, get_turn, interact-handle_command, interact-repeated}
use cs.Tests.{coarse}
use cs.Tests.Trees.{tree, held, tree-TreeHolds}
use cs.Tests.Server.{what, fixed, times, slow, slow-Accepts, connection}

interact-handle_command_example :
    (t : LsmTree) × (calls : ℕ) × (reply : Text) × (handle_command what coarse
        (insertion_sort true)
        fixed
        times
        (λ n. n)
        slow
        (λ n. not_ready)
        0
        (b'g' ∷ 32 ∷ signed_text 5)
        connection
      ≡ (go_on, record { tree = t; sent = [] ++ reply; calls = calls }))
    × TreeHolds t held
    × ((typed : Text) (n : ℕ) (events : List Event) (after : Bool) (turns : List Turn)
        → IsData events
        → bytes_of events ≡ reply
        → interact typed (get_turn 5 n events after ∷ turns)
          ≡ then_session
              (get_answer (newest 5 (get_all_sorted tree.buffer) held) ∷ [])
              (take n ((b'g' ∷ 32 ∷ signed_text 5) ++ delimiter))
              (interact (b'g' ∷ 32 ∷ signed_text 5) turns))
interact-handle_command_example =
    interact-handle_command what coarse (insertion_sort true) fixed times (λ n. n) slow
      (λ n. not_ready) 0 connection held 5 slow-Accepts (omega arith) tree-TreeHolds

-- A round behind the end of the input, in which the answer comes.
abbrev again : Turn
again = record {
  line = none;
  connected = true;
  sent = accepted 5;
  events = received (codes "50" ++ delimiter) ∷ [];
  connected_after = true;
}

again-IsAnswered : IsAnswered (codes "g 5") again
unfolding receive_loop cut_command contains starts_with
again-IsAnswered = record {
  no_input = refl;
  is_connected = refl;
  taken = refl;
  reply = codes "50";
  replied = refl;
}

interact-repeated_example :
    ((interact (codes "g 5") (again ∷ again ∷ [])).written ≡ repeated 2 (codes "g 5" ++ delimiter))
    × ((interact (codes "g 5") (again ∷ again ∷ [])).ending ≡ running)
unfolding same_name
interact-repeated_example =
    interact-repeated (codes "g 5") (again ∷ again ∷ []) refl refl
      (again-IsAnswered, (again-IsAnswered, tt))

-- The server's greeting comes in two pieces, and the answer to the command with the second one.
send_command-read_welcome_example :
    (send_command true
      (accepted 5)
      (received (drop 9 ready ++ (delimiter ++ (codes "42" ++ delimiter))) ∷ [])
      (codes "g 5")).1
    ≡ response (codes "ready and waiting for commands")
unfolding same_name read_welcome
send_command-read_welcome_example =
    send_command-read_welcome 9 5 (codes "g 5") (codes "42" ++ delimiter)
      (received (drop 9 ready ++ (delimiter ++ (codes "42" ++ delimiter))) ∷ []) (omega arith) refl
      refl tt refl
