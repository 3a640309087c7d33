-- ===== src/Client/Main.antt =====
-- `connect` of src/client.cpp and the terminal of src/main_client.cpp. What the network does is a
-- parameter, and so is what is typed: a turn is a line with what its command meets.
use cs.Prelude.{
  Option, none, some, List, [], ◌∷◌, ◌++◌, Bool, true, false, not, if◌then◌else◌, is_empty, ◌==◌,
  ◌&&◌,
}
use cs.Store.{codes, same_name}
use cs.Text.{Text}
use cs.Server.Commands.{SendResult, first_of}
use cs.Client.{
  Event, Answer, response, not_connected, send_failed, receive_failed, closed_by_server, timeout,
  waiting, send_command, disconnect,
}

-- Whether a socket is created, the host has an address, and the server is reached.
pub record Network : Type 0 where
  pub created : Bool
  pub resolved : Bool
  pub reached : Bool

-- `connect` from the flag `connected`: its result, and the flag after it.
unfoldable pub connect : Network → Bool → Bool × Bool
connect n connected =
    if connected
    then (true, true)
    else if not n.created
    then (false, false)
    else if not n.resolved
    then (false, false)
    else if not n.reached
    then (false, false)
    else (true, true)

-- What `receive_responses` meets in a round: nothing to read, or what its look at the socket gives.
pub data Look : Type 0 where
  nothing bytes_there try_again socket_error end_of_stream : Look

-- `receive_responses`: the flag `connected` after the rounds.
unfoldable pub watch : List Look → Bool
watch [] = true
watch (nothing ∷ looks) = watch looks
watch (bytes_there ∷ looks) = watch looks
watch (try_again ∷ looks) = watch looks
watch (socket_error ∷ looks) = false
watch (end_of_stream ∷ looks) = false

-- The lines that are printed for a response.
unfoldable pub display_response : Text → Text → List Text
display_response command reply =
    if first_of command == b's'
    then reply ∷ []
    else if first_of command == b'g' && not (is_empty reply)
    then reply ∷ []
    else if not (is_empty reply)
    then (codes "Response: " ++ reply) ∷ []
    else if first_of command == b'g'
    then codes "Key not found" ∷ []
    else []

-- What `std::getline` reads, none where the input has ended before, whether the client is connected when it
-- sends the command and after an exception, and what the command meets.
pub record Turn : Type 0 where
  pub line : Option Text
  pub connected : Bool
  pub sent : SendResult
  pub events : List Event
  pub connected_after : Bool

pub data Ending : Type 0 where
  quit lost running : Ending

-- The lines that were printed for responses, the bytes that went to the socket, and how the loop
-- ended, or that it runs.
pub record Session : Type 0 where
  pub printed : List Text
  pub written : Text
  pub ending : Ending

abbrev pub ended_with : Text → Ending → Session
ended_with out e = record { printed = []; written = out; ending = e }

abbrev pub then_session : List Text → Text → Session → Session
then_session lines out s = record s { printed = lines ++ s.printed; written = out ++ s.written }

abbrev pub after_exception : Bool → Text → Session → Session
after_exception true out later = then_session [] out later
after_exception false out later = ended_with out lost

-- What follows an answer to a command.
abbrev pub after_answer : Turn → Text → Text → Answer → Session → Session
after_answer t command out (response reply) later =
    then_session (display_response command reply) out later
after_answer t command out waiting later = ended_with out running
after_answer t command out not_connected later = after_exception t.connected_after out later
after_answer t command out send_failed later = after_exception t.connected_after out later
after_answer t command out receive_failed later = after_exception t.connected_after out later
after_answer t command out closed_by_server later = after_exception t.connected_after out later
after_answer t command out timeout later = after_exception t.connected_after out later

abbrev pub answered : Turn → Text → Text × Answer → Session → Session
answered t command (out, answer) later = after_answer t command out answer later

-- The string after `std::getline`. At the end of the input it is erased where the last line had its newline
-- (the turn has an empty line then); a call behind that leaves it as it is.
abbrev pub getline : Option Text → Text → Text
getline none command = command
getline (some line) command = line

-- The interactive loop, with the string from the round before; it still runs where the turns end.
unfoldable pub interact : Text → List Turn → Session
interact command [] = ended_with [] running
interact command (t ∷ turns) =
    let typed = getline t.line command in
    let later = interact typed turns in
    let sent = answered t typed (send_command t.connected t.sent t.events typed) later in
    let left = ended_with (disconnect t.connected t.sent t.events) quit in
    if is_empty typed then later else if same_name typed (codes "q") then left else sent
