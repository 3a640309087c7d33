-- ===== src/Client.antt =====
-- `send_command` of src/client.cpp. The socket and the clock are a parameter: what each round of the loop
-- meets is an event. The thread `receive_responses`, which only watches whether the
-- connection is closed, is `watch` of Client/Main.
pub mod Receiving
pub mod RoundTrip
pub mod Main
pub mod Session
pub mod Welcome
use cs.Prelude.{
  ℕ, List, [], ◌∷◌, ◌++◌, Bool, true, false, not, ◌&&◌, Option, none, some, ◌==◌, if◌then◌else◌,
  take,
}
use cs.Store.{codes, same_name}
use cs.Text.{Text, contains}
use cs.Server.{delimiter, cut_command}
use cs.Server.Commands.{SendResult, accepted, interrupted, failed, first_of}

-- A round of the loop: bytes arrive, nothing arrives (also after `EINTR` and `EAGAIN`), `select` or `recv`
-- fails, the server closes the connection, or the test of the clock at the start of the round holds.
pub data Event : Type 0 where
  received : Text → Event
  quiet broken closed timed_out : Event

-- A response, an exception, or a loop that is still waiting where the events end.
pub data Answer : Type 0 where
  response : Text → Answer
  not_connected send_failed receive_failed closed_by_server timeout waiting : Answer

-- `response.find("Processing load command")` with a delimiter, for a load command.
abbrev pub is_acknowledgment : Text → Text → Bool
is_acknowledgment command full =
    first_of command == b'l'
    && (contains (codes "Processing load command") full && contains delimiter full)

abbrev pub complete : Option (Text × Text) → Answer → Answer
complete none later = later
complete (some (reply, rest)) later = response reply

-- `while (true)`, with the response so far.
unfoldable pub receive_loop : Text → List Event → Text → Answer
unfolding contains cut_command
receive_loop command [] full = waiting
receive_loop command (received bytes ∷ events) full =
    let later = receive_loop command events (full ++ bytes) in
    let cleared = receive_loop command events [] in
    if is_acknowledgment command (full ++ bytes)
    then cleared
    else complete (cut_command (full ++ bytes)) later
receive_loop command (quiet ∷ events) full = receive_loop command events full
receive_loop command (broken ∷ events) full = receive_failed
receive_loop command (closed ∷ events) full = closed_by_server
receive_loop command (timed_out ∷ events) full = timeout

-- What the socket takes of the command, in a single call, and the answer.
abbrev pub after_sending : SendResult → Text → Answer → Text × Answer
after_sending (accepted n) full_command answer = (take n full_command, answer)
after_sending interrupted full_command answer = ([], send_failed)
after_sending failed full_command answer = ([], send_failed)

-- The exit command has no response, and an error of its `send` is ignored.
abbrev pub after_exit : SendResult → Text → Text × Answer
after_exit (accepted n) full_command = (take n full_command, response [])
after_exit interrupted full_command = ([], response [])
after_exit failed full_command = ([], response [])

unfoldable pub send_command : Bool → SendResult → List Event → Text → Text × Answer
unfolding receive_loop
send_command connected sent events command =
    if not connected
    then ([], not_connected)
    else if same_name command (codes "q")
    then after_exit sent (command ++ delimiter)
    else after_sending sent (command ++ delimiter) (receive_loop command events [])

-- `disconnect`, which marks the client as disconnected before it sends the exit command.
unfoldable pub disconnect : Bool → SendResult → List Event → Text
unfolding send_command
disconnect connected sent events =
    if not connected then [] else (send_command false sent events (codes "q")).0
