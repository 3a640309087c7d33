-- ===== src/Server/Commands.antt =====
-- What `handle_client` of src/server.cpp does with a command, and `process_command`. The calls of `send`
-- go to a socket, a parameter: what a call returns is a function of how many there were before it.
use cs.Prelude.{
  ℕ, zero, suc, ◌+◌, min, List, [], ◌∷◌, ◌++◌, Bool, true, false, ◌||◌, ◌==◌, if◌then◌else◌, length,
  take, drop, is_empty,
}
use cs.Result.{Result, ok, err, Error, is_exception, no_fuel}
use cs.Pair.{KeyValuePair}
use cs.Double.{Doubles}
use cs.Store.{codes, to_string, same_name}
use cs.Text.{Text, joined, contains}
use cs.Tree.{LsmTree, TreeAction}
use cs.Adapter.{tokenize}
use cs.Adapter.Stats.{Times}
use cs.Adapter.Load
use cs.Adapter.Load.{Quoted, no_quote, unclosed, quoted, find_quoted}
use cs.Server.{delimiter, Verdict, go_on, hang_up, crash, serve}

-- What `send` returns: a number of bytes, or an error, which is `EINTR` in the first case.
pub data SendResult : Type 0 where
  accepted : ℕ → SendResult
  interrupted failed : SendResult

-- `sent` is what the socket took so far.
pub record Connection : Type 0 where
  pub tree : LsmTree
  pub sent : Text
  pub calls : ℕ

abbrev pub Socket : Type 0
Socket = ℕ → SendResult

-- A socket takes no more than it is offered.
abbrev pub took : ℕ → Text → Connection → Connection
took n text c = record c { sent = c.sent ++ take n text; calls = suc c.calls }

abbrev pub called : Connection → Connection
called c = record c { calls = suc c.calls }

-- A single call of `send`, with whether it was without an error.
abbrev pub sent_once : SendResult → Text → Connection → Bool × Connection
sent_once (accepted n) text c = (true, took n text c)
sent_once interrupted text c = (false, called c)
sent_once failed text c = (false, called c)

unfoldable pub send : Socket → Text → Connection → Bool × Connection
send socket text c = sent_once (socket c.calls) text c

-- `CHUNK_SIZE`
abbrev pub chunk_size : ℕ
chunk_size = 4096

abbrev pub after_send :
    SendResult
    → Bool
    → Text
    → Connection
    → (Text → Connection → Result Bool × Connection)
    → Result Bool × Connection
after_send (accepted n) retry text c next =
    next (drop (min n chunk_size) text) (took (min n chunk_size) text c)
after_send interrupted retry text c next =
    if retry then next text (called c) else (ok false, called c)
after_send failed retry text c next = (ok false, called c)

-- `while (bytes_sent < total_bytes)`, over the text that is left. The loop for load commands tries again
-- after `EINTR`. The result is false for `goto cleanup`.
unfoldable pub send_all : Socket → Bool → ℕ → Text → Connection → Result Bool × Connection
send_all socket retry fuel [] c = (ok true, c)
send_all socket retry zero (b ∷ text) c = (err no_fuel, c)
send_all socket retry (suc fuel) (b ∷ text) c =
    after_send (socket c.calls) retry (b ∷ text) c (send_all socket retry fuel)

-- `HELP_TEXT` of include/constants.h.
abbrev pub help_text : Text
help_text = joined (
    codes "\nLSM-Tree\n========\nAvailable commands:\n\n"
    ∷ codes "p [key] [value]     - Put a key-value pair into the tree\n"
    ∷ codes "g [key]             - Get the value associated with a key\n"
    ∷ codes "r [start] [end]     - Range query for keys from start (inclusive) to end (exclusive)\n"
    ∷ codes "d [key]             - Delete a key-value pair\n"
    ∷ codes "l \"[filepath]\"      - Load key-value pairs from a binary file\n"
    ∷ codes "s                   - Print statistics about the tree\n"
    ∷ codes "h                   - Show this help message\n"
    ∷ codes "q                   - Disconnect from the server\n"
    ∷ [])

-- `tokens.size() > 1`
abbrev pub has_arguments : List Text → Bool
has_arguments (a ∷ b ∷ tokens) = true
has_arguments tokens = false

-- A reply that reports success is replaced by a longer one.
unfoldable pub loaded_reply : Text → Text → Text
loaded_reply filepath result =
    if is_empty result || contains (codes "successfully") result
    then joined (
        codes "File loaded successfully: "
        ∷ filepath
        ∷ codes "\nLoaded data is now available for queries."
        ∷ [])
    else result

abbrev pub stats_summary : LsmTree → Text
stats_summary t = joined (
    codes "LSM-Tree Statistics Summary:\n==========================\nBuffer Size: "
    ∷ to_string t.buffer_size_bytes
    ∷ codes " bytes\nSize Ratio: 4\nLevel Count: 6\n"
    ∷ codes "==========================\n"
    ∷ [])

abbrev pub detailed : Text → Text
detailed lsm_stats =
    if is_empty lsm_stats
    then codes "No detailed stats available - tree may be empty\n"
    else codes "Detailed stats:\n" ++ lsm_stats

module _ (what : Error → Text) where
  -- `catch (const std::exception &e)` with the start of its reply.
  abbrev pub caught : Text → (Text → Text) → Result Text × LsmTree → Result Text × LsmTree
  caught start reply (ok result, t) = (ok (reply result), t)
  caught start reply (err e, t) = if is_exception e then (ok (start ++ what e), t) else (err e, t)

  module _ (d : Doubles) (sort : List KeyValuePair → List KeyValuePair) (fixed : ℕ → ℕ → Text)
      (times : Times) (draw : ℕ) where
    abbrev pub forward : Text → TreeAction Text
    forward = Load.process_command what d sort fixed times draw

    abbrev pub load_reply : Quoted → Text → TreeAction Text
    load_reply no_quote command t =
        (ok (codes "Error: Load command requires filepath in quotes"), t)
    load_reply unclosed command t = (ok (codes "Error: Unclosed quote in filepath"), t)
    load_reply (quoted filepath after) command t =
        caught (codes "Error loading file: ") (loaded_reply filepath) (forward command t)

    -- The exception of the detailed part is caught inside the summary.
    abbrev pub detailed_reply : Result Text × LsmTree → Result Text × LsmTree
    detailed_reply (ok lsm_stats, t) = (ok (detailed lsm_stats), t)
    detailed_reply (err e, t) =
        if is_exception e
        then (ok (joined (codes "Error getting detailed stats: " ∷ what e ∷ codes "\n" ∷ [])), t)
        else (err e, t)

    abbrev pub stats_reply : Text → TreeAction Text
    stats_reply command t =
        caught [] (λ more. stats_summary t ++ more) (detailed_reply (forward command t))

    unfoldable pub process_command : Text → TreeAction Text
    unfolding Load.process_command loaded_reply
    process_command [] t = (ok (codes "Error: Empty command"), t)
    process_command (c ∷ cs) t =
        if c == b'h'
        then (
          ok (
              if has_arguments (tokenize (c ∷ cs))
              then codes "Error: Help command takes no arguments: h"
              else help_text),
          t,
        )
        else if c == b'q'
        then (
          ok (
              if has_arguments (tokenize (c ∷ cs))
              then codes "Error: Quit command takes no arguments: q"
              else codes "Disconnecting..."),
          t,
        )
        else if c == b'l'
        then load_reply (find_quoted (c ∷ cs)) (c ∷ cs) t
        else if c == b's'
        then stats_reply (c ∷ cs) t
        else caught (codes "Error: ") (λ result. result) (forward (c ∷ cs) t)

-- The first character of a command, as `command[0]`, which is 0 for an empty one.
abbrev pub first_of : Text → ℕ
first_of [] = 0
first_of (c ∷ cs) = c

-- An empty response is replaced, and one without a delimiter is given one.
unfoldable pub formatted : Text → Text → Text
unfolding contains
formatted command response =
    let full =
      if is_empty response
      then (if first_of command == b'g'
          then codes "Key not found"
          else if first_of command == b'r'
          then codes "No results in range"
          else codes "Operation completed")
      else response in
    if contains delimiter full then full else full ++ delimiter

unfoldable pub ends_in_newline : Text → Bool
ends_in_newline [] = false
ends_in_newline (c ∷ []) = c == 10
ends_in_newline (c ∷ d ∷ cs) = ends_in_newline (d ∷ cs)

-- The same for a load command: a newline and a delimiter.
unfoldable pub formatted_load : Text → Text
unfolding ends_in_newline
formatted_load response =
    let full = if is_empty response then codes "File loaded successfully" else response in
    (if ends_in_newline full then full else full ++ codes "\n") ++ delimiter

abbrev pub acknowledgment : Text
acknowledgment = codes "Processing load command, this may take some time..." ++ delimiter

-- The welcome message.
abbrev pub welcome : Text
welcome = codes "LSM-Tree ready and waiting for commands" ++ delimiter

-- What the check after a load command finds: `select` reports nothing, there are bytes to read, or `recv` with
-- `MSG_PEEK` finds the end of the stream (or an error, which the code takes for no end).
pub data Peek : Type 0 where
  not_ready readable at_end broken : Peek

abbrev pub after_peek : Peek → Verdict
after_peek not_ready = go_on
after_peek readable = go_on
after_peek at_end = hang_up
after_peek broken = go_on

-- `peek` is what the checks after load commands find in one connection. That depends on the bytes that `recv`
-- has not taken by then: a check is told from the others by the number of calls of `send` before it, which
-- grows from one to the next. `rounds` is how many calls of `send` take nothing.
module _ (what : Error → Text) (d : Doubles) (sort : List KeyValuePair → List KeyValuePair)
    (fixed : ℕ → ℕ → Text) (times : Times) (draw : ℕ → ℕ) (socket : Socket) (peek : ℕ → Peek)
    (rounds : ℕ) where
  abbrev pub finished : Verdict → Result Bool × Connection → Verdict × Connection
  finished next (ok true, c) = (next, c)
  finished next (ok false, c) = (hang_up, c)
  finished next (err e, c) = (crash e, c)

  -- Sending what `process_command` answered.
  abbrev pub respond :
      (Text → Text) → Bool → Connection → Result Text × LsmTree → Result Bool × Connection
  respond format retry c (ok response, t) =
      send_all socket retry (length (format response) + rounds) (format response)
        (record c { tree = t })
  respond format retry c (err e, t) = (err e, record c { tree = t })

  abbrev pub handle_load_command : Text → Connection → Verdict × Connection
  handle_load_command command c =
      let (acknowledged, c') = send socket acknowledgment c in
      let (result, c'') =
        respond formatted_load true c'
          (process_command what d sort fixed times (draw c'.calls) command c'.tree) in
      finished (after_peek (peek c''.calls)) (result, c'')

  unfoldable pub handle_command : Text → Connection → Verdict × Connection
  unfolding process_command formatted formatted_load send_all send
  handle_command command c =
      if same_name command (codes "q")
      then (hang_up, c)
      else if first_of command == b'l'
      then handle_load_command command c
      else finished go_on (
          respond (formatted command) false c
            (process_command what d sort fixed times (draw c.calls) command c.tree))

-- `handle_client` up to the cleanup, over what `recv` delivers, on which what the checks find depends.
module _ (what : Error → Text) (d : Doubles) (sort : List KeyValuePair → List KeyValuePair)
    (fixed : ℕ → ℕ → Text) (times : Times) (draw : ℕ → ℕ) (socket : Socket)
    (peek : List Text → ℕ → Peek) (rounds : ℕ) where
  unfoldable pub handle_client : List Text → Connection → Verdict × (Text × Connection)
  unfolding send serve handle_command
  handle_client chunks c =
      let (greeted, c') = send socket welcome c in
      if greeted
      then serve (handle_command what d sort fixed times draw socket (peek chunks) rounds) chunks []
          c'
      else (hang_up, ([], c'))
