-- ===== src/Server.antt =====
-- The loop of `handle_client` in src/server.cpp that cuts the bytes of a client into commands. What `recv`
-- delivers is a list of texts; how a command is handled is a parameter here, and a definition in
-- Server/Commands.
pub mod Framing
pub mod Commands
pub mod Sending
pub mod Wire
pub mod Clients
pub mod Main
pub mod Lifecycle
pub mod Owned
pub mod Reused
pub mod Sockets
use cs.Prelude.{
  ℕ, zero, suc, ◌≡◌, List, [], ◌∷◌, ◌++◌, ◌&&◌, Option, none, some, ◌==◌, if◌then◌else◌, length,
}
use cs.Result.{Error}
use cs.Text.{Text, in_front}

-- `CMD_DELIMITER`
abbrev pub delimiter : Text
delimiter = 13 ∷ 10 ∷ []

-- What stands in front of the first delimiter, and behind it.
unfoldable pub cut_command : Text → Option (Text × Text)
cut_command [] = none
cut_command (c ∷ []) = none
cut_command (c ∷ d ∷ cs) =
    let later = in_front c (cut_command (d ∷ cs)) in
    if c == 13 && d == 10 then some ([], cs) else later

-- Whether the loop goes on after a command: `goto cleanup` hangs up, undefined behaviour ends the
-- process.
pub data Verdict : Type 0 where
  go_on hang_up : Verdict
  crash : Error → Verdict

module _ {ℓ} {C : Type ℓ} (handle : Text → C → Verdict × C) where
  -- The verdict, the buffer that is left and the state of the connection.
  abbrev pub Served : Type ℓ
  Served = Verdict × (Text × C)

  abbrev pub handled : Text → Verdict × C → (Text → C → Served) → Served
  handled rest (go_on, c) next = next rest c
  handled rest (hang_up, c) next = (hang_up, (rest, c))
  handled rest (crash e, c) next = (crash e, (rest, c))

  abbrev pub next_command : Text → Option (Text × Text) → C → (Text → C → Served) → Served
  next_command buffer none c next = (go_on, (buffer, c))
  next_command buffer (some (command, rest)) c next = handled rest (handle command c) next

  -- `while ((delimiter_pos = command_buffer.find(...)) != npos)`. Each command takes two characters at
  -- least from the buffer.
  unfoldable pub drain : ℕ → Text → C → Served
  unfolding cut_command
  drain zero buffer c = (go_on, (buffer, c))
  drain (suc fuel) buffer c = next_command buffer (cut_command buffer) c (drain fuel)

  abbrev pub served : Served → (Text → C → Served) → Served
  served (go_on, (buffer, c)) next = next buffer c
  served (hang_up, left) next = (hang_up, left)
  served (crash e, left) next = (crash e, left)

  -- `while (running.load())`, over what the calls of `recv` deliver until the connection is closed.
  unfoldable pub serve : List Text → Text → C → Served
  unfolding drain
  serve [] buffer c = (go_on, (buffer, c))
  serve (chunk ∷ chunks) buffer c =
      served (drain (length (buffer ++ chunk)) (buffer ++ chunk) c) (serve chunks)
