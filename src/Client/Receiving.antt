-- ===== src/Client/Receiving.antt =====
-- Where `recv` cuts a response makes no difference to the client.
use mathlib.Core.List.{append_assoc, append-nil}
use cs.Prelude.{
  ◌≡◌, refl, sym, ap, ◌∙◌, List, [], ◌∷◌, ◌++◌, Option, none, some, false, ◌==◌, some-injective,
  Option-cases, inl, inr,
}
use cs.Text.{Text}
use cs.Server.{delimiter, cut_command}
use cs.Server.Commands.{first_of}
use cs.Server.Framing.{cut_command-append, cut_command-framed}
use cs.Client.{Event, received, quiet, broken, closed, timed_out, response, receive_loop}

-- Bytes and rounds without any.
abbrev pub IsData : List Event → Type 0
IsData [] = Unit
IsData (received bytes ∷ events) = IsData events
IsData (quiet ∷ events) = IsData events
IsData (broken ∷ events) = ⊥
IsData (closed ∷ events) = ⊥
IsData (timed_out ∷ events) = ⊥

abbrev pub bytes_of : List Event → Text
bytes_of [] = []
bytes_of (received bytes ∷ events) = bytes ++ bytes_of events
bytes_of (quiet ∷ events) = bytes_of events
bytes_of (broken ∷ events) = bytes_of events
bytes_of (closed ∷ events) = bytes_of events
bytes_of (timed_out ∷ events) = bytes_of events

module _ (command reply rest : Text) (regular : (first_of command == b'l') ≡ false)
    (plain : cut_command reply ≡ none) where
  receive_loop_from :
      (events : List Event) (full : Text)
      → IsData events
      → cut_command full ≡ none
      → full ++ bytes_of events ≡ reply ++ (delimiter ++ rest)
      → receive_loop command events full ≡ response reply
  unfolding receive_loop
  receive_loop_from [] full h clean e =
      let clash : ◌≡◌ {A = Option (Text × Text)} none (some (reply, rest)) =
        sym clean
        ∙ ap cut_command (sym (append-nil full) ∙ e)
        ∙ cut_command-framed reply rest plain in
      cc
  receive_loop_from (received bytes ∷ events) full h clean e =
      elim (Option-cases (cut_command (full ++ bytes))) [
        | inl n ↦
            rw (regular, n)
              (receive_loop_from events (full ++ bytes) h n
                (append_assoc full bytes (bytes_of events) ∙ e))
        | inr ((w, r), f) ↦
            let same : ◌≡◌ {A = Option (Text × Text)} (some (w, r ++ bytes_of events))
                (some (reply, rest)) =
              sym (cut_command-append (full ++ bytes) (bytes_of events) w r f)
              ∙ ap cut_command (append_assoc full bytes (bytes_of events) ∙ e)
              ∙ cut_command-framed reply rest plain in
            rw (regular, f) (ap (λ (o : Text × Text). response o.0) (some-injective same))
      ]
  receive_loop_from (quiet ∷ events) full h clean e = receive_loop_from events full h clean e
  receive_loop_from (broken ∷ events) full h clean e = absurd h
  receive_loop_from (closed ∷ events) full h clean e = absurd h
  receive_loop_from (timed_out ∷ events) full h clean e = absurd h

  -- Where bytes keep coming until a response with its delimiter is there, a command that is no load command
  -- is answered with exactly this response, however `recv` cuts the bytes into pieces and whatever follows
  -- them.
  pub receive_loop-framed :
      (events : List Event)
      → IsData events
      → bytes_of events ≡ reply ++ (delimiter ++ rest)
      → receive_loop command events [] ≡ response reply
  unfolding cut_command
  receive_loop-framed events h e = receive_loop_from events [] h refl e
