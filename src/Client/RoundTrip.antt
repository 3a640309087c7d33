-- ===== src/Client/RoundTrip.antt =====
-- A get from the client to the server and back.
use cs.Prelude.{
  ℕ, ◌<◌, ◌≡◌, refl, ◌∙◌, List, [], ◌∷◌, ◌++◌, Option, none, some, false, All, ◌==◌, ◌&&◌, arith,
}
use cs.Int64.{word}
use cs.Result.{Error}
use cs.Pair.{KeyValuePair}
use cs.Double.{Doubles}
use cs.Store.{codes}
use cs.SkipList.{get_all_sorted}
use cs.Text.{Text, is_space, signed_text}
use cs.Tree.{LsmTree}
use cs.Tree.Holds.{TreeHolds, newest}
use cs.Adapter.Stats.{Times}
use cs.Adapter.Commands.{signed_text-IsToken}
use cs.Server.{delimiter, cut_command, go_on}
use cs.Server.Commands.{Peek, Connection, Socket, handle_command}
use cs.Server.Sending.{Accepts}
use cs.Server.Wire.{reply_line, handle_command-newest}
use cs.Client.{Event, response, receive_loop}
use cs.Client.Receiving.{IsData, bytes_of, receive_loop-framed}

-- The answer to a get.
abbrev pub get_answer : Option ℕ → Text
get_answer none = codes "Key not found"
get_answer (some v) = signed_text v

-- A text without a carriage return has no delimiter.
cut_command-All : (cs : Text) → All (λ c. is_space c ≡ false) cs → cut_command cs ≡ none
unfolding cut_command
cut_command-All [] h = refl
cut_command-All (c ∷ []) h = refl
cut_command-All (c ∷ d ∷ cs) h =
    let other : (c == 13 && d == 10) ≡ false = ground (arith, h.0) in
    rw (other, cut_command-All (d ∷ cs) h.1) refl

cut_command-get_answer : (o : Option ℕ) → cut_command (get_answer o) ≡ none
unfolding cut_command
cut_command-get_answer none = refl
cut_command-get_answer (some v) = cut_command-All (signed_text v) (signed_text-IsToken v).1

reply_line-get_answer : (o : Option ℕ) → reply_line o ≡ get_answer o ++ (delimiter ++ [])
reply_line-get_answer none = refl
reply_line-get_answer (some v) = refl

module _ (what : Error → Text) (d : Doubles) (sort : List KeyValuePair → List KeyValuePair)
    (fixed : ℕ → ℕ → Text) (times : Times) (draw : ℕ → ℕ) (socket : Socket) (peek : ℕ → Peek)
    (rounds : ℕ) where
  -- On a tree that holds `psss`, and where each call of `send` takes at least one byte: what the server
  -- sends for the command `g <key>` is read by the client, however `recv` cuts it into pieces, as the
  -- newest value of the key in decimal, or as `Key not found` where there is none. The tree holds what it
  -- held.
  pub receive_loop-handle_command :
      (c : Connection) (psss : List (List (List KeyValuePair))) (key : ℕ)
      → Accepts socket
      → key < word
      → TreeHolds c.tree psss
      → (t : LsmTree) × (calls : ℕ) × (reply : Text) × (handle_command what d sort fixed times draw
            socket peek rounds
            (b'g' ∷ 32 ∷ signed_text key)
            c
          ≡ (go_on, record { tree = t; sent = c.sent ++ reply; calls = calls }))
        × TreeHolds t psss
        × ((events : List Event)
            → IsData events
            → bytes_of events ≡ reply
            → receive_loop (b'g' ∷ 32 ∷ signed_text key) events []
              ≡ response (get_answer (newest key (get_all_sorted c.tree.buffer) psss)))
  receive_loop-handle_command c psss key h small held =
      let o = newest key (get_all_sorted c.tree.buffer) psss in
      let (t, calls, e, held') =
        handle_command-newest what d sort fixed times draw socket peek rounds c psss key h small
          held in
      (
        t,
        calls,
        reply_line o,
        e,
        held',
        λ events data_only same.
            receive_loop-framed (b'g' ∷ 32 ∷ signed_text key) (get_answer o) [] refl
              (cut_command-get_answer o) events data_only (same ∙ reply_line-get_answer o),
      )
