-- ===== src/Server/Wire.antt =====
-- A get from the bytes of the client to the bytes of the reply.
use cs.Prelude.{
  ℕ, ◌<◌, ◌≡◌, refl, ap, ◌∙◌, List, [], ◌∷◌, ◌++◌, Option, none, some, false, ◌==◌, All, arith,
}
use cs.Int64.{word}
use cs.Result.{Error}
use cs.Pair.{KeyValuePair}
use cs.Double.{Doubles}
use cs.Store
use cs.Store.{codes}
use cs.SkipList.{get_all_sorted}
use cs.Text.{Text, is_space, contains, starts_with, signed_text}
use cs.Tree.{LsmTree}
use cs.Tree.Holds.{TreeHolds, newest}
use cs.Adapter.{printed}
use cs.Adapter.Stats.{Times}
use cs.Adapter.Load
use cs.Adapter.Commands.{handle_get-newest, IsToken, signed_text-IsToken}
use cs.Server.{delimiter, go_on}
use cs.Server.Commands.{Peek, Connection, Socket, formatted, process_command, handle_command}
use cs.Server.Sending.{Accepts, handle_command-sent}

-- A text without spaces has no delimiter.
contains-delimiter : (cs : Text) → All (λ c. is_space c ≡ false) cs → contains delimiter cs ≡ false
unfolding contains starts_with
contains-delimiter [] h = refl
contains-delimiter (c ∷ cs) h =
    let other : (13 == c) ≡ false = ground (arith, h.0) in
    rw (other, contains-delimiter cs h.1) refl

-- The line that answers a get.
abbrev pub reply_line : Option ℕ → Text
reply_line none = codes "Key not found" ++ delimiter
reply_line (some v) = signed_text v ++ delimiter

formatted-IsToken :
    (command text : Text) → IsToken text → formatted command text ≡ text ++ delimiter
unfolding formatted
formatted-IsToken command text h = rw (h.0, contains-delimiter text h.1) refl

formatted-printed : (cs : Text) (o : Option ℕ) → formatted (b'g' ∷ cs) (printed o) ≡ reply_line o
unfolding formatted contains starts_with
formatted-printed cs none = refl
formatted-printed cs (some v) =
    formatted-IsToken (b'g' ∷ cs) (signed_text v) (signed_text-IsToken v)

module _ (what : Error → Text) (d : Doubles) (sort : List KeyValuePair → List KeyValuePair)
    (fixed : ℕ → ℕ → Text) (times : Times) (draw : ℕ → ℕ) (socket : Socket) (peek : ℕ → Peek)
    (rounds : ℕ) where
  -- On a tree that holds `psss`, and where each call of `send` takes at least one byte, the command
  -- `g <key>` is answered on the socket with the newest value of the key in decimal and a delimiter, or
  -- with the line `Key not found` where there is none; the tree holds what it held.
  pub handle_command-newest :
      (c : Connection) (psss : List (List (List KeyValuePair))) (key : ℕ)
      → Accepts socket
      → key < word
      → TreeHolds c.tree psss
      → (t : LsmTree) × (calls : ℕ) × (handle_command what d sort fixed times draw socket peek
            rounds
            (b'g' ∷ 32 ∷ signed_text key)
            c
          ≡ (
            go_on,
            record {
              tree = t;
              sent = c.sent ++ reply_line (newest key (get_all_sorted c.tree.buffer) psss);
              calls = calls;
            },
          ))
        × TreeHolds t psss
  unfolding process_command Load.process_command Store.same_name
  handle_command-newest c psss key h small held =
      let command = b'g' ∷ 32 ∷ signed_text key in
      let (t, e, held') = handle_get-newest what c.tree psss key small held in
      let (calls, f) =
        handle_command-sent what d sort fixed times draw socket peek rounds command
          (printed (newest key (get_all_sorted c.tree.buffer) psss)) c t h refl refl (rw e refl) in
      (
        t,
        calls,
        f
            ∙ ap (λ text. (go_on, record { tree = t; sent = c.sent ++ text; calls = calls }))
                (formatted-printed (32 ∷ signed_text key)
                  (newest key (get_all_sorted c.tree.buffer) psss)),
        held',
      )
