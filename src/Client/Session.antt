-- ===== src/Client/Session.antt =====
-- The terminal of the client: a get from the keyboard to the server and back, and the end of the input.
use cs.Prelude.{
  ℕ, zero, suc, ◌<◌, ◌≡◌, refl, List, [], ◌∷◌, ◌++◌, Option, none, some, Bool, true, false, All, ap,
  length, take, is_empty,
}
use cs.Int64.{word}
use cs.Result.{Error}
use cs.Pair.{KeyValuePair}
use cs.Double.{Doubles}
use cs.Store.{codes, same_name}
use cs.SkipList.{get_all_sorted}
use cs.Text.{Text, signed_text}
use cs.Tree.{LsmTree}
use cs.Tree.Holds.{TreeHolds, newest}
use cs.Adapter.Stats.{Times}
use cs.Adapter.Commands.{signed_text-IsToken}
use cs.Server.{delimiter, go_on}
use cs.Server.Commands.{Peek, Connection, Socket, accepted, handle_command}
use cs.Server.Sending.{Accepts}
use cs.Client.{Event, response, send_command, receive_loop}
use cs.Client.Receiving.{IsData, bytes_of}
use cs.Client.RoundTrip.{get_answer, receive_loop-handle_command}
use cs.Client.Main.{Turn, running, interact, display_response, then_session}

get_answer-is_empty : (o : Option ℕ) → is_empty (get_answer o) ≡ false
get_answer-is_empty none = refl
get_answer-is_empty (some v) = (signed_text-IsToken v).0

-- A line `g <key>` in a connected client, of which the socket takes `n` bytes.
abbrev pub get_turn : ℕ → ℕ → List Event → Bool → Turn
get_turn key n events after = record {
  line = some (b'g' ∷ 32 ∷ signed_text key);
  connected = true;
  sent = accepted n;
  events = events;
  connected_after = after;
}

interact-get_turn :
    (typed : Text) (key n : ℕ) (events : List Event) (after : Bool) (turns : List Turn)
    (o : Option ℕ)
    → (send_command true (accepted n) events (b'g' ∷ 32 ∷ signed_text key)).1
      ≡ response (get_answer o)
    → interact typed (get_turn key n events after ∷ turns)
      ≡ then_session
          (get_answer o ∷ [])
          (take n ((b'g' ∷ 32 ∷ signed_text key) ++ delimiter))
          (interact (b'g' ∷ 32 ∷ signed_text key) turns)
unfolding interact display_response send_command same_name
interact-get_turn typed key n events after turns o e = rw (e, get_answer-is_empty o) refl

module _ (what : Error → Text) (d : Doubles) (sort : List KeyValuePair → List KeyValuePair)
    (fixed : ℕ → ℕ → Text) (times : Times) (draw : ℕ → ℕ) (socket : Socket) (peek : ℕ → Peek)
    (rounds : ℕ) where
  -- A line `g <key>` that is typed in a connected client: on a well-formed tree, and where each call of
  -- send takes at least one byte, the server's reply to the command, however recv cuts it into pieces, makes
  -- the client print the newest value of the key in decimal, or Key not found where there is none,
  -- and go on with the next line; what the tree holds stays the same.
  pub interact-handle_command :
      (c : Connection) (psss : List (List (List KeyValuePair))) (key : ℕ)
      → Accepts socket
      → key < word
      → TreeHolds c.tree psss
      → (t : LsmTree) × (calls : ℕ) × (reply : Text) × (handle_command what d sort fixed times draw
            socket peek rounds
            (b'g' ∷ 32 ∷ signed_text key)
            c
          ≡ (go_on, record { tree = t; sent = c.sent ++ reply; calls = calls }))
        × TreeHolds t psss
        × ((typed : Text) (n : ℕ) (events : List Event) (after : Bool) (turns : List Turn)
            → IsData events
            → bytes_of events ≡ reply
            → interact typed (get_turn key n events after ∷ turns)
              ≡ then_session
                  (get_answer (newest key (get_all_sorted c.tree.buffer) psss) ∷ [])
                  (take n ((b'g' ∷ 32 ∷ signed_text key) ++ delimiter))
                  (interact (b'g' ∷ 32 ∷ signed_text key) turns))
  unfolding send_command same_name
  interact-handle_command c psss key h small held =
      let (t, calls, reply, e, held', reads) =
        receive_loop-handle_command what d sort fixed times draw socket peek rounds c psss key h
          small held in
      (
        t,
        calls,
        reply,
        e,
        held',
        λ typed n events after turns data_only same.
            interact-get_turn typed key n events after turns
              (newest key (get_all_sorted c.tree.buffer) psss) (reads events data_only same),
      )

unfoldable pub repeated : ℕ → Text → Text
repeated zero text = []
repeated (suc n) text = text ++ repeated n text

-- The input has ended before the turn, the socket takes the command that is sent, and a response comes.
pub record IsAnswered (command : Text) (t : Turn) : Type 0 where
  pub no_input : t.line ≡ none
  pub is_connected : t.connected ≡ true
  pub taken : t.sent ≡ accepted (length (command ++ delimiter))
  pub reply : Text
  pub replied : receive_loop command t.events [] ≡ response reply

take-length : (text : Text) → take (length text) text ≡ text
take-length [] = refl
take-length (c ∷ text) = ap (λ cs. c ∷ cs) (take-length text)

-- A last line without a newline that is neither empty nor the exit command: once the input has ended, each
-- further round in which the client gets a response sends this line again, and the loop does not end.
pub interact-repeated :
    (command : Text) (turns : List Turn)
    → is_empty command ≡ false
    → same_name command (codes "q") ≡ false
    → All (IsAnswered command) turns
    → ((interact command turns).written ≡ repeated (length turns) (command ++ delimiter))
      × ((interact command turns).ending ≡ running)
unfolding interact repeated send_command
interact-repeated command [] some_text stays h = (refl, refl)
interact-repeated command (t ∷ turns) some_text stays (x, h) =
    let (out, runs) = interact-repeated command turns some_text stays h in
    simp
      (
        x.no_input,
        x.is_connected,
        x.taken,
        x.replied,
        some_text,
        stays,
        take-length (command ++ delimiter),
        out,
        runs,
      )
      (refl, refl)
