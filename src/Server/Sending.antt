-- ===== src/Server/Sending.antt =====
-- The replies of the server reach the socket, and the commands of a client are all handled.
use mathlib.Core.List.{append_assoc, append-nil}
use cs.Prelude.{
  ℕ, zero, suc, ◌+◌, ◌≡◌, ◌≤◌, refl, sym, ap, ◌∙◌, List, [], ◌∷◌, ◌++◌, Bool, true, false, min,
  arith, length, take, drop, All, ◌==◌, none,
}
use cs.Result.{Result, Error, ok}
use cs.Pair.{KeyValuePair}
use cs.Double.{Doubles}
use cs.Store.{same_name, codes}
use cs.Text.{Text, joined}
use cs.Tree.{LsmTree}
use cs.Adapter.Stats.{Times}
use cs.Server.{go_on, cut_command}
use cs.Server.Framing.{outcome, serve-framed, framed, run_commands}
use cs.Server.Commands.{
  Peek, SendResult, accepted, Connection, Socket, chunk_size, took, after_send, send_all, send,
  welcome, formatted, first_of, process_command, handle_command, handle_client,
}

append-take-drop : (n : ℕ) (text : Text) → take n text ++ drop n text ≡ text
append-take-drop zero text = refl
append-take-drop (suc n) [] = refl
append-take-drop (suc n) (c ∷ text) = ap (λ ts. c ∷ ts) (append-take-drop n text)

drop-length : (n b : ℕ) (text : Text) → length (drop (suc n) (b ∷ text)) ≤ length text
drop-length zero b text = omega arith
drop-length (suc n) b [] = omega arith
drop-length (suc n) b (c ∷ text) = omega (arith, drop-length n c text)

-- A socket whose calls of `send` all take something.
abbrev pub Accepts : Socket → Type 0
Accepts socket = (n : ℕ) → (k : ℕ) × (socket n ≡ accepted (suc k))

after_send-accepted :
    (k : ℕ) (r : SendResult) (retry : Bool) (text : Text) (c : Connection)
    (next : Text → Connection → Result Bool × Connection)
    → r ≡ accepted (suc k)
    → after_send r retry text c next
      ≡ next (drop (suc (min k 4095)) text) (took (suc (min k 4095)) text c)
after_send-accepted k r retry text c next e =
    let small : min (suc k) chunk_size ≡ suc (min k 4095) = omega arith in
    ap (λ s. after_send s retry text c next) e ∙ ap (λ n. next (drop n text) (took n text c)) small

-- Where each call of `send` takes at least one byte, the loop over the chunks puts exactly the text on the
-- socket.
pub send_all-sent :
    (socket : Socket) (retry : Bool) (fuel : ℕ) (text : Text) (c : Connection)
    → Accepts socket
    → length text ≤ fuel
    → (calls : ℕ) × (send_all socket retry fuel text c
        ≡ (ok true, record c { sent = c.sent ++ text; calls = calls }))
unfolding send_all
send_all-sent socket retry fuel [] c h g =
    (c.calls, ap (λ s. (ok true, record c { sent = s })) (sym (append-nil c.sent)))
send_all-sent socket retry zero (b ∷ text) c h g = absurd (omega (arith, g))
send_all-sent socket retry (suc fuel) (b ∷ text) c h g =
    let (k, e) = h c.calls in
    let m = min k 4095 in
    let here = took (suc m) (b ∷ text) c in
    let (calls, f) =
      send_all-sent socket retry fuel (drop (suc m) (b ∷ text)) here h
        (omega (arith, drop-length m b text)) in
    (
      calls,
      after_send-accepted k (socket c.calls) retry (b ∷ text) c (send_all socket retry fuel) e
          ∙ f
          ∙ ap (λ s. (ok true, record c { sent = s; calls = calls }))
              (append_assoc c.sent (take (suc m) (b ∷ text)) (drop (suc m) (b ∷ text))
                ∙ ap (λ s. c.sent ++ s) (append-take-drop (suc m) (b ∷ text))),
    )

module _ (what : Error → Text) (d : Doubles) (sort : List KeyValuePair → List KeyValuePair)
    (fixed : ℕ → ℕ → Text) (times : Times) (draw : ℕ → ℕ) (socket : Socket) (peek : ℕ → Peek)
    (rounds : ℕ) where
  -- Where each call of `send` takes at least one byte: a command that is neither `q` nor a load command,
  -- and that `process_command` answers, is followed on the socket by the formatted answer and nothing
  -- else, and the loop goes on with the tree that the command left.
  pub handle_command-sent :
      (command response : Text) (c : Connection) (t : LsmTree)
      → Accepts socket
      → same_name command (codes "q") ≡ false
      → (first_of command == b'l') ≡ false
      → process_command what d sort fixed times (draw c.calls) command c.tree ≡ (ok response, t)
      → (calls : ℕ) × (handle_command what d sort fixed times draw socket peek rounds command c ≡ (
        go_on,
        record { tree = t; sent = c.sent ++ formatted command response; calls = calls },
      ))
  unfolding handle_command
  handle_command-sent command response c t h stay regular e =
      let text = formatted command response in
      let (calls, f) =
        send_all-sent socket false (length text + rounds) text (record c { tree = t }) h
          (omega arith) in
      (calls, rw (stay, regular, e, f) refl)

module _ (what : Error → Text) (d : Doubles) (sort : List KeyValuePair → List KeyValuePair)
    (fixed : ℕ → ℕ → Text) (times : Times) (draw : ℕ → ℕ) (socket : Socket)
    (peek : List Text → ℕ → Peek) (rounds : ℕ) where
  -- A client that is greeted and sends commands, each followed by the delimiter and none with a delimiter
  -- inside, has exactly these commands run one after the other, until one ends the connection, however
  -- `recv` cuts its bytes into pieces.
  pub handle_client-framed :
      (chunks commands : List Text) (c : Connection)
      → (send socket welcome c).0 ≡ true
      → joined chunks ≡ framed commands
      → All (λ w. cut_command w ≡ none) commands
      → outcome (handle_client what d sort fixed times draw socket peek rounds chunks c)
        ≡ run_commands
            (handle_command what d sort fixed times draw socket (peek chunks) rounds)
            commands
            (send socket welcome c).1
  unfolding handle_client
  handle_client-framed chunks commands c greeted e all = rw greeted (
      serve-framed (handle_command what d sort fixed times draw socket (peek chunks) rounds) chunks
        commands (send socket welcome c).1 e all)
