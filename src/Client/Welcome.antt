-- ===== src/Client/Welcome.antt =====
-- What src/client.cpp does with the welcome message at the end of `connect`, and the start and the signals of
-- src/main_client.cpp.
use cs.Prelude.{
  ℕ, zero, suc, ◌-◌, ◌≡◌, ◌≤◌, refl, ◌∙◌, List, [], ◌∷◌, ◌++◌, Bool, true, false, ◌&&◌, Option,
  none, some, ◌==◌, if◌then◌else◌, arith, Bool-cases, Option-cases, inl, inr, length, take, drop,
  ltb,
}
use cs.Result.{ok, err}
use cs.Store.{codes, same_name}
use cs.Text.{Text, stoi}
use cs.Server.{delimiter, cut_command}
use cs.Server.Commands.{SendResult, accepted, first_of, welcome}
use cs.Client.{Event, response, send_command, disconnect}
use cs.Client.Receiving.{IsData, bytes_of, receive_loop-framed}

-- `BUFFER_SIZE`
abbrev buffer_size : ℕ
buffer_size = 4096

-- A C string ends in front of its first zero.
unfoldable pub c_string : Text → Text
c_string [] = []
c_string (c ∷ cs) = let rest = c ∷ c_string cs in if c == 0 then [] else rest

abbrev pub before_delimiter : Text → Option (Text × Text) → Text
before_delimiter message none = message
before_delimiter message (some (front, rest)) = front

-- What is printed of the bytes that `recv` gives; none where it gives none.
unfoldable pub greeting : Text → Option Text
unfolding c_string cut_command
greeting [] = none
greeting (c ∷ cs) = some (before_delimiter (c_string (c ∷ cs)) (cut_command (c_string (c ∷ cs))))

-- The single `recv` of `connect`, where `n` bytes of the stream have arrived: what is printed, and the bytes
-- that are still to be read.
unfoldable pub read_welcome : ℕ → Text → Option Text × Text
unfolding greeting
read_welcome n stream =
    let taken = if ltb n buffer_size then n else buffer_size - 1 in
    (greeting (take taken stream), drop taken stream)

-- The host and the port of the arguments, or the defaults; a port that is no number is the exit code 1.
unfoldable pub parse_address : Text → ℕ → List Text → Option (Text × ℕ)
parse_address default_host default_port [] = some (default_host, default_port)
parse_address default_host default_port (host ∷ []) = some (host, default_port)
parse_address default_host default_port (host ∷ port ∷ args) = elim (stoi port) [
  | ok n ↦ some (host, n)
  | err e ↦ none
]

-- `signal_handler`, with whether `g_client` is set: what the client still sends before the process exits, or
-- none where the signal is ignored.
unfoldable pub signal_handler : Bool → Bool → SendResult → List Event → Option Text
unfolding disconnect
signal_handler g_client connected sent events =
    if g_client then some (disconnect connected sent events) else none

cut_command-tail : (c : ℕ) (x : Text) → cut_command (c ∷ x) ≡ none → cut_command x ≡ none
unfolding cut_command
cut_command-tail c [] e = refl
cut_command-tail c (d ∷ x) e = elim (Bool-cases (c == 13 && d == 10)) [
  | inl here ↦ let clash : ◌≡◌ {A = Option (Text × Text)} (some ([], x)) none = rw here at e in cc
  | inr later ↦ elim (Option-cases (cut_command (d ∷ x))) [
    | inl n ↦ n
    | inr ((w, r), f) ↦
        let clash : ◌≡◌ {A = Option (Text × Text)} (some (c ∷ w, r)) none = rw (later, f) at e in cc
  ]
]

cut_command-drop : (n : ℕ) (x : Text) → cut_command x ≡ none → cut_command (drop n x) ≡ none
unfolding cut_command
cut_command-drop zero x e = e
cut_command-drop (suc n) [] e = refl
cut_command-drop (suc n) (c ∷ x) e = cut_command-drop n x (cut_command-tail c x e)

drop-append : (n : ℕ) (x y : Text) → n ≤ length x → drop n (x ++ y) ≡ drop n x ++ y
drop-append zero x y h = refl
drop-append (suc n) [] y h = ground (arith, h)
drop-append (suc n) (c ∷ x) y h = drop-append n x y (ground (arith, h))

abbrev pub ready : Text
ready = codes "LSM-Tree ready and waiting for commands"

-- Where the one `recv` of `connect` takes none of the delimiter of the welcome message, and at most the text
-- in front of it, the first command, if it is neither a load command nor the exit command, and where
-- bytes keep coming until the response has its delimiter, is answered with the rest of that text, whatever
-- the server sends behind it.
pub send_command-read_welcome :
    (n k : ℕ) (command rest : Text) (events : List Event)
    → n ≤ length ready
    → (first_of command == b'l') ≡ false
    → same_name command (codes "q") ≡ false
    → IsData events
    → bytes_of events ≡ (read_welcome n (welcome ++ rest)).1
    → (send_command true (accepted k) events command).1 ≡ response (drop n ready)
unfolding send_command read_welcome cut_command
send_command-read_welcome n k command rest events few regular stays clean e =
    let small : ltb n buffer_size ≡ true = ground (arith, few) in
    let left : bytes_of events ≡ drop n ready ++ (delimiter ++ rest) =
      rw small at e ∙ drop-append n ready (delimiter ++ rest) few in
    rw stays (
      receive_loop-framed command (drop n ready) rest regular (cut_command-drop n ready refl) events
        clean left)
