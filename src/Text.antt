-- ===== src/Text.antt =====
-- Texts as lists of characters, and what the source takes from the standard library for them: the
-- numbers of `std::stoll`, `std::stoi` and `std::stoull`, `std::to_string` and the searches of
-- `std::string`. They follow the documentation of these functions.
pub mod Numerals
use cs.Prelude.{
  ℕ, zero, suc, ◌+◌, ◌-◌, ◌%◌, ◌^◌, ◌≡◌, List, [], ◌∷◌, ◌++◌, Bool, true, false, ◌&&◌, ◌||◌, Option,
  none, some, ltb, leb, ◌==◌, if◌then◌else◌,
}
use cs.Int64.{word, tombstone}
use cs.Result
use cs.Result.{Result, ok, err, Error, invalid_argument, out_of_range}
use cs.Store.{to_string}
use cs.Store.Paths.{read_number}

abbrev pub Text : Type 0
Text = List ℕ

abbrev pub is_space : ℕ → Bool
is_space c = c == 32 || (leb 9 c && leb c 13)

abbrev pub is_digit : ℕ → Bool
is_digit c = leb b'0' c && leb c b'9'

-- The digits at the start, of which there must be one.
abbrev pub digits_of : Text → Option ℕ
digits_of [] = none
digits_of (c ∷ cs) = if is_digit c then some (read_number 0 (c ∷ cs)).0 else none

abbrev pub positive : Option ℕ → Result ℕ
positive none = err invalid_argument
positive (some n) = if ltb n tombstone then ok n else err out_of_range

abbrev pub negative : Option ℕ → Result ℕ
negative none = err invalid_argument
negative (some n) = if leb n tombstone then ok ((word - n) % word) else err out_of_range

abbrev pub signed_number : ℕ → Text → Result ℕ
signed_number c cs =
    if c == b'-'
    then negative (digits_of cs)
    else if c == b'+'
    then positive (digits_of cs)
    else positive (digits_of (c ∷ cs))

-- `std::stoll`, which passes over spaces first and ignores what follows the digits.
unfoldable pub stoll : Text → Result ℕ
stoll [] = err invalid_argument
stoll (c ∷ cs) = let rest = stoll cs in if is_space c then rest else signed_number c cs

-- `std::to_string` of an `int64_t`.
unfoldable pub signed_text : ℕ → Text
signed_text w = if ltb w tombstone then to_string w else b'-' ∷ to_string (word - w)

abbrev pub in_int : ℕ → Result ℕ
in_int w = if ltb w (2 ^ 31) || leb (word - 2 ^ 31) w then ok w else err out_of_range

-- `std::stoi`, whose result is a 64-bit pattern here too.
unfoldable pub stoi : Text → Result ℕ
unfolding stoll
stoi cs = Result.◌>>=◌ (stoll cs) in_int

abbrev pub unsigned : Option ℕ → Result ℕ
unsigned none = err invalid_argument
unsigned (some n) = if ltb n word then ok n else err out_of_range

abbrev pub negated : ℕ → Result ℕ
negated n = ok ((word - n) % word)

abbrev pub unsigned_number : ℕ → Text → Result ℕ
unsigned_number c cs =
    if c == b'-'
    then Result.◌>>=◌ (unsigned (digits_of cs)) negated
    else if c == b'+'
    then unsigned (digits_of cs)
    else unsigned (digits_of (c ∷ cs))

-- `std::stoull`, which takes a minus sign and wraps around.
unfoldable pub stoull : Text → Result ℕ
stoull [] = err invalid_argument
stoull (c ∷ cs) = let rest = stoull cs in if is_space c then rest else unsigned_number c cs

unfoldable pub starts_with : Text → Text → Bool
starts_with [] cs = true
starts_with (p ∷ ps) [] = false
starts_with (p ∷ ps) (c ∷ cs) = p == c && starts_with ps cs

-- `text.find(part) != std::string::npos`
unfoldable pub contains : Text → Text → Bool
unfolding starts_with
contains part [] = starts_with part []
contains part (c ∷ cs) = starts_with part (c ∷ cs) || contains part cs

abbrev pub in_front : ℕ → Option (Text × Text) → Option (Text × Text)
in_front c none = none
in_front c (some (front, rest)) = some (c ∷ front, rest)

-- The text in front of the first character that a test accepts, and the text behind it.
unfoldable pub cut_where : (ℕ → Bool) → Text → Option (Text × Text)
cut_where p [] = none
cut_where p (c ∷ cs) =
    let later = in_front c (cut_where p cs) in if p c then some ([], cs) else later

-- The texts one after the other, as a stream is written.
abbrev pub joined : List Text → Text
joined [] = []
joined (t ∷ ts) = t ++ joined ts

abbrev pub newline : ℕ
newline = 10
