-- ===== src/Text/Numerals.antt =====
-- What `std::to_string` prints is read back by `std::stoll`, `std::stoi` and `std::stoull`.
use mathlib.Core.List.{append-nil}
use cs.Prelude.{
  ℕ, zero, suc, ◌+◌, ◌/◌, ◌%◌, ◌<◌, ◌^◌, ◌≡◌, refl, sym, ap, ◌∙◌, [], ◌∷◌, true, false, some, ltb,
  ◌==◌, arith, All, Bool-cases, inl, inr,
}
use cs.Int64.{word}
use cs.Result.{ok}
use cs.Store.{to_string, digits_loop}
use cs.Store.Paths.{read_number, read_number-to_string}
use cs.Text.{Text, is_space, is_digit, digits_of, positive, unsigned, stoll, stoi, stoull}

-- One or more characters, of which none is a space and the first is a digit.
abbrev pub IsNumeral : Text → Type 0
IsNumeral [] = ⊥
IsNumeral (c ∷ cs) = (is_digit c ≡ true) × All (λ b. is_space b ≡ false) (c ∷ cs)

digits_loop-IsNumeral :
    (fuel n : ℕ) (rest : Text)
    → n < fuel
    → All (λ b. is_space b ≡ false) rest
    → IsNumeral (digits_loop fuel n rest)
unfolding digits_loop
digits_loop-IsNumeral zero n rest h a = elim h [ ]
digits_loop-IsNumeral (suc fuel) n rest h a = elim (Bool-cases (ltb n 10)) [
  | inl small ↦ rw small (ground arith, (ground arith, a))
  | inr large ↦ rw large (
      digits_loop-IsNumeral fuel (n / 10) ((b'0' + n % 10) ∷ rest) (ground arith) (ground arith, a))
]

digits_of-IsNumeral : (cs : Text) → IsNumeral cs → digits_of cs ≡ some (read_number 0 cs).0
digits_of-IsNumeral [] h = absurd h
digits_of-IsNumeral (c ∷ cs) h = rw h.0

pub to_string-IsNumeral : (n : ℕ) → IsNumeral (to_string n)
unfolding to_string
to_string-IsNumeral n = digits_loop-IsNumeral (n + 1) n [] (omega arith) tt

read_number-nil : (n : ℕ) → read_number n [] ≡ (n, [])
unfolding read_number
read_number-nil n = refl

pub digits_of-to_string : (n : ℕ) → digits_of (to_string n) ≡ some n
digits_of-to_string n =
    digits_of-IsNumeral (to_string n) (to_string-IsNumeral n)
    ∙ ap (λ cs. some (read_number 0 cs).0) (sym (append-nil (to_string n)))
    ∙ ap (λ (r : ℕ × Text). some r.0) (read_number-to_string n [] ∙ read_number-nil n)

pub stoll-IsNumeral : (cs : Text) → IsNumeral cs → stoll cs ≡ positive (digits_of cs)
unfolding stoll
stoll-IsNumeral [] h = absurd h
stoll-IsNumeral (c ∷ cs) h =
    let minus : (c == b'-') ≡ false = ground (arith, h.0) in
    let plus : (c == b'+') ≡ false = ground (arith, h.0) in
    let solid : is_space c ≡ false = h.1.0 in rw (solid, minus, plus) refl

pub stoi-to_string : (n : ℕ) → n < 2 ^ 31 → stoi (to_string n) ≡ ok n
unfolding stoi
stoi-to_string n h =
    rw (stoll-IsNumeral (to_string n) (to_string-IsNumeral n), digits_of-to_string n) (ground arith)

stoull-IsNumeral : (cs : Text) → IsNumeral cs → stoull cs ≡ unsigned (digits_of cs)
unfolding stoull
stoull-IsNumeral [] h = absurd h
stoull-IsNumeral (c ∷ cs) h =
    let minus : (c == b'-') ≡ false = ground (arith, h.0) in
    let plus : (c == b'+') ≡ false = ground (arith, h.0) in
    let solid : is_space c ≡ false = h.1.0 in rw (solid, minus, plus) refl

pub stoull-to_string : (n : ℕ) → n < word → stoull (to_string n) ≡ ok n
stoull-to_string n h =
    rw (stoull-IsNumeral (to_string n) (to_string-IsNumeral n), digits_of-to_string n)
      (ground arith)
