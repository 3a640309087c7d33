-- ===== src/Store/Paths.antt =====
-- File names are compared character by character.
use cs.Prelude.{
  ℕ, zero, suc, ◌+◌, ◌-◌, ◌*◌, ◌/◌, ◌%◌, ◌<◌, ◌≡◌, ◌≢◌, refl, ap, ◌∙◌, List, [], ◌∷◌, ◌++◌, true,
  false, ◌&&◌, if◌then◌else◌, ltb, leb, arith, length, length-append, Bool-cases, inl, inr,
}
use cs.Store.{FileName, same_name, digits_loop, to_string}

pub same_name_refl : (p : FileName) → same_name p p ≡ true
unfolding same_name
same_name_refl [] = refl
same_name_refl (c ∷ p) = ground (arith, same_name_refl p)

pub same_name-length : (p q : FileName) → same_name p q ≡ true → length p ≡ length q
unfolding same_name
same_name-length [] [] h = refl
same_name-length [] (d ∷ q) h = cc
same_name-length (c ∷ p) [] h = cc
same_name-length (c ∷ p) (d ∷ q) h = ground (arith, same_name-length p q)

-- A name with a suffix is another name.
pub same_name_suffix : (p : FileName) (c : ℕ) (q : FileName) → same_name (p ++ c ∷ q) p ≡ false
same_name_suffix p c q = elim (Bool-cases (same_name (p ++ c ∷ q) p)) [
  | inr e ↦ e
  | inl e ↦ absurd (omega (arith, same_name-length (p ++ c ∷ q) p e, length-append p (c ∷ q)))
]

pub same_name-eq : (p q : FileName) → same_name p q ≡ true → p ≡ q
unfolding same_name
same_name-eq [] [] h = refl
same_name-eq [] (d ∷ q) h = cc
same_name-eq (c ∷ p) [] h = cc
same_name-eq (c ∷ p) (d ∷ q) h = ground (arith, same_name-eq p q)

pub same_name_ne : (p q : FileName) → p ≢ q → same_name p q ≡ false
same_name_ne p q h = elim (Bool-cases (same_name p q)) [
  | inr e ↦ e
  | inl e ↦ absurd (h (same_name-eq p q e))
]

-- The number at the start of a text, and what follows its digits.
unfoldable pub read_number : ℕ → List ℕ → ℕ × List ℕ
read_number n [] = (n, [])
read_number n (c ∷ cs) =
    let more = read_number (n * 10 + (c - b'0')) cs in
    if leb b'0' c && leb c b'9' then more else (n, c ∷ cs)

read_number_digit :
    (n digit : ℕ) (rest : List ℕ)
    → digit < 10
    → read_number n ((b'0' + digit) ∷ rest) ≡ read_number (n * 10 + digit) rest
unfolding read_number
read_number_digit n digit rest h =
    let low : leb b'0' (b'0' + digit) ≡ true = ground arith in
    let high : leb (b'0' + digit) b'9' ≡ true = ground arith in
    let e : b'0' + digit - b'0' ≡ digit = omega arith in rw (low, high, e)

read_number-digits_loop :
    (fuel n : ℕ) (rest : List ℕ)
    → n < fuel
    → read_number 0 (digits_loop fuel n rest) ≡ read_number n rest
unfolding digits_loop
read_number-digits_loop zero n rest h = elim h [ ]
read_number-digits_loop (suc fuel) n rest h = elim (Bool-cases (ltb n 10)) [
  | inl small ↦
      rw small
        (read_number_digit 0 n rest (ground arith) ∙ ap (λ m. read_number m rest) (omega arith))
  | inr large ↦ rw large (
      read_number-digits_loop fuel (n / 10) ((b'0' + n % 10) ∷ rest) (ground arith)
      ∙ read_number_digit (n / 10) (n % 10) rest (omega arith)
      ∙ ap (λ m. read_number m rest) (omega arith))
]

digits_loop-append :
    (fuel n : ℕ) (rest more : List ℕ)
    → digits_loop fuel n rest ++ more ≡ digits_loop fuel n (rest ++ more)
unfolding digits_loop
digits_loop-append zero n rest more = refl
digits_loop-append (suc fuel) n rest more = elim (Bool-cases (ltb n 10)) [
  | inl small ↦ rw small
  | inr large ↦ rw large (digits_loop-append fuel (n / 10) ((b'0' + n % 10) ∷ rest) more)
]

-- A number that `to_string` printed is read back.
pub read_number-to_string :
    (n : ℕ) (rest : List ℕ) → read_number 0 (to_string n ++ rest) ≡ read_number n rest
unfolding to_string
read_number-to_string n rest =
    ap (read_number 0) (digits_loop-append (n + 1) n [] rest)
    ∙ read_number-digits_loop (n + 1) n rest (omega arith)
