-- ===== src/Tree/Startup/Names.antt =====
-- A new process finds the runs that an earlier one wrote, by their names.
use mathlib.Core.List.{append_assoc}
use cs.Prelude.{
  ℕ, zero, suc, ◌+◌, ◌-◌, ◌/◌, ◌%◌, ◌^◌, ◌<◌, ◌≡◌, refl, sym, ap, ◌∙◌, List, [], ◌∷◌, ◌++◌, Bool,
  true, false, some, ltb, ◌==◌, arith, All, Bool-cases, inl, inr, length, length-append, drop,
}
use cs.Int64.{word}
use cs.Store.{FileName, same_name, codes, to_string, digits_loop}
use cs.Text.{Text, cut_where, starts_with}
use cs.Text.Numerals.{stoi-to_string, stoull-to_string}
use cs.Run.{data_filename}
use cs.Tree.Startup.{name_parts, add_entry, scan_directory}

-- A character that is no digit does not stand in a number.
digits_loop-All :
    (p : ℕ → Bool) (fuel n : ℕ) (rest : Text)
    → ((k : ℕ) → k < 10 → p (b'0' + k) ≡ false)
    → All (λ c. p c ≡ false) rest
    → All (λ c. p c ≡ false) (digits_loop fuel n rest)
unfolding digits_loop
digits_loop-All p zero n rest f h = h
digits_loop-All p (suc fuel) n rest f h = elim (Bool-cases (ltb n 10)) [
  | inl small ↦ rw small (f n (ground arith), h)
  | inr large ↦
      rw large
        (digits_loop-All p fuel (n / 10) ((b'0' + n % 10) ∷ rest) f (f (n % 10) (omega arith), h))
]

to_string-All :
    (p : ℕ → Bool) (n : ℕ)
    → ((k : ℕ) → k < 10 → p (b'0' + k) ≡ false)
    → All (λ c. p c ≡ false) (to_string n)
unfolding to_string
to_string-All p n f = digits_loop-All p (n + 1) n [] f tt

cut_where-append :
    (p : ℕ → Bool) (cs : Text) (c : ℕ) (rest : Text)
    → All (λ b. p b ≡ false) cs
    → p c ≡ true
    → cut_where p (cs ++ c ∷ rest) ≡ some (cs, rest)
unfolding cut_where
cut_where-append p [] c rest h e = rw e refl
cut_where-append p (b ∷ cs) c rest h e = rw (h.0, cut_where-append p cs c rest h.1 e) refl

drop-length : (xs ys : Text) → drop (length xs) (xs ++ ys) ≡ ys
drop-length [] ys = refl
drop-length (x ∷ xs) ys = drop-length xs ys

-- The last characters of a text.
drop-suffix : (xs ys : Text) → drop (length (xs ++ ys) - length ys) (xs ++ ys) ≡ ys
drop-suffix xs ys =
    let e : length (xs ++ ys) - length ys ≡ length xs = omega (arith, length-append xs ys) in
    rw e (drop-length xs ys)

-- The name of a run in the directory.
abbrev entry_name : ℕ → ℕ → FileName
entry_name level run_id =
    codes "run_" ++ (to_string level ++ b'_' ∷ (to_string run_id ++ codes ".data"))

entry_name-suffix :
    (level run_id : ℕ)
    → drop (length (entry_name level run_id) - 5) (entry_name level run_id) ≡ codes ".data"
entry_name-suffix level run_id =
    let front = codes "run_" ++ (to_string level ++ b'_' ∷ to_string run_id) in
    let e : front ++ codes ".data" ≡ entry_name level run_id = simp append_assoc in
    ap (λ name. drop (length name - 5) name) (sym e) ∙ drop-suffix front (codes ".data")

entry_name-length : (level run_id : ℕ) → ltb 5 (length (entry_name level run_id)) ≡ true
entry_name-length level run_id =
    let outer = length-append (to_string level) (b'_' ∷ (to_string run_id ++ codes ".data")) in
    let inner = length-append (to_string run_id) (codes ".data") in ground (arith, outer, inner)

name_parts-entry_name :
    (level run_id : ℕ)
    → name_parts (entry_name level run_id) ≡ some (to_string level, to_string run_id)
unfolding name_parts starts_with same_name
name_parts-entry_name level run_id =
    let after_level =
      cut_where-append (λ c. c == b'_') (to_string level) b'_' (to_string run_id ++ codes ".data")
        (to_string-All (λ c. c == b'_') level (λ k h. ground arith)) refl in
    let after_id =
      cut_where-append (λ c. c == b'.') (to_string run_id) b'.' (codes "data")
        (to_string-All (λ c. c == b'.') run_id (λ k h. ground arith)) refl in
    rw (entry_name-length level run_id, entry_name-suffix level run_id, after_level, after_id) refl

-- A name that the run with a level and an id is stored under is taken for a run with this level and this
-- id, wherever it stands in the directory.
pub scan_directory-run :
    (level run_id : ℕ) (names : List FileName) (found : List (ℕ × List (ℕ × FileName)))
    → level < 2 ^ 31
    → run_id < word
    → scan_directory (drop 5 (data_filename level run_id) ∷ names) found
      ≡ scan_directory names (add_entry level (run_id, data_filename level run_id) found)
unfolding scan_directory data_filename
scan_directory-run level run_id names found h g =
    rw (name_parts-entry_name level run_id, stoi-to_string level h, stoull-to_string run_id g) refl
