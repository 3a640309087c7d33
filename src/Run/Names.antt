-- ===== src/Run/Names.antt =====
-- The files of different runs have different names.
use cs.Prelude.{ℕ, ◌≡◌, ◌≢◌, refl, sym, ap, ◌∙◌, List, [], ◌∷◌, ◌++◌, false, arith, drop}
use mathlib.Core.List.{append_assoc}
use cs.Store.{FileName, same_name, codes, to_string}
use cs.Store.Paths.{same_name_ne, read_number, read_number-to_string}
use cs.Run.{data_filename, bloom_filename, fence_filename}

-- The level and the run id that a name was made from, and what follows them.
abbrev numbers : FileName → ℕ × ℕ
numbers name =
    let level = read_number 0 (drop 9 name) in (level.0, (read_number 0 (drop 1 level.1)).0)

numbers-data_filename : (level run_id : ℕ) → numbers (data_filename level run_id) ≡ (level, run_id)
unfolding data_filename read_number
numbers-data_filename level run_id =
    let tail = to_string run_id ++ codes ".data" in
    rw (
      read_number-to_string level (codes "_" ++ tail),
      read_number-to_string run_id (codes ".data"),
    )

pub data_filename-injective :
    (l i m j : ℕ) → data_filename l i ≡ data_filename m j → (l ≡ m) × (i ≡ j)
data_filename-injective l i m j e =
    let n : (l, i) ≡ (m, j) =
      sym (numbers-data_filename l i) ∙ ap numbers e ∙ numbers-data_filename m j in
    (ap (λ p. p.0) n, ap (λ p. p.1) n)

last_code : List ℕ → ℕ
last_code [] = 0
last_code (c ∷ []) = c
last_code (c ∷ d ∷ cs) = last_code (d ∷ cs)

last_code-append :
    (xs : List ℕ) (y : ℕ) (ys : List ℕ) → last_code (xs ++ y ∷ ys) ≡ last_code (y ∷ ys)
unfolding last_code
last_code-append [] y ys = refl
last_code-append (x ∷ []) y ys = refl
last_code-append (x ∷ x' ∷ xs) y ys = last_code-append (x' ∷ xs) y ys

last_code-data_filename : (level run_id : ℕ) → last_code (data_filename level run_id) ≡ b'a'
unfolding data_filename last_code
last_code-data_filename level run_id =
    let front = (codes "data/run_" ++ to_string level) ++ (codes "_" ++ to_string run_id) in
    let e : front ++ codes ".data" ≡ data_filename level run_id = simp append_assoc in
    ap last_code (sym e) ∙ last_code-append front b'.' (codes "data")

-- What is appended to a name decides its last character.
suffix_ne :
    (name : FileName) (level run_id c : ℕ) (cs : List ℕ)
    → last_code (c ∷ cs) ≢ b'a'
    → name ++ c ∷ cs ≢ data_filename level run_id
suffix_ne name level run_id c cs h e =
    h (sym (last_code-append name c cs) ∙ ap last_code e ∙ last_code-data_filename level run_id)

-- The data file of a run is none of the three files of a run with another level or id.
pub same_name-data_filename :
    (l i m j : ℕ)
    → ¬ ((l ≡ m) × (i ≡ j))
    → (same_name (data_filename l i) (data_filename m j) ≡ false)
      × (same_name (bloom_filename (data_filename l i)) (data_filename m j) ≡ false)
      × (same_name (fence_filename (data_filename l i)) (data_filename m j) ≡ false)
unfolding last_code
same_name-data_filename l i m j h = (
  same_name_ne _ _ (λ e. h (data_filename-injective l i m j e)),
  same_name_ne _ _ (suffix_ne (data_filename l i) m j _ _ (omega arith)),
  same_name_ne _ _ (suffix_ne (data_filename l i) m j _ _ (omega arith)),
)
