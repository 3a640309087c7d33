-- ===== src/Fence/File.antt =====
-- Fence pointers saved to a file and loaded from it.
use cs.Prelude.{
  ℕ, ◌<◌, ◌≡◌, refl, ap, List, [], ◌∷◌, ◌++◌, some, arith, length, take, drop, ltb, false,
  length-append,
}
use cs.Int64.{word, put64, join64-put64}
use cs.Result.{ok}
use cs.Fence.{FencePointer, FencePointers, put_fences, read_fences, save, load, read_name}

-- Each field is a 64-bit pattern.
abbrev pub FitsAll : List FencePointer → Type 0
FitsAll [] = Unit
FitsAll (f ∷ fs) = (f.key < word) × (f.offset < word) × FitsAll fs

read_fences-put_fences :
    (fs : List FencePointer) → FitsAll fs → read_fences (length fs) (put_fences fs) ≡ some fs
unfolding read_fences put_fences
read_fences-put_fences [] h = refl
read_fences-put_fences (f ∷ fs) h =
    rw (join64-put64 f.key h.0, join64-put64 f.offset h.1, read_fences-put_fences fs h.2)

take-append_length : (xs ys : List ℕ) → take (length xs) (xs ++ ys) ≡ xs
take-append_length [] ys = refl
take-append_length (x ∷ xs) ys = ap (◌∷◌ x) (take-append_length xs ys)

drop-append_length : (xs ys : List ℕ) → drop (length xs) (xs ++ ys) ≡ ys
drop-append_length [] ys = refl
drop-append_length (x ∷ xs) ys = drop-append_length xs ys

read_name_append : (xs ys : List ℕ) → read_name (length xs) (xs ++ ys) ≡ some (xs, ys)
read_name_append xs ys =
    let long : ltb (length (xs ++ ys)) (length xs) ≡ false = ground (arith, length-append xs ys) in
    rw (long, take-append_length xs ys, drop-append_length xs ys)

-- What `save` wrote is loaded again, the name of the run and every entry, where all of it fits in
-- 64 bits.
pub load-save :
    (p : FencePointers)
    → length p.run_filename < word
    → length p.fence_pointers < word
    → FitsAll p.fence_pointers
    → load (some (save p)) ≡ ok p
unfolding load save
load-save p h h' fits =
    let count = length p.fence_pointers in
    let content = put_fences p.fence_pointers in
    rw (
      join64-put64 (length p.run_filename) h,
      read_name_append p.run_filename (put64 count content),
      join64-put64 count h',
      read_fences-put_fences p.fence_pointers fits,
    )
