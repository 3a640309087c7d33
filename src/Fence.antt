-- ===== src/Fence.antt =====
-- `FencePointers` of include/fence_pointers.h and src/fence_pointers.cpp: a sparse index with one
-- entry for each page of a run file. The search runs on fuel; an access past the array is `none`.
pub mod Search
pub mod Index
pub mod Build
pub mod Offsets
pub mod File
use cs.Prelude.{
  ℕ, zero, suc, ◌+◌, ◌-◌, ◌/◌, List, [], ◌∷◌, ◌++◌, Option, none, some, ◌||◌, ltb, ◌==◌,
  if◌then◌else◌, length, get_elem?, take, drop, is_empty,
}
use cs.Pair.{KeyValuePair}
use cs.Int64.{lt64, le64, put64, read64}
use cs.Result.{Result, ok, err, out_of_bounds, cannot_open, cannot_read, no_fuel, or_fail, ◌>>=◌}
use mathlib.Core.Option

abbrev pub page_size : ℕ
page_size = 4096

pub record FencePointer : Type 0 where
  pub key : ℕ
  pub offset : ℕ

pub record FencePointers : Type 0 where
  pub fence_pointers : List FencePointer
  pub run_filename : List ℕ

-- The variables of the loop in the constructor.
pub record Building : Type 0 where
  pub fences : List FencePointer
  pub current_page : ℕ

abbrev pub fence : ℕ → ℕ → FencePointer
fence key offset = record { key = key; offset = offset }

unfoldable pub add_offset : Building → ℕ × ℕ → Building
add_offset b (key, offset) =
    if ltb b.current_page (offset / page_size) || is_empty b.fences
    then record { fences = b.fences ++ fence key offset ∷ []; current_page = offset / page_size }
    else b

unfoldable pub add_offsets : Building → List (ℕ × ℕ) → Building
add_offsets b [] = b
add_offsets b (x ∷ xs) = add_offsets (add_offset b x) xs

unfoldable pub create : List ℕ → List (ℕ × ℕ) → FencePointers
unfolding add_offsets add_offset
create name key_offsets = record {
  fence_pointers = (add_offsets (record { fences = []; current_page = 0 }) key_offsets).fences;
  run_filename = name;
}

-- The loop of `Run::create_metadata` that gives each key its offset in the run file.
unfoldable pub key_offsets : ℕ → List KeyValuePair → List (ℕ × ℕ)
key_offsets at [] = []
key_offsets at (p ∷ ps) = (p.key, at) ∷ key_offsets (at + 16) ps

-- `while (left < right)`: an access outside the array is undefined.
unfoldable pub search_loop : ℕ → List FencePointer → ℕ → ℕ → ℕ → Result ℕ
search_loop zero fs key left right = err no_fuel
search_loop (suc fuel) fs key left right =
    let mid = left + (right - left + 1) / 2 in
    let upper = search_loop fuel fs key mid right in
    let lower = search_loop fuel fs key left (mid - 1) in
    if ltb left right
    then elim (get_elem? fs mid) [
      | none ↦ err out_of_bounds
      | some f ↦ if le64 f.key key then upper else lower
    ]
    else ok left

unfoldable pub binary_search : List FencePointer → ℕ → Result ℕ
binary_search fs key = do
  front ← or_fail (get_elem? fs 0) out_of_bounds
  back ← or_fail (get_elem? fs (length fs - 1)) out_of_bounds
  if lt64 key front.key
      then ok 0
      else if le64 back.key key
      then ok (length fs - 1)
      else search_loop (length fs) fs key 0 (length fs - 1)

unfoldable pub find_offset : FencePointers → ℕ → Result ℕ
find_offset p key = if is_empty p.fence_pointers then ok 0 else do
  index ← binary_search p.fence_pointers key
  f ← or_fail (get_elem? p.fence_pointers index) out_of_bounds
  ok f.offset

-- The end of a scan: `std::numeric_limits<size_t>::max()` stands for the end of the file.
abbrev pub no_end : ℕ
no_end = 0xffff_ffff_ffff_ffff

abbrev pub end_offset : List FencePointer → ℕ → Result ℕ
end_offset fs end_index =
    if end_index == length fs - 1
    then ok no_end
    else do f ← or_fail (get_elem? fs (suc end_index)) out_of_bounds; ok f.offset

unfoldable pub find_range_offsets : FencePointers → ℕ → ℕ → Result (ℕ × ℕ)
find_range_offsets p start_key end_key = if is_empty p.fence_pointers then ok (0, 0) else do
  start_index ← binary_search p.fence_pointers start_key
  start ← or_fail (get_elem? p.fence_pointers start_index) out_of_bounds
  end_index ← binary_search p.fence_pointers end_key
  last ← end_offset p.fence_pointers end_index
  ok (start.offset, last)

-- `size`
unfoldable pub size : FencePointers → ℕ
size p = length p.fence_pointers

unfoldable pub put_fences : List FencePointer → List ℕ
put_fences [] = []
put_fences (f ∷ fs) = put64 f.key (put64 f.offset (put_fences fs))

-- The content of the file that `save` writes.
unfoldable pub save : FencePointers → List ℕ
unfolding put_fences
save p =
    put64 (length p.run_filename)
      (p.run_filename ++ put64 (length p.fence_pointers) (put_fences p.fence_pointers))

-- `for (size_t i = 0; i < count; ++i)`. A short read leaves the stream failed, which the constructor
-- reports at its end.
unfoldable pub read_fences : ℕ → List ℕ → Option (List FencePointer)
read_fences zero bytes = some []
read_fences (suc count) bytes = elim (read64 bytes) [
  | none ↦ none
  | some (key, bytes') ↦ elim (read64 bytes') [
    | none ↦ none
    | some (offset, bytes'') ↦ Option.map (λ fs. fence key offset ∷ fs) (read_fences count bytes'')
  ]
]

-- `file.read(&run_filename[0], filename_length)`
abbrev pub read_name : ℕ → List ℕ → Option (List ℕ × List ℕ)
read_name n bytes = if ltb (length bytes) n then none else some (take n bytes, drop n bytes)

-- The constructor that loads: `none` is a file that does not open.
unfoldable pub load : Option (List ℕ) → Result FencePointers
unfolding read_fences
load content = do
  bytes ← or_fail content cannot_open
  (filename_length, after_length) ← or_fail (read64 bytes) cannot_read
  (name, after_name) ← or_fail (read_name filename_length after_length) cannot_read
  (count, after_count) ← or_fail (read64 after_name) cannot_read
  fs ← or_fail (read_fences count after_count) cannot_read
  ok (record { fence_pointers = fs; run_filename = name })
