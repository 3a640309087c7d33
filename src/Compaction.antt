-- ===== src/Compaction.antt =====
-- The merging of sorted pairs in src/lsm_tree.cpp: the loop of `perform_compaction` (repeated in
-- `bulk_load_file`) that keeps the last value of each key and drops deleted keys, and the
-- `std::unique` of `range`. `std::sort` belongs to the standard library and is a parameter: the order
-- of pairs with equal keys is its choice.
pub mod Newest
pub mod Sorting
pub mod Choices
use cs.Prelude.{
  ℕ, zero, suc, ◌≤◌, ◌≡◌, List, [], ◌∷◌, ◌++◌, Option, none, some, ◌==◌, if◌then◌else◌,
}
use cs.Int64.{rank, tombstone}
use cs.Pair.{KeyValuePair, lookup}

-- `if (current_value != INT64_MIN) deduplicated.emplace_back(current_key, current_value);`
abbrev pub emit : ℕ → ℕ → List KeyValuePair → List KeyValuePair
emit key value rest =
    if value == tombstone then rest else record { key = key; value = value } ∷ rest

-- The loop, with `current_key` and `current_value`, and the store of the last key behind it.
unfoldable pub deduplicate_loop : ℕ → ℕ → List KeyValuePair → List KeyValuePair
deduplicate_loop key value [] = emit key value []
deduplicate_loop key value (p ∷ ps) =
    let same = deduplicate_loop key p.value ps in
    let next = emit key value (deduplicate_loop p.key p.value ps) in
    if p.key == key then same else next

unfoldable pub deduplicate : List KeyValuePair → List KeyValuePair
unfolding deduplicate_loop
deduplicate [] = []
deduplicate (p ∷ ps) = deduplicate_loop p.key p.value ps

-- `std::unique` with equality of keys: the first of each group of neighbours stays.
unfoldable pub unique_loop : ℕ → List KeyValuePair → List KeyValuePair
unique_loop key [] = []
unique_loop key (p ∷ ps) =
    let next = p ∷ unique_loop p.key ps in
    let same = unique_loop key ps in if p.key == key then same else next

unfoldable pub unique : List KeyValuePair → List KeyValuePair
unfolding unique_loop
unique [] = []
unique (p ∷ ps) = p ∷ unique_loop p.key ps

-- The keys ascend, equal ones side by side.
abbrev pub IsSorted : ℕ → List KeyValuePair → Type 0
IsSorted lo [] = Unit
IsSorted lo (p ∷ ps) = (lo ≤ rank p.key) × IsSorted (rank p.key) ps

-- The value of the last pair with a key.
unfoldable pub last_value : ℕ → List KeyValuePair → Option ℕ
last_value key [] = none
last_value key (p ∷ ps) = elim (last_value key ps) [
  | some v ↦ some v
  | none ↦ if p.key == key then some p.value else none
]

-- A deletion mark is no value.
abbrev pub live : Option ℕ → Option ℕ
live none = none
live (some v) = if v == tombstone then none else some v
