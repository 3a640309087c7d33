-- ===== src/Compaction/Newest.antt =====
-- What the merged pairs hold.
use cs.Prelude.{
  ℕ, suc, ◌≤◌, ◌<◌, ◌≡◌, refl, List, [], ◌∷◌, Option, none, some, false, arith, ◌==◌, if◌then◌else◌,
  Bool-cases, inl, inr, ap, ==_iff,
}
use cs.Int64.{rank, rank-injective}
use cs.Pair.{KeyValuePair, Ascends, lookup}
use cs.Compaction.{deduplicate, deduplicate_loop, unique, unique_loop, IsSorted, last_value, live}

last_value_below :
    (k lo : ℕ) (ps : List KeyValuePair) → IsSorted lo ps → rank k < lo → last_value k ps ≡ none
unfolding last_value
last_value_below k lo [] s h = refl
last_value_below k lo (p ∷ ps) s h = ground (arith, last_value_below k (rank p.key) ps s.1)

-- A pair in front counts where the key does not follow.
abbrev or_before : ℕ → ℕ → ℕ → Option ℕ → Option ℕ
or_before k key value (some v) = some v
or_before k key value none = if key == k then some value else none

apart : (a b : ℕ) → (a == b) ≡ false → rank b ≤ rank a → rank b < rank a
apart a b h l = ground (arith, rank-injective b a)

deduplicate_loop-Ascends :
    (lo key value : ℕ) (ps : List KeyValuePair)
    → lo ≤ rank key
    → IsSorted (rank key) ps
    → Ascends lo (deduplicate_loop key value ps)
unfolding deduplicate_loop
deduplicate_loop-Ascends lo key value [] l s = ground arith
deduplicate_loop-Ascends lo key value (p ∷ ps) l s = elim (Bool-cases (p.key == key)) [
  | inl same ↦
      let e : rank p.key ≡ rank key = ap rank ((==_iff p.key key).0 same) in
      rw same (deduplicate_loop-Ascends lo key p.value ps l (rw e at s.1))
  | inr next ↦ rw next (
      ground (
        arith,
        apart p.key key next s.0,
        deduplicate_loop-Ascends (suc (rank key)) p.key p.value ps (apart p.key key next s.0) s.1,
        deduplicate_loop-Ascends lo p.key p.value ps (omega arith) s.1,
      ))
]

-- After the loop a key has the last value that it had before, unless that was a deletion mark.
deduplicate_loop-lookup :
    (k key value : ℕ) (ps : List KeyValuePair)
    → IsSorted (rank key) ps
    → lookup k (deduplicate_loop key value ps) ≡ live (or_before k key value (last_value k ps))
unfolding deduplicate_loop lookup last_value
deduplicate_loop-lookup k key value [] s = ground arith
deduplicate_loop-lookup k key value (p ∷ ps) s = elim (Bool-cases (p.key == key)) [
  | inl same ↦
      let e : rank p.key ≡ rank key = ap rank ((==_iff p.key key).0 same) in
      rw same (ground (arith, deduplicate_loop-lookup k key p.value ps (rw e at s.1)))
  | inr next ↦ rw next (
      ground (
        arith,
        apart p.key key next s.0,
        deduplicate_loop-lookup k p.key p.value ps s.1,
        last_value_below k (rank p.key) ps s.1,
      ))
]

-- Of sorted pairs the merge keeps the last value of each key unless it marks a deletion, and the
-- result ascends strictly.
pub deduplicate-last_value :
    (ps : List KeyValuePair)
    → IsSorted 0 ps
    → Ascends 0 (deduplicate ps) × ((k : ℕ) → lookup k (deduplicate ps) ≡ live (last_value k ps))
unfolding deduplicate lookup last_value
deduplicate-last_value [] s = (tt, λ k. refl)
deduplicate-last_value (p ∷ ps) s = (
  deduplicate_loop-Ascends 0 p.key p.value ps (omega arith) s.1,
  λ k. ground (arith, deduplicate_loop-lookup k p.key p.value ps s.1),
)

unique_loop_lem :
    (key : ℕ) (ps : List KeyValuePair)
    → IsSorted (rank key) ps
    → Ascends (suc (rank key)) (unique_loop key ps)
      × ((k : ℕ) → (key == k) ≡ false → lookup k (unique_loop key ps) ≡ lookup k ps)
unfolding unique_loop lookup
unique_loop_lem key [] s = (tt, λ k h. refl)
unique_loop_lem key (p ∷ ps) s = elim (Bool-cases (p.key == key)) [
  | inl same ↦
      let e : rank p.key ≡ rank key = ap rank ((==_iff p.key key).0 same) in
      let (a, f) = unique_loop_lem key ps (rw e at s.1) in rw same (a, λ k h. ground (arith, f k h))
  | inr next ↦
      let (a, f) = unique_loop_lem p.key ps s.1 in
      rw next ((apart p.key key next s.0, a), λ k h. ground (arith, f k))
]

-- `std::unique` on sorted pairs leaves them strictly ascending, each key with its first value.
pub unique-lookup :
    (ps : List KeyValuePair)
    → IsSorted 0 ps
    → Ascends 0 (unique ps) × ((k : ℕ) → lookup k (unique ps) ≡ lookup k ps)
unfolding unique lookup
unique-lookup [] s = (tt, λ k. refl)
unique-lookup (p ∷ ps) s =
    let (a, f) = unique_loop_lem p.key ps s.1 in ((omega arith, a), λ k. ground (arith, f k))
