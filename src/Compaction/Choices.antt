-- ===== src/Compaction/Choices.antt =====
-- What the contract of `std::sort` leaves of the values of a key when sorted pairs are merged: a key with one
-- value keeps it, and a key with several has one of them.
use mathlib.Core.List.{Mem}
use mathlib.Core.List.Perm
use cs.Prelude.{
  ℕ, ◌<◌, ◌≡◌, ◌≢◌, ◌⊎◌, refl, ap, List, [], ◌∷◌, Option, none, some, arith, ◌==◌, inl, inr,
  Bool-cases, ==_iff,
}
use cs.Int64.{word}
use cs.Pair.{KeyValuePair, Fits}
use cs.Compaction.{deduplicate, deduplicate_loop, last_value}
use cs.Compaction.Sorting.{IsSort, pair, last_value-Mem, last_value-none}

-- The pairs hold the key with two different values.
abbrev pub Contested : ℕ → List KeyValuePair → Type 0
Contested k ps = (v w : ℕ) × Mem (pair k v) ps × Mem (pair k w) ps × (v ≢ w)

-- The last value of a key, or another one that the pairs hold for it.
abbrev pub Chosen : ℕ → List KeyValuePair → Option ℕ → Option ℕ → Type 0
Chosen k ps last o = (o ≡ last) ⊎ ((v : ℕ) × (o ≡ some v) × Mem (pair k v) ps × Contested k ps)

last_value-Chosen :
    (sort : List KeyValuePair → List KeyValuePair) (k : ℕ) (ps : List KeyValuePair)
    → IsSort sort
    → (o last : Option ℕ) → last_value k (sort ps) ≡ o
    → last_value k ps ≡ last
    → Chosen k ps last o
last_value-Chosen sort k ps std none none e f = inl refl
last_value-Chosen sort k ps std none (some w) e f = absurd (
    last_value-none k w (sort ps) e
      ((Perm.mem_iff (std.same_pairs ps)).1 (last_value-Mem k w ps f)))
last_value-Chosen sort k ps std (some v) none e f = absurd (
    last_value-none k v ps f
      ((Perm.mem_iff (std.same_pairs ps)).0 (last_value-Mem k v (sort ps) e)))
last_value-Chosen sort k ps std (some v) (some w) e f =
    let here = (Perm.mem_iff (std.same_pairs ps)).0 (last_value-Mem k v (sort ps) e) in
    elim (Bool-cases (v == w)) [
      | inl same ↦ inl (ap (λ x. some x) ((==_iff v w).0 same))
      | inr other ↦
          inr (v, refl, here, (v, w, here, last_value-Mem k w ps f, λ h. ground (arith, h, other)))
    ]

-- For a sort that meets the contract, the last value of a key in the sorted pairs is the last one that the
-- pairs hold for it, unless they hold several.
pub last_value-sort :
    (sort : List KeyValuePair → List KeyValuePair)
    → IsSort sort
    → (k : ℕ) (ps : List KeyValuePair) → Chosen k ps (last_value k ps) (last_value k (sort ps))
last_value-sort sort std k ps = last_value-Chosen sort k ps std _ _ refl refl

-- Merged pairs are made of keys and values that were there.
deduplicate_loop-Fits :
    (key value : ℕ) (ps : List KeyValuePair)
    → key < word
    → value < word
    → Fits ps
    → Fits (deduplicate_loop key value ps)
unfolding deduplicate_loop
deduplicate_loop-Fits key value [] a b f = ground arith
deduplicate_loop-Fits key value (p ∷ ps) a b f =
    let same = deduplicate_loop-Fits key p.value ps a f.1 f.2 in
    let next = deduplicate_loop-Fits p.key p.value ps f.0 f.1 f.2 in ground arith

pub deduplicate-Fits : (ps : List KeyValuePair) → Fits ps → Fits (deduplicate ps)
unfolding deduplicate
deduplicate-Fits [] f = tt
deduplicate-Fits (p ∷ ps) f = deduplicate_loop-Fits p.key p.value ps f.0 f.1 f.2
