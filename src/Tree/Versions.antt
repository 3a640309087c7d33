-- ===== src/Tree/Versions.antt =====
-- All values of a key that a tree holds, in the buffer and in every run, the outdated ones too.
use mathlib.Core.List.{Mem, Perm, mem-cons, mem-cons_self, mem-cons_of_mem, not-mem-nil}
use mathlib.Core.List.Perm
use mathlib.Core.Logic.Or
use mathlib.Core.HLevel.{⊥_prop}
use cs.Prelude.{
  ℕ, ◌≡◌, refl, sym, ap, ◌∙◌, List, [], ◌∷◌, ◌++◌, Bool, true, false, ◌&&◌, ◌||◌, some, ◌==◌, arith,
  Bool-cases, inl, inr,
}
use cs.Int64.{le64, lt64}
use cs.Pair.{KeyValuePair, lookup, within}
use cs.Compaction.Sorting.{pair}

-- The pair of a key and a value is there.
unfoldable pub has : ℕ → ℕ → List KeyValuePair → Bool
has k v [] = false
has k v (p ∷ ps) = (p.key == k && p.value == v) || has k v ps

unfoldable pub has_in_runs : ℕ → ℕ → List (List KeyValuePair) → Bool
has_in_runs k v [] = false
has_in_runs k v (ps ∷ pss) = has k v ps || has_in_runs k v pss

unfoldable pub has_in_levels : ℕ → ℕ → List (List (List KeyValuePair)) → Bool
has_in_levels k v [] = false
has_in_levels k v (pss ∷ psss) = has_in_runs k v pss || has_in_levels k v psss

-- The tree holds the value for the key, in the buffer or in a run.
unfoldable pub has_version : ℕ → ℕ → List KeyValuePair → List (List (List KeyValuePair)) → Bool
unfolding has has_in_runs has_in_levels
has_version k v buffered psss = has k v buffered || has_in_levels k v psss

abbrev pub in_range : ℕ → ℕ → ℕ → Bool
in_range start_key end_key k = le64 start_key k && lt64 k end_key

pub has-append :
    (k v : ℕ) (ps qs : List KeyValuePair) → has k v (ps ++ qs) ≡ (has k v ps || has k v qs)
unfolding has
has-append k v [] qs = refl
has-append k v (p ∷ ps) qs = ground (arith, has-append k v ps qs)

pub has-within :
    (k v start_key end_key : ℕ) (ps : List KeyValuePair)
    → has k v (within start_key end_key ps) ≡ (in_range start_key end_key k && has k v ps)
unfolding has within
has-within k v start_key end_key [] = ground arith
has-within k v start_key end_key (p ∷ ps) = ground (arith, has-within k v start_key end_key ps)

pub has-lookup : (k v : ℕ) (ps : List KeyValuePair) → lookup k ps ≡ some v → has k v ps ≡ true
unfolding has lookup
has-lookup k v [] e = cc
has-lookup k v (p ∷ ps) e = ground (arith, e, has-lookup k v ps)

pub lookup-has :
    (k v : ℕ) (ps : List KeyValuePair) → has k v ps ≡ true → (w : ℕ) × (lookup k ps ≡ some w)
unfolding has lookup
lookup-has k v [] e = cc
lookup-has k v (p ∷ ps) e = elim (Bool-cases (p.key == k)) [
  | inl here ↦ (p.value, rw here)
  | inr other ↦ let (w, f) = lookup-has k v ps (ground arith) in (w, rw other f)
]

has-Mem : (k v : ℕ) (ps : List KeyValuePair) → has k v ps ≡ true → Mem (pair k v) ps
unfolding has
has-Mem k v [] e = cc
has-Mem k v (p ∷ ps) e = elim (Bool-cases (p.key == k && p.value == v)) [
  | inl here ↦
      let kp : p.key ≡ k = ground arith in
      let vp : p.value ≡ v = ground arith in let same : p ≡ pair k v = cc in rw same mem-cons_self
  | inr other ↦ mem-cons_of_mem p (has-Mem k v ps (ground arith))
]

not-Mem : (k v : ℕ) (ps : List KeyValuePair) → has k v ps ≡ false → ¬ Mem (pair k v) ps
unfolding has
not-Mem k v [] e m = not-mem-nil m
not-Mem k v (p ∷ ps) e m =
    Or.elim ⊥_prop (mem-cons.0 m)
      (λ h.
        let kp : k ≡ p.key = ap (λ (q : KeyValuePair). q.key) h in
        let vp : v ≡ p.value = ap (λ (q : KeyValuePair). q.value) h in ground (arith, e, kp, vp))
      (λ later. not-Mem k v ps (ground arith) later)

-- Permuted lists have the same pairs.
pub has-Perm : (k v : ℕ) (ps qs : List KeyValuePair) → Perm ps qs → has k v ps ≡ has k v qs
has-Perm k v ps qs x = elim (Bool-cases (has k v qs)) [
  | inl f ↦ elim (Bool-cases (has k v ps)) [
    | inl e ↦ e ∙ sym f
    | inr e ↦ absurd (not-Mem k v ps e ((Perm.mem_iff x).1 (has-Mem k v qs f)))
  ]
  | inr f ↦ elim (Bool-cases (has k v ps)) [
    | inl e ↦ absurd (not-Mem k v qs f ((Perm.mem_iff x).0 (has-Mem k v ps e)))
    | inr e ↦ e ∙ sym f
  ]
]
