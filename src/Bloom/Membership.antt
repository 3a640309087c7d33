-- ===== src/Bloom/Membership.antt =====
-- A Bloom filter has no false negatives.
use native.Mathlib.Nat.{mod-lt}
use cs.Prelude.{
  ℕ, zero, suc, ◌+◌, ◌%◌, ◌<◌, ◌≡◌, refl, ◌∙◌, List, [], ◌∷◌, Bool, true, false, some, arith, ◌==◌,
  length, length-set, get_elem?, get_or, get_elem?-eq-get_or, set, Bool-cases, inl, inr,
}
use cs.Result.{ok}
use cs.Bloom.{BloomFilter, hash, hash_sum, insert_loop, might_contain_loop, insert, might_contain}

-- No bit is cleared.
pub record Grows (bits bits' : List Bool) : Type 0 where
  pub same_length : length bits' ≡ length bits
  pub kept : (j : ℕ) → get_elem? bits j ≡ some true → get_elem? bits' j ≡ some true

Grows-refl : (bits : List Bool) → Grows bits bits
Grows-refl bits = record { same_length = refl; kept = λ j h. h }

Grows-trans : {a b c : List Bool} → Grows a b → Grows b c → Grows a c
Grows-trans x y = record {
  same_length = y.same_length ∙ x.same_length;
  kept = λ j h. y.kept j (x.kept j h);
}

set_keeps :
    (bits : List Bool) (i j : ℕ)
    → get_elem? bits j ≡ some true
    → get_elem? (set bits i true) j ≡ some true
set_keeps [] i j h = h
set_keeps (b ∷ bits) zero zero h = refl
set_keeps (b ∷ bits) zero (suc j) h = h
set_keeps (b ∷ bits) (suc i) zero h = h
set_keeps (b ∷ bits) (suc i) (suc j) h = set_keeps bits i j h

set_sets : (bits : List Bool) (i : ℕ) → i < length bits → get_elem? (set bits i true) i ≡ some true
set_sets [] i h = elim h [ ]
set_sets (b ∷ bits) zero h = refl
set_sets (b ∷ bits) (suc i) h = set_sets bits i (omega arith)

Grows-set : (bits : List Bool) (i : ℕ) → Grows bits (set bits i true)
Grows-set bits i = record {
  same_length = length-set bits i true;
  kept = λ j h. set_keeps bits i j h;
}

-- On a filter with bits a hash is an index into them.
hash_inside : (m key i : ℕ) → 0 < m → (index : ℕ) × (hash m key i ≡ ok index) × (index < m)
unfolding hash
hash_inside m key i h =
    let e : (m == 0) ≡ false = ground arith in
    (hash_sum key i % m, rw e refl, mod-lt (hash_sum key i) h)

might_contain_loop-Grows :
    (n i key : ℕ) (bits bits' : List Bool)
    → 0 < length bits
    → Grows bits bits'
    → might_contain_loop n i key bits ≡ ok true
    → might_contain_loop n i key bits' ≡ ok true
unfolding might_contain_loop
might_contain_loop-Grows zero i key bits bits' h g e = refl
might_contain_loop-Grows (suc n) i key bits bits' h g e =
    let (index, at, inside) = hash_inside (length bits) key i h in
    let read = get_elem?-eq-get_or bits index false inside in
    elim (Bool-cases (get_or bits index false)) [
      | inl one ↦
          let e' = rw (at, read, one) at e in
          rw (g.same_length, at, g.kept index (rw one at read))
            (might_contain_loop-Grows n (i + 1) key bits bits' h g e')
      | inr clear ↦ let e' = rw (at, read, clear) at e in cc
    ]

-- After an insertion the filter has grown and contains the key.
insert_loop_lem :
    (n i key : ℕ) (bits : List Bool)
    → 0 < length bits
    → (bits' : List Bool) × (insert_loop n i key bits ≡ ok bits')
      × Grows bits bits'
      × (might_contain_loop n i key bits' ≡ ok true)
unfolding insert_loop might_contain_loop
insert_loop_lem zero i key bits h = (bits, refl, Grows-refl bits, refl)
insert_loop_lem (suc n) i key bits h =
    let (index, at, inside) = hash_inside (length bits) key i h in
    let next = set bits index true in
    let (bits', e, g, found) =
      insert_loop_lem n (i + 1) key next (omega (arith, length-set bits index true)) in
    let grown = Grows-trans (Grows-set bits index) g in
    (
      bits',
      rw at e,
      grown,
      rw (grown.same_length, at, g.kept index (set_sets bits index inside)) found,
    )

-- `b'` is `b` with more keys inserted.
pub record Extends (b b' : BloomFilter) : Type 0 where
  pub same_hashes : b'.num_hash_functions ≡ b.num_hash_functions
  pub grown : Grows b.bits b'.bits

pub Extends-refl : (b : BloomFilter) → Extends b b
Extends-refl b = record { same_hashes = refl; grown = Grows-refl b.bits }

pub Extends-trans : {a b c : BloomFilter} → Extends a b → Extends b c → Extends a c
Extends-trans x y = record {
  same_hashes = y.same_hashes ∙ x.same_hashes;
  grown = Grows-trans x.grown y.grown;
}

-- In a filter that has bits, what was found is found after more insertions.
pub might_contain-Extends :
    (b b' : BloomFilter) (key : ℕ)
    → 0 < length b.bits
    → Extends b b'
    → might_contain b key ≡ ok true
    → might_contain b' key ≡ ok true
unfolding might_contain
might_contain-Extends b b' key h x e =
    rw x.same_hashes
      (might_contain_loop-Grows b.num_hash_functions 0 key b.bits b'.bits h x.grown e)

-- On a filter that has bits, `insert` succeeds, keeps what was found, and the key is found after it.
pub might_contain-insert :
    (b : BloomFilter) (key : ℕ)
    → 0 < length b.bits
    → (b' : BloomFilter) × (insert b key ≡ ok b') × Extends b b' × (might_contain b' key ≡ ok true)
unfolding insert might_contain
might_contain-insert b key h =
    let (bits', e, g, found) = insert_loop_lem b.num_hash_functions 0 key b.bits h in
    (record b { bits = bits' }, rw e, record { same_hashes = refl; grown = g }, found)

might_contain_loop_total :
    (n i key : ℕ) (bits : List Bool)
    → 0 < length bits
    → (r : Bool) × (might_contain_loop n i key bits ≡ ok r)
unfolding might_contain_loop
might_contain_loop_total zero i key bits h = (true, refl)
might_contain_loop_total (suc n) i key bits h =
    let (index, at, inside) = hash_inside (length bits) key i h in
    let read = get_elem?-eq-get_or bits index false inside in
    elim (Bool-cases (get_or bits index false)) [
      | inl one ↦ rw (at, read, one) (might_contain_loop_total n (i + 1) key bits h)
      | inr clear ↦ (false, rw (at, read, clear))
    ]

-- A query of a filter that has bits is answered.
pub might_contain_total :
    (b : BloomFilter) (key : ℕ) → 0 < length b.bits → (r : Bool) × (might_contain b key ≡ ok r)
unfolding might_contain
might_contain_total b key h = might_contain_loop_total b.num_hash_functions 0 key b.bits h
