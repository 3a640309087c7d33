-- ===== src/Run/Reload.antt =====
-- A run that was written is opened again, as at the next start of the server.
use cs.Prelude.{
  ℕ, ◌*◌, ◌/◌, ◌%◌, ◌<◌, ◌≡◌, refl, sym, ap, ◌∙◌, List, [], ◌∷◌, ◌++◌, true, false, ◌==◌, arith,
  length, is_empty, inl, inr,
}
use cs.Int64.{word}
use cs.Result.{Result, ok, err, Result-cases}
use cs.Pair.{KeyValuePair, encode}
use cs.Pair.Stream.{length-encode}
use cs.Double.{Doubles}
use cs.Bloom
use cs.Bloom.{BloomFilter, optimal_bits, insert_loop}
use cs.Bloom.File as BloomFile
use cs.Bloom.File.{FilterFits}
use cs.Fence
use cs.Fence.{FencePointers, key_offsets}
use cs.Fence.File as FenceFile
use cs.Fence.File.{FitsAll}
use cs.Store.{FileName, Store, same_name, codes}
use cs.Store.Paths.{same_name_refl, same_name_suffix}
use cs.Run.{Run, insert_keys, create, load, data_filename, bloom_filename, fence_filename}
use cs.Run.Create.{IsAllowed, create-made, made, written}

field_of : (BloomFilter → ℕ) → Result BloomFilter → ℕ
field_of f (ok b) = f b
field_of f (err e) = 0

-- A filter with the same rate and number of elements.
abbrev SameFields : BloomFilter → BloomFilter → Type 0
SameFields b b' = (b'.fpr ≡ b.fpr) × (b'.expected_num_elements ≡ b.expected_num_elements)

ok-fields : (b b' : BloomFilter) → ok b ≡ ok b' → SameFields b b'
unfolding field_of
ok-fields b b' e =
    (sym (ap (field_of (λ c. c.fpr)) e), sym (ap (field_of (λ c. c.expected_num_elements)) e))

insert-fields : (b b' : BloomFilter) (key : ℕ) → Bloom.insert b key ≡ ok b' → SameFields b b'
unfolding Bloom.insert
insert-fields b b' key e = elim (Result-cases (insert_loop b.num_hash_functions 0 key b.bits)) [
  | inl (bits, f) ↦ ok-fields (record b { bits = bits }) b' (rw f at e)
  | inr (fault, f) ↦ let e' : ◌≡◌ {A = Result BloomFilter} (err fault) (ok b') = rw f at e in cc
]

insert_keys-fields :
    (b b' : BloomFilter) (ps : List KeyValuePair) → insert_keys b ps ≡ ok b' → SameFields b b'
unfolding insert_keys
insert_keys-fields b b' [] e = ok-fields b b' e
insert_keys-fields b b' (p ∷ ps) e = elim (Result-cases (Bloom.insert b p.key)) [
  | inl (c, f) ↦
      let first = insert-fields b c p.key f in
      let later = insert_keys-fields c b' ps (rw (f, insert_keys) at e) in
      (later.0 ∙ first.0, later.1 ∙ first.1)
  | inr (fault, f) ↦
      let e' : ◌≡◌ {A = Result BloomFilter} (err fault) (ok b') = rw (f, insert_keys) at e in cc
]

length-positive : (ps : List KeyValuePair) → is_empty ps ≡ false → 0 < length ps
length-positive [] h = cc
length-positive (p ∷ ps) h = omega arith

same_name-append : (name p q : FileName) → same_name (name ++ p) (name ++ q) ≡ same_name p q
unfolding same_name
same_name-append [] p q = refl
same_name-append (c ∷ name) p q =
    let self : (c == c) ≡ true = ground arith in rw self (same_name-append name p q)

-- The name and the entries of fence pointers are 64-bit values, as they are in memory.
pub record PointersFit (p : FencePointers) : Type 0 where
  pub name : length p.run_filename < word
  pub count : length p.fence_pointers < word
  pub entries : FitsAll p.fence_pointers

module _ (d : Doubles) (ps : List KeyValuePair) (level run_id fpr : ℕ) (s : Store) where
  reload :
      (b : BloomFilter)
      → is_empty ps ≡ false
      → FilterFits b
      → PointersFit (Fence.create (data_filename level run_id) (key_offsets 0 ps))
      → load (data_filename level run_id) level run_id (written d ps level run_id fpr s b) ≡ (
        ok (record (made d ps level run_id fpr s b) { bytes = 16 * length ps }),
        written d ps level run_id fpr s b,
      )
  unfolding load made written same_name
  reload b nonempty fits pointers =
      let name = data_filename level run_id in
      let bytes = length-encode ps in
      let whole : (length (encode ps) % 16 == 0) ≡ true = ground (arith, bytes) in
      let some_pairs = length-positive ps nonempty in
      let full : (length (encode ps) / 16 == 0) ≡ false = ground (arith, bytes, some_pairs) in
      let count : length (encode ps) / 16 ≡ length ps = omega (arith, bytes) in
      rw
        (
          same_name_suffix name b'.' (codes "bloom"),
          same_name_suffix name b'.' (codes "fence"),
          same_name_refl name,
          whole,
          full,
          count,
          same_name-append name (codes ".fence") (codes ".bloom"),
          same_name_refl (bloom_filename name),
          same_name_refl (fence_filename name),
          BloomFile.load-save b fits,
          FenceFile.load-save (Fence.create name (key_offsets 0 ps)) pointers.name pointers.count
              pointers.entries,
          bytes,
        )
        refl

  -- A run that was made from one or more pairs, where the filter has bits, the three files may be
  -- created and the sizes and fields of the filter and of the fence pointers are 64-bit values,
  -- is loaded again from its data file: the same run with the same filter and the same fence
  -- pointers, with the size of the file, sixteen bytes for each pair, filled in; loading changes
  -- nothing.
  pub load-create :
      is_empty ps ≡ false
      → 0 < optimal_bits d (length ps) fpr
      → IsAllowed s (data_filename level run_id)
      → FilterFits (Bloom.create d fpr (length ps))
      → PointersFit (Fence.create (data_filename level run_id) (key_offsets 0 ps))
      → (r : Run) × (s' : Store) × (create d ps level run_id fpr s ≡ (ok r, s'))
        × (load r.filename level run_id s' ≡ (ok (record r { bytes = 16 * length ps }), s'))
  unfolding made
  load-create nonempty bits allowed fits pointers =
      let (b, e, x, found, has_bits, made_it) =
        create-made d ps level run_id fpr s nonempty bits allowed in
      let same = insert_keys-fields (Bloom.create d fpr (length ps)) b ps e in
      let filter_fits : FilterFits b = record {
        fpr = rw (same.0) fits.fpr;
        expected = rw (same.1) fits.expected;
        hashes = rw (x.same_hashes) fits.hashes;
        count = omega (arith, x.grown.same_length, fits.count);
      } in
      (
        made d ps level run_id fpr s b,
        written d ps level run_id fpr s b,
        made_it,
        reload b nonempty filter_fits pointers,
      )
