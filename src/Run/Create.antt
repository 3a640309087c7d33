-- ===== src/Run/Create.antt =====
-- The constructor of `Run` that writes a run.
use cs.Prelude.{
  ℕ, ◌+◌, ◌<◌, ◌≡◌, refl, List, [], ◌∷◌, some, true, false, arith, length, length-replicate,
  is_empty,
}
use cs.Result.{ok}
use cs.Pair.{KeyValuePair, Fits, Ascends, encode}
use cs.Double.{Doubles}
use cs.Bloom
use cs.Bloom.{BloomFilter, optimal_bits}
use cs.Bloom.Membership.{
  Extends, Extends-refl, Extends-trans, might_contain-insert, might_contain-Extends,
}
use cs.Fence
use cs.Fence.{key_offsets}
use cs.Fence.Build.{create-IsIndexOf}
use cs.Store.{FileName, Store, same_name, updated}
use cs.Store.Paths.{same_name_refl, same_name_suffix}
use cs.Run.{Run, insert_keys, create, data_filename, bloom_filename, fence_filename}
use cs.Run.Holds.{Finds, Holds}

-- All keys that the constructor inserts are found afterwards.
insert_keys-Finds :
    (b : BloomFilter) (ps : List KeyValuePair)
    → 0 < length b.bits
    → (b' : BloomFilter) × (insert_keys b ps ≡ ok b') × Extends b b' × Finds b' ps
unfolding insert_keys
insert_keys-Finds b [] h = (b, refl, Extends-refl b, tt)
insert_keys-Finds b (p ∷ ps) h =
    let (b₁, e, x, found) = might_contain-insert b p.key h in
    let h₁ : 0 < length b₁.bits = omega (arith, x.grown.same_length) in
    let (b₂, e', x', rest) = insert_keys-Finds b₁ ps h₁ in
    (
      b₂,
      rw (e, insert_keys) e',
      Extends-trans x x',
      (might_contain-Extends b₁ b₂ p.key h₁ x' found, rest),
    )

-- The files of a new run may be created.
pub record IsAllowed (s : Store) (name : FileName) : Type 0 where
  pub data_file : s.writable name ≡ true
  pub bloom_file : s.writable (bloom_filename name) ≡ true
  pub fence_file : s.writable (fence_filename name) ≡ true

-- Only the three files of a run differ.
abbrev pub OnlyFilesOf : FileName → Store → Store → Type 0
OnlyFilesOf name s s' =
    (n : FileName)
    → same_name name n ≡ false
    → same_name (bloom_filename name) n ≡ false
    → same_name (fence_filename name) n ≡ false
    → s'.disk n ≡ s.disk n

module _ (d : Doubles) (ps : List KeyValuePair) (level run_id fpr : ℕ) (s : Store) where
  abbrev pub name : FileName
  name = data_filename level run_id

  unfoldable pub made : BloomFilter → Run
  made b = record {
    level = level;
    run_id = run_id;
    filename = name;
    num_pairs = length ps;
    bytes = 0;
    bloom_filter = some b;
    fence_pointers = some (Fence.create name (key_offsets 0 ps));
  }

  unfoldable pub written : BloomFilter → Store
  written b = record s {
    disk =
        updated
          (updated (updated s.disk name (some (encode ps))) (bloom_filename name)
            (some (Bloom.save b)))
          (fence_filename name) (some (Fence.save (Fence.create name (key_offsets 0 ps))));
    write_io_count = s.write_io_count + 1;
  }

  made-Holds :
      (b : BloomFilter)
      → Fits ps
      → Ascends 0 ps
      → 0 < length b.bits
      → Finds b ps
      → Holds (written b) (made b) ps
  unfolding made written
  made-Holds b fits ascending bits found = record {
    stored = rw (own_bloom, own_fence, same_name_refl name);
    fits = fits;
    ascending = ascending;
    counted = refl;
    filtered = (bits, found);
    indexed = create-IsIndexOf name ps;
  }
    where
      own_bloom : same_name (bloom_filename name) name ≡ false
      own_bloom = same_name_suffix name _ _

      own_fence : same_name (fence_filename name) name ≡ false
      own_fence = same_name_suffix name _ _

  written_only : (b : BloomFilter) → OnlyFilesOf name s (written b)
  unfolding written
  written_only b n own bloom fence = rw (fence, bloom, own)

  -- What the constructor makes, with a filter that grew out of the empty one and finds all keys.
  pub create-made :
      is_empty ps ≡ false
      → 0 < optimal_bits d (length ps) fpr
      → IsAllowed s (data_filename level run_id)
      → (b : BloomFilter) × (insert_keys (Bloom.create d fpr (length ps)) ps ≡ ok b)
        × Extends (Bloom.create d fpr (length ps)) b
        × Finds b ps
        × (0 < length b.bits)
        × (create d ps level run_id fpr s ≡ (ok (made b), written b))
  unfolding create Bloom.create made written
  create-made nonempty bits allowed =
      let (b, e, x, found) = insert_keys-Finds (Bloom.create d fpr (length ps)) ps has_bits in
      (
        b,
        e,
        x,
        found,
        omega (arith, x.grown.same_length, has_bits),
        rw (nonempty, allowed.data_file, e, allowed.bloom_file, allowed.fence_file),
      )
    where
      has_bits : 0 < length (Bloom.create d fpr (length ps)).bits
      has_bits = omega (arith, length-replicate (optimal_bits d (length ps) fpr) false)

  -- From one or more pairs of 64-bit values in strictly ascending order, where the filter has bits and
  -- the three files may be created, the constructor makes a run that holds the pairs under the name
  -- of its level and id; no file but its own three is touched, and one write is counted.
  pub create-Holds :
      is_empty ps ≡ false
      → Fits ps
      → Ascends 0 ps
      → 0 < optimal_bits d (length ps) fpr
      → IsAllowed s (data_filename level run_id)
      → (r : Run) × (s' : Store) × (create d ps level run_id fpr s ≡ (ok r, s'))
        × Holds s' r ps
        × (r.filename ≡ data_filename level run_id)
        × OnlyFilesOf (data_filename level run_id) s s'
        × (s'.write_io_count ≡ s.write_io_count + 1)
  unfolding made written
  create-Holds nonempty fits ascending bits allowed =
      let (b, e, x, found, has_bits, made_it) = create-made nonempty bits allowed in
      (
        made b,
        written b,
        made_it,
        made-Holds b fits ascending has_bits found,
        refl,
        written_only b,
        refl,
      )
