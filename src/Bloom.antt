-- ===== src/Bloom.antt =====
-- `BloomFilter` of include/bloom_filter.h and src/bloom_filter.cpp.
pub mod Membership
pub mod Bits
pub mod File
use Prim.Native.Nat.{bit_and, bit_or, bit_xor}
use cs.Prelude.{
  ℕ, zero, suc, ◌+◌, ◌-◌, ◌*◌, ◌/◌, ◌%◌, ◌^◌, max, List, [], ◌∷◌, Bool, true, false, not, Option,
  none, some, ◌==◌, if◌then◌else◌, ltb, length, get_elem?, get_or, set, take, replicate,
}
use cs.Int64.{word, put64, read64}
use cs.Result.{
  Result, ok, err, out_of_bounds, division_by_zero, cannot_open, cannot_read, or_fail, ◌>>=◌,
}
use cs.Double.{Doubles, two_double}

pub record BloomFilter : Type 0 where
  pub bits : List Bool
  pub num_hash_functions : ℕ
  pub fpr : ℕ
  pub expected_num_elements : ℕ

abbrev pub fnv_prime : ℕ
fnv_prime = 1_099_511_628_211

abbrev pub fnv_offset_basis : ℕ
fnv_offset_basis = 14_695_981_039_346_656_037

module _ (d : Doubles) where
  unfoldable pub optimal_bits : ℕ → ℕ → ℕ
  optimal_bits n p = d.to_size (
      d.ceil (
        d.div (d.mul (d.neg (d.of_size n)) (d.log p))
          (d.mul (d.log two_double) (d.log two_double))))

  unfoldable pub optimal_hash_functions : ℕ → ℕ → ℕ
  optimal_hash_functions m n =
      d.to_size (d.ceil (d.mul (d.div (d.of_size m) (d.of_size n)) (d.log two_double)))

  -- The constructor, with `calculate_parameters`.
  unfoldable pub create : ℕ → ℕ → BloomFilter
  unfolding optimal_bits optimal_hash_functions
  create false_positive_rate expected_elements =
      let m = optimal_bits expected_elements false_positive_rate in
      record {
        bits = replicate m false;
        num_hash_functions = max 1 (optimal_hash_functions m expected_elements);
        fpr = false_positive_rate;
        expected_num_elements = expected_elements;
      }

unfoldable pub fnv1a_bytes : List ℕ → ℕ → ℕ
fnv1a_bytes [] h = h
fnv1a_bytes (b ∷ bs) h = fnv1a_bytes bs (bit_xor h b * fnv_prime % word)

unfoldable pub fnv1a_hash : ℕ → ℕ
unfolding fnv1a_bytes
fnv1a_hash key = fnv1a_bytes (put64 key []) fnv_offset_basis

-- `~key`
abbrev pub complement : ℕ → ℕ
complement key = word - 1 - key

unfoldable pub hash_sum : ℕ → ℕ → ℕ
hash_sum key hash_index = (fnv1a_hash key + hash_index * fnv1a_hash (complement key)) % word

-- Double hashing, modulo the number of bits, which must not be 0.
unfoldable pub hash : ℕ → ℕ → ℕ → Result ℕ
hash bit_count key hash_index =
    if bit_count == 0 then err division_by_zero else ok (hash_sum key hash_index % bit_count)

-- The loops of `insert` and `might_contain`, from hash function `i` on, with `n` rounds left.
unfoldable pub insert_loop : ℕ → ℕ → ℕ → List Bool → Result (List Bool)
insert_loop zero i key bits = ok bits
insert_loop (suc n) i key bits = do
  index ← hash (length bits) key i
  insert_loop n (i + 1) key (set bits index true)

unfoldable pub might_contain_loop : ℕ → ℕ → ℕ → List Bool → Result Bool
might_contain_loop zero i key bits = ok true
might_contain_loop (suc n) i key bits = do
  index ← hash (length bits) key i
  bit ← or_fail (get_elem? bits index) out_of_bounds
  let rest = might_contain_loop n (i + 1) key bits
  if bit then rest else ok false

unfoldable pub insert : BloomFilter → ℕ → Result BloomFilter
insert b key = do
  bits ← insert_loop b.num_hash_functions 0 key b.bits
  ok (record b { bits = bits })

unfoldable pub might_contain : BloomFilter → ℕ → Result Bool
might_contain b key = might_contain_loop b.num_hash_functions 0 key b.bits

-- `bit_count`
unfoldable pub bit_count : BloomFilter → ℕ
bit_count b = length b.bits

-- `buffer[byte_index] |= (1 << bit_index)` for each bit that is set, from bit `i` on.
unfoldable pub pack_loop : ℕ → List Bool → List ℕ → List ℕ
pack_loop i [] buffer = buffer
pack_loop i (bit ∷ bits) buffer =
    pack_loop (i + 1) bits
      (if bit then set buffer (i / 8) (bit_or (get_or buffer (i / 8) 0) (2 ^ (i % 8))) else buffer)

-- `bits[i] = (buffer[byte_index] & (1 << bit_index)) != 0`, from bit `i` on.
unfoldable pub unpack_loop : ℕ → ℕ → List ℕ → List Bool
unpack_loop zero i buffer = []
unpack_loop (suc n) i buffer =
    not (bit_and (get_or buffer (i / 8) 0) (2 ^ (i % 8)) == 0) ∷ unpack_loop n (i + 1) buffer

-- The content of the file that `save` writes.
unfoldable pub save : BloomFilter → List ℕ
unfolding pack_loop
save b = put64 b.fpr (
    put64 b.expected_num_elements (
      put64 b.num_hash_functions
        (put64 (length b.bits) (pack_loop 0 b.bits (replicate ((length b.bits + 7) / 8) 0)))))

-- `file.read(buffer.data(), byte_count)`
abbrev read_buffer : ℕ → List ℕ → Option (List ℕ)
read_buffer n bytes = if ltb (length bytes) n then none else some (take n bytes)

-- The constructor that loads: `none` is a file that does not open, and the stream's state is tested
-- after all reads.
unfoldable pub load : Option (List ℕ) → Result BloomFilter
unfolding unpack_loop
load content = do
  bytes ← or_fail content cannot_open
  (fpr, after_fpr) ← or_fail (read64 bytes) cannot_read
  (expected, after_expected) ← or_fail (read64 after_fpr) cannot_read
  (hashes, after_hashes) ← or_fail (read64 after_expected) cannot_read
  (count, after_count) ← or_fail (read64 after_hashes) cannot_read
  buffer ← or_fail (read_buffer ((count + 7) / 8) after_count) cannot_read
  ok (record {
    bits = unpack_loop count 0 buffer;
    num_hash_functions = hashes;
    fpr = fpr;
    expected_num_elements = expected;
  })
