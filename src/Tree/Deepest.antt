-- ===== src/Tree/Deepest.antt =====
-- The deepest level cannot take a run: its false positive rate is 1, for which a filter has no bits.
use cs.Prelude.{
  ℕ, suc, ◌-◌, ◌≡◌, refl, ap, ◌∙◌, List, [], ◌∷◌, true, false, arith, ◌==◌, length,
  length-replicate, is_empty, max,
}
use cs.Result.{err, division_by_zero}
use cs.Pair.{KeyValuePair}
use cs.Double.{Doubles, IsExact, one_double}
use cs.Bloom
use cs.Bloom.{BloomFilter, optimal_bits, optimal_hash_functions, insert, insert_loop, hash}
use cs.Store.{Store}
use cs.Run.{insert_keys, create, data_filename}
use cs.Tree.{LsmTree, calculate_fpr_for_level}
use cs.Tree.Compact.{append_run}

calculate_fpr_for_level_deepest :
    (d : Doubles) (level : ℕ)
    → IsExact d
    → (level == 0) ≡ false
    → calculate_fpr_for_level d level level ≡ one_double
unfolding calculate_fpr_for_level
calculate_fpr_for_level_deepest d level x h = rw (h, x.pow_zero, x.one_div_one, x.one_lt_one)

optimal_bits_one : (d : Doubles) (n : ℕ) → IsExact d → optimal_bits d n one_double ≡ 0
unfolding optimal_bits
optimal_bits_one d n x =
    cc (x.log_one, x.neg_mul_zero n, x.zero_div_ln2, x.ceil_zero, x.to_size_zero)

-- Hashing into no bits divides by zero.
insert_keys_no_bits :
    (b : BloomFilter) (ps : List KeyValuePair) (hashes : ℕ)
    → b.num_hash_functions ≡ suc hashes
    → length b.bits ≡ 0
    → is_empty ps ≡ false
    → insert_keys b ps ≡ err division_by_zero
unfolding insert_keys insert insert_loop hash
insert_keys_no_bits b [] hashes e z h = cc
insert_keys_no_bits b (p ∷ ps) hashes e z h =
    let fails : insert b p.key ≡ err division_by_zero = rw (e, z) refl in rw (fails, insert_keys)

create_no_bits :
    (d : Doubles) (ps : List KeyValuePair) (level run_id fpr : ℕ) (s : Store)
    → is_empty ps ≡ false
    → s.writable (data_filename level run_id) ≡ true
    → optimal_bits d (length ps) fpr ≡ 0
    → (create d ps level run_id fpr s).0 ≡ err division_by_zero
unfolding create Bloom.create
create_no_bits d ps level run_id fpr s h w z =
    let k = optimal_hash_functions d (optimal_bits d (length ps) fpr) (length ps) in
    let fails =
      insert_keys_no_bits (Bloom.create d fpr (length ps)) ps (max 1 k - 1) (omega arith)
        (omega (arith, z, length-replicate (optimal_bits d (length ps) fpr) false)) h in
    rw (h, w, fails)

-- Where the floating-point operations are exact as documented, `max_level` is not 0 and the data file
-- may be created, forming a run of the deepest level, `max_level`, of one or more pairs ends in a
-- division by zero.
pub append_run_deepest :
    (d : Doubles) (sort : List KeyValuePair → List KeyValuePair) (t : LsmTree)
    (ps : List KeyValuePair) (run_id : ℕ)
    → IsExact d
    → (t.max_level == 0) ≡ false
    → is_empty ps ≡ false
    → t.store.writable (data_filename t.max_level run_id) ≡ true
    → (append_run d sort ps t.max_level run_id t).0 ≡ err division_by_zero
unfolding append_run
append_run_deepest d sort t ps run_id x deep h w =
    let z : optimal_bits d (length ps) (calculate_fpr_for_level d t.max_level t.max_level) ≡ 0 =
      ap (optimal_bits d (length ps)) (calculate_fpr_for_level_deepest d t.max_level x deep)
      ∙ optimal_bits_one d (length ps) x in
    rw (
      create_no_bits d ps t.max_level run_id (calculate_fpr_for_level d t.max_level t.max_level)
        t.store h w z)
