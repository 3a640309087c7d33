-- ===== src/Bloom/File.antt =====
-- A filter saved to a file and loaded from it.
use cs.Prelude.{
  ℕ, zero, suc, ◌+◌, ◌/◌, ◌<◌, ◌≡◌, refl, sym, ap, ◌∙◌, List, [], ◌∷◌, some, false, arith, length,
  get_or, replicate, length-replicate, take, ltb,
}
use cs.Int64.{word, join64-put64}
use cs.Result.{ok}
use cs.Bloom.{BloomFilter, pack_loop, save, load}
use cs.Bloom.Bits.{IsFresh, pack_loop-length, unpack_loop-pack_loop}

-- The fields are 64-bit values, as they are in memory.
pub record FilterFits (b : BloomFilter) : Type 0 where
  pub fpr : b.fpr < word
  pub expected : b.expected_num_elements < word
  pub hashes : b.num_hash_functions < word
  pub count : length b.bits < word

get_or-replicate : (n q : ℕ) → get_or {A = ℕ} (replicate n 0) q 0 ≡ 0
get_or-replicate zero q = refl
get_or-replicate (suc n) zero = refl
get_or-replicate (suc n) (suc q) = get_or-replicate n q

replicate-IsFresh : (n : ℕ) → IsFresh 0 (replicate n 0)
replicate-IsFresh n = record {
  here = rw (get_or-replicate n 0) (omega arith);
  behind = λ q h. get_or-replicate n q;
}

take-length : (xs : List ℕ) → take (length xs) xs ≡ xs
take-length [] = refl
take-length (x ∷ xs) = ap (λ ys. x ∷ ys) (take-length xs)

-- What `save` wrote is loaded again, every bit and every field.
pub load-save : (b : BloomFilter) → FilterFits b → load (some (save b)) ≡ ok b
unfolding load save
load-save b fits =
    let n = (length b.bits + 7) / 8 in
    let buffer = pack_loop 0 b.bits (replicate n 0) in
    let size : length buffer ≡ n =
      pack_loop-length 0 b.bits (replicate n 0) ∙ length-replicate {A = ℕ} n 0 in
    let whole : ltb (length buffer) n ≡ false = ground (arith, size) in
    let taken : take n buffer ≡ buffer = ap (λ m. take m buffer) (sym size) ∙ take-length buffer in
    rw
      (
        join64-put64 b.fpr fits.fpr,
        join64-put64 b.expected_num_elements fits.expected,
        join64-put64 b.num_hash_functions fits.hashes,
        join64-put64 (length b.bits) fits.count,
        whole,
        taken,
        unpack_loop-pack_loop 0 b.bits (replicate n 0) (omega (arith, length-replicate {A = ℕ} n 0))
            (replicate-IsFresh n),
      )
      refl
