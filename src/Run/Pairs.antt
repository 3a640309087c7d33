-- ===== src/Run/Pairs.antt =====
-- Reading back all pairs of a run, and a sample.
use cs.Prelude.{
  ℕ, zero, suc, ap, ◌∙◌, get_elem?, ◌+◌, ◌*◌, ◌≡◌, refl, List, [], ◌∷◌, Bool-cases, inl, inr, ◌==◌,
  arith, length, take, min, drop,
}
use cs.Result.{ok, or_fail, cannot_read}
use cs.Pair.{KeyValuePair, Fits, decode, encode}
use cs.Pair.Stream.{decode-encode, drop-encode, Fits-drop}
use cs.Store.{Store}
use cs.Run.{Run, read_pairs, get_all_pairs, get_sample_pairs, read_pair_at}
use cs.Run.Holds.{Holds}

-- The count that ends the loop is reached at the last pair.
read_pairs_all :
    (total count : ℕ) (ps : List KeyValuePair)
    → total ≡ count + length ps
    → read_pairs total count ps ≡ ps
unfolding read_pairs
read_pairs_all total count [] e = refl
read_pairs_all total count (p ∷ []) e = ground arith
read_pairs_all total count (p ∷ q ∷ ps) e =
    ground (arith, read_pairs_all total (count + 1) (q ∷ ps) (omega arith))

-- On a run that holds `ps`, `get_all_pairs` returns all of `ps`.
pub get_all_pairs_lem :
    (s : Store) (r : Run) (ps : List KeyValuePair) → Holds s r ps → get_all_pairs r s ≡ (ok ps, s)
unfolding get_all_pairs
get_all_pairs_lem s r ps h =
    rw (
      h.stored,
      decode-encode ps h.fits,
      read_pairs_all r.num_pairs 0 ps (omega (arith, h.counted)),
    )

-- On a run that holds `ps`, `get_sample_pairs` returns the first pairs of `ps`, as many as asked for
-- or all.
pub get_sample_pairs_lem :
    (s : Store) (r : Run) (ps : List KeyValuePair) (max_count : ℕ)
    → Holds s r ps
    → get_sample_pairs r max_count s ≡ (ok (take (min max_count (length ps)) ps), s)
unfolding get_sample_pairs
get_sample_pairs_lem s r ps max_count h =
    rw h.counted (elim (Bool-cases (min max_count (length ps) == 0)) [
      | inl e ↦ let z : min max_count (length ps) ≡ 0 = ground arith in rw (e, z)
      | inr e ↦ rw (e, h.stored, decode-encode ps h.fits)
    ])

read_pair_at_first :
    (content : List ℕ) (offset : ℕ) (ps : List KeyValuePair)
    → decode (drop offset content) ≡ ps
    → read_pair_at content offset ≡ or_fail (get_elem? ps 0) cannot_read
unfolding read_pair_at
read_pair_at_first content offset [] e = rw (e, read_pair_at)
read_pair_at_first content offset (p ∷ ps) e = rw (e, read_pair_at)

-- In a file of pairs of 64-bit values, `read_pair_at` returns the pair with index `i` at its offset,
-- and throws past the last pair.
pub read_pair_at_lem :
    (i : ℕ) (ps : List KeyValuePair)
    → Fits ps
    → read_pair_at (encode ps) (16 * i) ≡ or_fail (get_elem? ps i) cannot_read
read_pair_at_lem i ps h =
    read_pair_at_first (encode ps) (16 * i) (drop i ps)
      (rw (drop-encode i (16 * i) ps refl) (decode-encode (drop i ps) (Fits-drop i ps h)))
    ∙ ap (λ o. or_fail o cannot_read) (first_dropped i ps)
  where
    first_dropped : (j : ℕ) (qs : List KeyValuePair) → get_elem? (drop j qs) 0 ≡ get_elem? qs j
    first_dropped zero [] = refl
    first_dropped zero (q ∷ qs) = refl
    first_dropped (suc j) [] = refl
    first_dropped (suc j) (q ∷ qs) = first_dropped j qs
