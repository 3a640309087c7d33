-- ===== src/Pair/Stream.antt =====
-- Reading back what was written.
use cs.Prelude.{ℕ, zero, suc, ◌*◌, ◌-◌, ◌≡◌, refl, List, [], ◌∷◌, arith, length, drop}
use cs.Int64.{join64-put64}
use cs.Pair.{KeyValuePair, Fits, encode, decode}

-- A file of pairs is read back as these pairs.
pub decode-encode : (ps : List KeyValuePair) → Fits ps → decode (encode ps) ≡ ps
unfolding decode encode
decode-encode [] h = refl
decode-encode (p ∷ ps) h =
    rw (join64-put64 p.key h.0, join64-put64 p.value h.1, decode-encode ps h.2)

pub length-encode : (ps : List KeyValuePair) → length (encode ps) ≡ 16 * length ps
unfolding encode
length-encode [] = refl
length-encode (p ∷ ps) = omega (arith, length-encode ps)

-- A seek to the offset of the pair with index `n`.
pub drop-encode :
    (n o : ℕ) (ps : List KeyValuePair) → o ≡ 16 * n → drop o (encode ps) ≡ encode (drop n ps)
unfolding encode
drop-encode zero o ps h = let e : o ≡ 0 = omega arith in rw e
drop-encode (suc n) o [] h = let e : o ≡ suc (o - 1) = omega arith in rw e
drop-encode (suc n) o (p ∷ ps) h =
    let e : o
        ≡ suc (
            suc (
              suc (
                suc (
                  suc
                    (suc (suc (suc (suc (suc (suc (suc (suc (suc (suc (suc (o - 16)))))))))))))))) =
      omega arith in
    rw e (drop-encode n (o - 16) ps (omega arith))

pub Fits-drop : (n : ℕ) (ps : List KeyValuePair) → Fits ps → Fits (drop n ps)
Fits-drop zero ps h = h
Fits-drop (suc n) [] h = tt
Fits-drop (suc n) (p ∷ ps) h = Fits-drop n ps h.2
