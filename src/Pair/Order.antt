-- ===== src/Pair/Order.antt =====
-- Lists of pairs in ascending order of their keys.
use cs.Prelude.{ℕ, zero, suc, ◌≡◌, ◌≤◌, ◌<◌, refl, List, [], ◌∷◌, none, arith, All, take, drop}
use cs.Int64.{rank}
use cs.Pair.{KeyValuePair, Ascends, lookup}

pub Ascends-mono : (lo hi : ℕ) (ps : List KeyValuePair) → lo ≤ hi → Ascends hi ps → Ascends lo ps
Ascends-mono lo hi [] h a = tt
Ascends-mono lo hi (p ∷ ps) h a = (omega arith, a.1)

pub Ascends-All : (lo : ℕ) (ps : List KeyValuePair) → Ascends lo ps → All (λ p. lo ≤ rank p.key) ps
Ascends-All lo [] a = tt
Ascends-All lo (p ∷ ps) a =
    (a.0, Ascends-All lo ps (Ascends-mono lo (suc (rank p.key)) ps (omega arith) a.1))

pub Ascends-drop : (lo n : ℕ) (ps : List KeyValuePair) → Ascends lo ps → Ascends lo (drop n ps)
Ascends-drop lo zero ps a = a
Ascends-drop lo (suc n) [] a = tt
Ascends-drop lo (suc n) (p ∷ ps) a =
    Ascends-drop lo n ps (Ascends-mono lo (suc (rank p.key)) ps (omega arith) a.1)

pub lookup_below :
    (k lo : ℕ) (ps : List KeyValuePair) → Ascends lo ps → rank k < lo → lookup k ps ≡ none
unfolding lookup
lookup_below k lo [] a h = refl
lookup_below k lo (p ∷ ps) a h = ground (arith, lookup_below k (suc (rank p.key)) ps a.1)

-- Pairs with smaller keys in front do not count.
pub lookup-drop :
    (k n : ℕ) (ps : List KeyValuePair)
    → All (λ p. rank p.key < rank k) (take n ps)
    → lookup k (drop n ps) ≡ lookup k ps
unfolding lookup
lookup-drop k zero ps h = refl
lookup-drop k (suc n) [] h = refl
lookup-drop k (suc n) (p ∷ ps) h = ground (arith, lookup-drop k n ps h.1)
