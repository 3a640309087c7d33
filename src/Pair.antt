-- ===== src/Pair.antt =====
-- `KeyValuePair` of include/lsm_tree.h, and the layout of pairs in a run file: two values of eight
-- bytes for each pair, one pair after the other.
pub mod Order
pub mod Stream
use cs.Prelude.{ℕ, suc, ◌≡◌, ◌≤◌, ◌<◌, List, [], ◌∷◌, Option, none, some, ◌==◌, ◌&&◌, if◌then◌else◌}
use cs.Int64.{put64, join64, rank, word, le64, lt64}

pub record KeyValuePair : Type 0 where
  pub key : ℕ
  pub value : ℕ

-- The bytes that the loops of `file.write` calls produce.
unfoldable pub encode : List KeyValuePair → List ℕ
encode [] = []
encode (p ∷ ps) = put64 p.key (put64 p.value (encode ps))

-- The pairs that a loop `while (file.read(key) && file.read(value))` delivers until a read is short.
unfoldable pub decode : List ℕ → List KeyValuePair
decode (k0 ∷ k1 ∷ k2 ∷ k3 ∷ k4 ∷ k5 ∷ k6 ∷ k7 ∷ v0 ∷ v1 ∷ v2 ∷ v3 ∷ v4 ∷ v5 ∷ v6 ∷ v7 ∷ rest) =
    record { key = join64 k0 k1 k2 k3 k4 k5 k6 k7; value = join64 v0 v1 v2 v3 v4 v5 v6 v7 }
    ∷ decode rest
decode _ = []

-- Keys and values are 64-bit patterns.
abbrev pub Fits : List KeyValuePair → Type 0
Fits [] = Unit
Fits (p ∷ ps) = (p.key < word) × (p.value < word) × Fits ps

-- The keys ascend strictly, from rank `lo` on.
abbrev pub Ascends : ℕ → List KeyValuePair → Type 0
Ascends lo [] = Unit
Ascends lo (p ∷ ps) = (lo ≤ rank p.key) × Ascends (suc (rank p.key)) ps

-- The value of the first pair with a key.
unfoldable pub lookup : ℕ → List KeyValuePair → Option ℕ
lookup k [] = none
lookup k (p ∷ ps) = if p.key == k then some p.value else lookup k ps

-- The pairs with keys in [start_key, end_key).
unfoldable pub within : ℕ → ℕ → List KeyValuePair → List KeyValuePair
within start_key end_key [] = []
within start_key end_key (p ∷ ps) =
    if le64 start_key p.key && lt64 p.key end_key
    then p ∷ within start_key end_key ps
    else within start_key end_key ps
