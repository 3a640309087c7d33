-- ===== src/Int64.antt =====
-- `int64_t` and `uint64_t`: a value is its 64-bit pattern, a number below 2 ^ 64, and a signed
-- comparison compares ranks. The bytes of a value stand in memory order, the lowest first.
use cs.Prelude.{
  ℕ, ◌+◌, ◌-◌, ◌*◌, ◌/◌, ◌%◌, ◌<◌, ◌≡◌, Bool, List, ◌∷◌, Option, none, some, arith, ltb, leb,
  if◌then◌else◌,
}

abbrev pub word : ℕ
word = 0x1_0000_0000_0000_0000

-- `INT64_MIN`, the value that marks a deleted key.
abbrev pub tombstone : ℕ
tombstone = 0x8000_0000_0000_0000

-- The order of the patterns as signed numbers. A number that is no pattern keeps its place, so that
-- the ranks of any two numbers differ.
unfoldable pub rank : ℕ → ℕ
rank w =
    if ltb w 0x8000_0000_0000_0000
    then w + 0x8000_0000_0000_0000
    else if ltb w 0x1_0000_0000_0000_0000
    then w - 0x8000_0000_0000_0000
    else w

pub rank-injective : (a b : ℕ) → rank a ≡ rank b → a ≡ b
unfolding rank
rank-injective a b h = ground arith

-- The operators `<` and `<=` of `int64_t`.
abbrev pub lt64 : ℕ → ℕ → Bool
lt64 a b = ltb (rank a) (rank b)

abbrev pub le64 : ℕ → ℕ → Bool
le64 a b = leb (rank a) (rank b)

-- The bytes of a value, followed by `rest`.
abbrev pub put64 : ℕ → List ℕ → List ℕ
put64 w rest =
    (w % 256)
    ∷ (w / 0x100 % 256)
    ∷ (w / 0x1_0000 % 256)
    ∷ (w / 0x100_0000 % 256)
    ∷ (w / 0x1_0000_0000 % 256)
    ∷ (w / 0x100_0000_0000 % 256)
    ∷ (w / 0x1_0000_0000_0000 % 256)
    ∷ (w / 0x100_0000_0000_0000 % 256)
    ∷ rest

-- The value that eight bytes in memory stand for.
abbrev pub join64 : (b0 b1 b2 b3 b4 b5 b6 b7 : ℕ) → ℕ
join64 b0 b1 b2 b3 b4 b5 b6 b7 =
    b0
    + 0x100 * b1
    + 0x1_0000 * b2
    + 0x100_0000 * b3
    + 0x1_0000_0000 * b4
    + 0x100_0000_0000 * b5
    + 0x1_0000_0000_0000 * b6
    + 0x100_0000_0000_0000 * b7

-- A read of eight bytes from a stream, and the stream after it; `none` where it is shorter.
abbrev pub read64 : List ℕ → Option (ℕ × List ℕ)
read64 (b0 ∷ b1 ∷ b2 ∷ b3 ∷ b4 ∷ b5 ∷ b6 ∷ b7 ∷ rest) = some (join64 b0 b1 b2 b3 b4 b5 b6 b7, rest)
read64 _ = none

pub join64-put64 :
    (w : ℕ)
    → w < word
    → join64
        (w % 256)
        (w / 0x100 % 256)
        (w / 0x1_0000 % 256)
        (w / 0x100_0000 % 256)
        (w / 0x1_0000_0000 % 256)
        (w / 0x100_0000_0000 % 256)
        (w / 0x1_0000_0000_0000 % 256)
        (w / 0x100_0000_0000_0000 % 256)
      ≡ w
join64-put64 w h = omega arith

pub read64-put64 : (w : ℕ) (rest : List ℕ) → w < word → read64 (put64 w rest) ≡ some (w, rest)
read64-put64 w rest h = rw (join64-put64 w h)
