-- ===== src/Bloom/Bits.antt =====
-- The bits of a filter in the bytes of its file.
use Prim.Native.Nat.{bit_and, bit_or}
use cs.Prelude.{
  ℕ, zero, suc, ◌+◌, ◌*◌, ◌/◌, ◌%◌, ◌^◌, ◌<◌, ◌≤◌, ◌≡◌, refl, ap, ◌∙◌, List, [], ◌∷◌, Bool, true,
  false, not, ltb→lt, ◌==◌, ◌&&◌, ◌||◌, if◌then◌else◌, ltb, length, get_or, set, arith, Bool-cases,
  inl, inr, length-set,
}
use cs.Bloom.{pack_loop, unpack_loop}

-- Whether a bit of a byte is set, as `load` tests it.
abbrev pub has_bit : ℕ → ℕ → Bool
has_bit byte k = not (bit_and byte (2 ^ k) == 0)

same : Bool → Bool → Bool
same true b = b
same false b = not b

all_below : ℕ → (ℕ → Bool) → Bool
all_below zero p = true
all_below (suc n) p = all_below n p && p n

all_below-lt : (n : ℕ) (p : ℕ → Bool) (i : ℕ) → all_below n p ≡ true → i < n → p i ≡ true
unfolding all_below
all_below-lt zero p i h g = elim g [ ]
all_below-lt (suc n) p i h g = elim (Bool-cases (ltb i n)) [
  | inl below ↦ all_below-lt n p i (ground arith) (ground arith)
  | inr above ↦
      let last : i ≡ n = ground arith in let hit : p n ≡ true = ground arith in ap p last ∙ hit
]

-- A test of all bytes that have bits below `k` only.
every : (ℕ → ℕ → Bool) → Bool
every p = all_below 8 (λ k. all_below (2 ^ k) (p k))

every-lt : (p : ℕ → ℕ → Bool) (k byte : ℕ) → every p ≡ true → k < 8 → byte < 2 ^ k → p k byte ≡ true
unfolding every
every-lt p k byte e h g =
    all_below-lt (2 ^ k) (p k) byte (all_below-lt 8 (λ k. all_below (2 ^ k) (p k)) k e h) g

stays_small : ℕ → ℕ → Bool
stays_small k byte = ltb (bit_or byte (2 ^ k)) (2 ^ (k + 1))

is_smaller : ℕ → ℕ → Bool
is_smaller k byte = ltb byte (2 ^ (k + 1))

is_unset : ℕ → ℕ → Bool
is_unset k byte = same (has_bit byte k) false

sets : ℕ → ℕ → Bool
sets k byte = all_below 8 (λ j. same (has_bit (bit_or byte (2 ^ k)) j) (j == k || has_bit byte j))

checked :
    (every stays_small ≡ true)
    × (every is_smaller ≡ true)
    × (every is_unset ≡ true)
    × (every sets ≡ true)
unfolding every all_below stays_small is_smaller is_unset sets same
checked = (refl, refl, refl, refl)

same-eq : (a b : Bool) → same a b ≡ true → a ≡ b
unfolding same
same-eq true true h = refl
same-eq true false h = cc
same-eq false true h = cc
same-eq false false h = refl

-- A byte that has bits below `k` only.
record Sets (k byte : ℕ) : Type 0 where
  small : bit_or byte (2 ^ k) < 2 ^ (k + 1)
  smaller : byte < 2 ^ (k + 1)
  unset : has_bit byte k ≡ false
  set_to : (j : ℕ) → j < 8 → has_bit (bit_or byte (2 ^ k)) j ≡ (j == k || has_bit byte j)

byte-Sets : (k byte : ℕ) → k < 8 → byte < 2 ^ k → Sets k byte
unfolding stays_small is_smaller is_unset sets
byte-Sets k byte h g = record {
  small = ltb→lt _ _ (every-lt stays_small k byte checked.0 h g);
  smaller = ltb→lt _ _ (every-lt is_smaller k byte checked.1 h g);
  unset = same-eq _ _ (every-lt is_unset k byte checked.2 h g);
  set_to = λ j small. same-eq _ _ (
      all_below-lt 8 (λ j. same (has_bit (bit_or byte (2 ^ k)) j) (j == k || has_bit byte j)) j
        (every-lt sets k byte checked.3 h g) small);
}

get_or-set : (xs : List ℕ) (i v : ℕ) → i < length xs → get_or (set xs i v) i 0 ≡ v
get_or-set [] i v h = elim h [ ]
get_or-set (x ∷ xs) zero v h = refl
get_or-set (x ∷ xs) (suc i) v h = get_or-set xs i v (omega arith)

get_or-set_other :
    (xs : List ℕ) (i q v : ℕ) → (q == i) ≡ false → get_or (set xs i v) q 0 ≡ get_or xs q 0
get_or-set_other [] i q v h = refl
get_or-set_other (x ∷ xs) zero zero v h = cc
get_or-set_other (x ∷ xs) zero (suc q) v h = refl
get_or-set_other (x ∷ xs) (suc i) zero v h = refl
get_or-set_other (x ∷ xs) (suc i) (suc q) v h = get_or-set_other xs i q v (ground arith)

-- The bit with a number in a buffer.
abbrev bit_at : ℕ → List ℕ → Bool
bit_at j buffer = has_bit (get_or buffer (j / 8) 0) (j % 8)

-- No bit from `i` on is set.
pub record IsFresh (i : ℕ) (buffer : List ℕ) : Type 0 where
  pub here : get_or buffer (i / 8) 0 < 2 ^ (i % 8)
  pub behind : (q : ℕ) → i / 8 < q → get_or buffer q 0 ≡ 0

abbrev put_bit : ℕ → Bool → List ℕ → List ℕ
put_bit i bit buffer =
    if bit then set buffer (i / 8) (bit_or (get_or buffer (i / 8) 0) (2 ^ (i % 8))) else buffer

put_bit-bit_at :
    (i : ℕ) (bit : Bool) (buffer : List ℕ) (j : ℕ)
    → i / 8 < length buffer
    → IsFresh i buffer
    → bit_at j (put_bit i bit buffer) ≡ (if j == i then bit else bit_at j buffer)
put_bit-bit_at i true buffer j h fresh =
    let bits = byte-Sets (i % 8) (get_or buffer (i / 8) 0) (omega arith) fresh.here in
    elim (Bool-cases (j / 8 == i / 8)) [
      | inr other ↦
          let apart : (j == i) ≡ false = ground arith in
          rw
            (
              get_or-set_other buffer (i / 8) (j / 8)
                  (bit_or (get_or buffer (i / 8) 0) (2 ^ (i % 8))) other,
              apart,
            )
            refl
      | inl same_byte ↦
          let e : j / 8 ≡ i / 8 = ground arith in
          rw (e, get_or-set buffer (i / 8) (bit_or (get_or buffer (i / 8) 0) (2 ^ (i % 8))) h)
            (bits.set_to (j % 8) (omega arith) ∙ elim (Bool-cases (j == i)) [
              | inl this ↦
                  let this' : (j % 8 == i % 8) ≡ true = ground arith in rw (this', this) refl
              | inr else_where ↦
                  let there : (j % 8 == i % 8) ≡ false = ground arith in rw (there, else_where) refl
            ])
    ]
put_bit-bit_at i false buffer j h fresh = elim (Bool-cases (j == i)) [
  | inr other ↦ rw other refl
  | inl here ↦
      let e : j ≡ i = ground arith in
      rw here (
        ap (λ k. bit_at k buffer) e
        ∙ (byte-Sets (i % 8) (get_or buffer (i / 8) 0) (omega arith) fresh.here).unset)
]

put_bit-here :
    (i : ℕ) (bit : Bool) (buffer : List ℕ)
    → i / 8 < length buffer
    → IsFresh i buffer
    → get_or (put_bit i bit buffer) (i / 8) 0 < 2 ^ (i % 8 + 1)
put_bit-here i true buffer h fresh =
    rw (get_or-set buffer (i / 8) (bit_or (get_or buffer (i / 8) 0) (2 ^ (i % 8))) h)
      (byte-Sets (i % 8) (get_or buffer (i / 8) 0) (omega arith) fresh.here).small
put_bit-here i false buffer h fresh =
    (byte-Sets (i % 8) (get_or buffer (i / 8) 0) (omega arith) fresh.here).smaller

put_bit-behind :
    (i : ℕ) (bit : Bool) (buffer : List ℕ) (q : ℕ)
    → i / 8 < q
    → IsFresh i buffer
    → get_or (put_bit i bit buffer) q 0 ≡ 0
put_bit-behind i true buffer q h fresh =
    get_or-set_other buffer (i / 8) q _ (ground arith) ∙ fresh.behind q h
put_bit-behind i false buffer q h fresh = fresh.behind q h

put_bit-IsFresh :
    (i : ℕ) (bit : Bool) (buffer : List ℕ)
    → i / 8 < length buffer
    → IsFresh i buffer
    → IsFresh (i + 1) (put_bit i bit buffer)
put_bit-IsFresh i bit buffer h fresh = elim (Bool-cases (i % 8 == 7)) [
  | inl last ↦
      let e : (i + 1) / 8 ≡ i / 8 + 1 = ground arith in
      let f : (i + 1) % 8 ≡ 0 = ground arith in
      record {
        here = rw (e, f, put_bit-behind i bit buffer (i / 8 + 1) (omega arith) fresh) (omega arith);
        behind = λ q g. put_bit-behind i bit buffer q (omega arith) fresh;
      }
  | inr inner ↦
      let e : (i + 1) / 8 ≡ i / 8 = ground arith in
      let f : (i + 1) % 8 ≡ i % 8 + 1 = ground arith in
      record {
        here = rw (e, f) (put_bit-here i bit buffer h fresh);
        behind = λ q g. put_bit-behind i bit buffer q (omega arith) fresh;
      }
]

put_bit-length :
    (i : ℕ) (bit : Bool) (buffer : List ℕ) → length (put_bit i bit buffer) ≡ length buffer
put_bit-length i true buffer = length-set buffer (i / 8) _
put_bit-length i false buffer = refl

pack_loop-bit_at :
    (i : ℕ) (bits : List Bool) (buffer : List ℕ) (j : ℕ)
    → j < i
    → i + length bits ≤ 8 * length buffer
    → IsFresh i buffer
    → bit_at j (pack_loop i bits buffer) ≡ bit_at j buffer
unfolding pack_loop
pack_loop-bit_at i [] buffer j h g fresh = refl
pack_loop-bit_at i (bit ∷ bits) buffer j h g fresh =
    let size = put_bit-length i bit buffer in
    let other : (j == i) ≡ false = ground arith in
    pack_loop-bit_at (i + 1) bits (put_bit i bit buffer) j (omega arith) (omega arith)
      (put_bit-IsFresh i bit buffer (omega arith) fresh)
    ∙ put_bit-bit_at i bit buffer j (omega arith) fresh
    ∙ rw other refl

-- What was packed from bit `i` on is unpacked.
pub unpack_loop-pack_loop :
    (i : ℕ) (bits : List Bool) (buffer : List ℕ)
    → i + length bits ≤ 8 * length buffer
    → IsFresh i buffer
    → unpack_loop (length bits) i (pack_loop i bits buffer) ≡ bits
unfolding unpack_loop pack_loop
unpack_loop-pack_loop i [] buffer g fresh = refl
unpack_loop-pack_loop i (bit ∷ bits) buffer g fresh =
    let size = put_bit-length i bit buffer in
    let next = put_bit-IsFresh i bit buffer (omega arith) fresh in
    let self : (i == i) ≡ true = ground arith in
    let head : bit_at i (pack_loop (i + 1) bits (put_bit i bit buffer)) ≡ bit =
      pack_loop-bit_at (i + 1) bits (put_bit i bit buffer) i (omega arith) (omega arith) next
      ∙ put_bit-bit_at i bit buffer i (omega arith) fresh
      ∙ rw self refl in
    ap (λ b. b ∷ unpack_loop (length bits) (i + 1) (pack_loop (i + 1) bits (put_bit i bit buffer)))
      head
    ∙ ap (λ bs. bit ∷ bs)
        (unpack_loop-pack_loop (i + 1) bits (put_bit i bit buffer) (omega arith) next)

pub pack_loop-length :
    (i : ℕ) (bits : List Bool) (buffer : List ℕ) → length (pack_loop i bits buffer) ≡ length buffer
unfolding pack_loop
pack_loop-length i [] buffer = refl
pack_loop-length i (bit ∷ bits) buffer =
    pack_loop-length (i + 1) bits (put_bit i bit buffer) ∙ put_bit-length i bit buffer
