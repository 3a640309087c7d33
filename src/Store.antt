-- ===== src/Store.antt =====
-- What the runs share: the files, and the I/O counters of the tree that `LSMAdapter` passes on to.
-- A call returns how it ended and the store after it, also where it throws.
pub mod Paths
use Prim.Native.Char.{code}
use Prim.Native.String
use Prim.Native.String.{String}
use cs.Prelude.{
  ℕ, zero, suc, ◌+◌, ◌/◌, ◌%◌, ◌<◌, List, [], ◌∷◌, ◌++◌, Bool, true, false, ◌&&◌, Option, none,
  some, ltb, ◌==◌, if◌then◌else◌,
}
use cs.Result.{Result, ok, err, Error, cannot_open, or_fail}

-- A path is its characters.
abbrev pub FileName : Type 0
FileName = List ℕ

unfoldable pub same_name : FileName → FileName → Bool
same_name [] [] = true
same_name [] (d ∷ q) = false
same_name (c ∷ p) [] = false
same_name (c ∷ p) (d ∷ q) = c == d && same_name p q

abbrev pub Disk : Type 0
Disk = FileName → Option (List ℕ)

pub record Store : Type 0 where
  pub disk : Disk
  -- The names under which the file system lets a file be created.
  pub writable : FileName → Bool
  pub read_io_count : ℕ
  pub write_io_count : ℕ

abbrev pub Action {ℓ} : Type ℓ → Type ℓ
Action A = Store → Result A × Store

abbrev pub continue {ℓ κ} :
    {A : Type ℓ} {B : Type κ} → Result A × Store → (A → Action B) → Result B × Store
continue (ok a, s) f = f a s
continue (err e, s) f = (err e, s)

infixl 5 ◌>>=◌ ◌>>◌
abbrev pub ◌>>=◌ {ℓ κ} : {A : Type ℓ} {B : Type κ} → Action A → (A → Action B) → Action B
◌>>=◌ m f s = continue (m s) f

abbrev pub ◌>>◌ {ℓ} : {B : Type ℓ} → Action (Unit {0}) → Action B → Action B
before >> after = before >>= λ _. after

abbrev pub return {ℓ} : {A : Type ℓ} → A → Action A
return a s = (ok a, s)

abbrev pub throw {ℓ} : {A : Type ℓ} → Error → Action A
throw e s = (err e, s)

abbrev pub lift {ℓ} : {A : Type ℓ} → Result A → Action A
lift r s = (r, s)

-- Opening a file for reading.
abbrev pub open_file : FileName → Action (List ℕ)
open_file name s = (or_fail (s.disk name) cannot_open, s)

abbrev pub updated : Disk → FileName → Option (List ℕ) → Disk
updated d name content = λ n. if same_name name n then content else d n

-- Creating a file and writing all of it.
abbrev pub write_file : FileName → List ℕ → Action (Unit {0})
write_file name content s =
    if s.writable name
    then (ok tt, record s { disk = updated s.disk name (some content) })
    else (err cannot_open, s)

abbrev pub remove_file : FileName → Action (Unit {0})
remove_file name s = (ok tt, record s { disk = updated s.disk name none })

-- `LSMTree::increment_read_io` and `increment_write_io`, to which the adapter passes these calls of a run on
-- once it has its tree. What they come to before that is in Tree/Startup.
abbrev pub increment_read_io : Action (Unit {0})
increment_read_io s = (ok tt, record s { read_io_count = s.read_io_count + 1 })

abbrev pub increment_write_io : Action (Unit {0})
increment_write_io s = (ok tt, record s { write_io_count = s.write_io_count + 1 })

-- The characters of a text literal.
abbrev pub codes : String → List ℕ
codes String.[] = []
codes (String.◌∷◌ c s) = code c ∷ codes s

-- `std::to_string`: the decimal digits, the last digit last. A number has fewer digits than its value
-- plus one.
unfoldable pub digits_loop : ℕ → ℕ → List ℕ → List ℕ
digits_loop zero n rest = rest
digits_loop (suc fuel) n rest =
    let more = digits_loop fuel (n / 10) ((b'0' + n % 10) ∷ rest) in
    if ltb n 10 then (b'0' + n) ∷ rest else more

unfoldable pub to_string : ℕ → List ℕ
unfolding digits_loop
to_string n = digits_loop (n + 1) n []
