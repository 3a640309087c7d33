-- ===== src/Adapter/Commands.antt =====
-- A command of printed numbers is read back.
use mathlib.Core.List.{append_assoc, append-nil}
use cs.Prelude.{
  ℕ, ◌-◌, ◌<◌, ◌≡◌, refl, sym, ap, ◌∙◌, List, [], ◌∷◌, ◌++◌, false, ltb, arith, All, is_empty,
  Bool-cases, inl, inr,
}
use cs.Int64.{word, tombstone}
use cs.Result.{ok}
use cs.Store.{to_string}
use cs.Result.{Error}
use cs.Pair.{KeyValuePair}
use cs.Double.{Doubles}
use cs.Store.{codes}
use cs.Tree.{LsmTree, ◌>>◌, return}
use cs.Tree.Access.{put}
use cs.SkipList.{get_all_sorted}
use cs.Tree.Holds.{TreeHolds, newest}
use cs.Tree.Get.{get-newest}
use cs.Adapter.{answered, printed, handle_put, handle_get, finish, split, tokenize}
use cs.Text.Numerals.{IsNumeral, to_string-IsNumeral, digits_of-to_string, stoll-IsNumeral}
use cs.Text.{Text, is_space, positive, stoll, signed_text}

-- A printed 64-bit value is read back, a negative one too.
pub stoll-signed_text : (w : ℕ) → w < word → stoll (signed_text w) ≡ ok w
unfolding stoll signed_text
stoll-signed_text w h = elim (Bool-cases (ltb w tombstone)) [
  | inl below ↦ rw below (
      stoll-IsNumeral (to_string w) (to_string-IsNumeral w)
      ∙ ap positive (digits_of-to_string w)
      ∙ ground arith)
  | inr above ↦ rw (above, digits_of-to_string (word - w)) (ground arith)
]

-- A text without spaces that is not empty.
abbrev pub IsToken : Text → Type 0
IsToken cs = (is_empty cs ≡ false) × All (λ b. is_space b ≡ false) cs

pub signed_text-IsToken : (w : ℕ) → IsToken (signed_text w)
unfolding signed_text
signed_text-IsToken w = elim (Bool-cases (ltb w tombstone)) [
  | inl below ↦ rw below (of_numeral (to_string w) (to_string-IsNumeral w))
  | inr above ↦ rw above (refl, (refl, (of_numeral _ (to_string-IsNumeral (word - w))).1))
]
  where
    of_numeral : (cs : Text) → IsNumeral cs → IsToken cs
    of_numeral [] h = absurd h
    of_numeral (c ∷ cs) h = (refl, h.1)

split-append :
    (token cs rest : Text)
    → All (λ b. is_space b ≡ false) cs
    → split token (cs ++ rest) ≡ split (token ++ cs) rest
unfolding split
split-append token [] rest h = ap (λ ts. split ts rest) (sym (append-nil token))
split-append token (c ∷ cs) rest h = rw h.0 (
    split-append (token ++ c ∷ []) cs rest h.1
    ∙ ap (λ ts. split ts rest) (append_assoc token (c ∷ []) cs))

finish-IsToken : (cs : Text) → IsToken cs → finish cs ≡ cs ∷ []
finish-IsToken [] h = cc
finish-IsToken (c ∷ cs) h = refl

split-IsToken : (cs : Text) → IsToken cs → split [] cs ≡ cs ∷ []
unfolding split
split-IsToken cs h =
    ap (split []) (sym (append-nil cs)) ∙ split-append [] cs [] h.1 ∙ finish-IsToken cs h

-- The command `<letter> <a> <b>` has these three tokens.
pub tokenize-signed_text :
    (letter a b : ℕ)
    → is_space letter ≡ false
    → tokenize (letter ∷ 32 ∷ (signed_text a ++ 32 ∷ signed_text b))
      ≡ (letter ∷ []) ∷ signed_text a ∷ signed_text b ∷ []
unfolding tokenize split
tokenize-signed_text letter a b h = rw h (
    ap (λ ts. (letter ∷ []) ∷ ts)
      (split-append [] (signed_text a) (32 ∷ signed_text b) (signed_text-IsToken a).1
        ∙ rw
            (
              finish-IsToken (signed_text a) (signed_text-IsToken a),
              split-IsToken (signed_text b) (signed_text-IsToken b),
            )
            refl))

module _ (what : Error → Text) (t : LsmTree) where
  -- The printed command `p <key> <value>` puts exactly this key and this value: it is answered as a
  -- `put` of them that is followed by the message of success.
  pub handle_put-tokenize :
      (d : Doubles) (sort : List KeyValuePair → List KeyValuePair) (draw key value : ℕ)
      → key < word
      → value < word
      → handle_put what d sort draw
          (tokenize (b'p' ∷ 32 ∷ (signed_text key ++ 32 ∷ signed_text value)))
          t
        ≡ answered what (
            (put d sort key value draw
                >> return (
                    codes "Put successful: "
                    ++ (signed_text key ++ (codes " -> " ++ signed_text value))))
              t)
  unfolding handle_put
  handle_put-tokenize d sort draw key value h g =
      rw
        (
          tokenize-signed_text b'p' key value refl,
          stoll-signed_text key h,
          stoll-signed_text value g,
        )
        refl

  -- On a tree that holds `psss`, the printed command `g <key>` is answered with the newest value of the
  -- key in decimal, or with nothing where there is none; the tree holds what it held.
  pub handle_get-newest :
      (psss : List (List (List KeyValuePair))) (key : ℕ)
      → key < word
      → TreeHolds t psss
      → (t' : LsmTree) × (handle_get what (tokenize (b'g' ∷ 32 ∷ signed_text key)) t
          ≡ (ok (printed (newest key (get_all_sorted t.buffer) psss)), t'))
        × TreeHolds t' psss
  unfolding handle_get tokenize split
  handle_get-newest psss key h held =
      let (t', e, held', b, l, c) = get-newest t psss key held in
      (
        t',
        rw (split-IsToken (signed_text key) (signed_text-IsToken key), stoll-signed_text key h, e)
            refl,
        held',
      )
