-- ===== src/Server/Framing.antt =====
-- Where the stream of bytes is cut by `recv` makes no difference to what the server does.
use mathlib.Core.List.{append_assoc, append-nil}
use cs.Prelude.{
  ℕ, zero, suc, ◌≡◌, ◌≤◌, ◌<◌, refl, sym, ap, ◌∙◌, List, [], ◌∷◌, ◌++◌, false, ◌&&◌, ◌==◌, Option,
  none, some, arith, Bool-cases, Option-cases, inl, inr, length, length-append, some-injective, All,
}
use cs.Text.{Text, joined}
use cs.Server.{
  delimiter, cut_command, Verdict, go_on, hang_up, crash, Served, handled, drain, served, serve,
}

-- More input behind a complete command does not change where it is cut.
pub cut_command-append :
    (b x command rest : Text)
    → cut_command b ≡ some (command, rest)
    → cut_command (b ++ x) ≡ some (command, rest ++ x)
unfolding cut_command
cut_command-append [] x command rest e = cc
cut_command-append (c ∷ []) x command rest e = cc
cut_command-append (c ∷ d ∷ b) x command rest e = elim (Bool-cases (c == 13 && d == 10)) [
  | inl here ↦
      let e' : some ([], b) ≡ some (command, rest) = rw here at e in
      rw here (longer (some-injective e'))
  | inr later ↦ elim (Option-cases (cut_command (d ∷ b))) [
    | inl n ↦
        let e' : ◌≡◌ {A = Option (Text × Text)} none (some (command, rest)) = rw (later, n) at e in
        cc
    | inr ((w, r), f) ↦
        let e' : some (c ∷ w, r) ≡ some (command, rest) = rw (later, f) at e in
        rw (later, cut_command-append (d ∷ b) x w r f) (longer (some-injective e'))
  ]
]
  where
    behind : Text × Text → Text × Text
    behind (w, r) = (w, r ++ x)

    longer : {o q : Text × Text} → o ≡ q → some (behind o) ≡ some (behind q)
    longer f = ap (λ o. some (behind o)) f

cut_command-length :
    (b command rest : Text) → cut_command b ≡ some (command, rest) → length rest < length b
unfolding cut_command
cut_command-length [] command rest e = cc
cut_command-length (c ∷ []) command rest e = cc
cut_command-length (c ∷ d ∷ b) command rest e = elim (Bool-cases (c == 13 && d == 10)) [
  | inl here ↦
      let e' : some ([], b) ≡ some (command, rest) = rw here at e in
      omega (arith, shorter (some-injective e'))
  | inr later ↦ elim (Option-cases (cut_command (d ∷ b))) [
    | inl n ↦
        let e' : ◌≡◌ {A = Option (Text × Text)} none (some (command, rest)) = rw (later, n) at e in
        cc
    | inr ((w, r), f) ↦
        let e' : some (c ∷ w, r) ≡ some (command, rest) = rw (later, f) at e in
        omega (arith, cut_command-length (d ∷ b) w r f, shorter (some-injective e'))
  ]
]
  where
    shorter : {o q : Text × Text} → o ≡ q → length o.1 ≡ length q.1
    shorter f = ap (λ (o : Text × Text). length o.1) f

-- What a client sends.
abbrev pub framed : List Text → Text
framed [] = []
framed (w ∷ ws) = w ++ (delimiter ++ framed ws)

pub cut_command-framed :
    (w rest : Text) → cut_command w ≡ none → cut_command (w ++ (delimiter ++ rest)) ≡ some (w, rest)
unfolding cut_command
cut_command-framed [] rest h = refl
cut_command-framed (c ∷ []) rest h =
    let other : (c == 13 && 13 == 10) ≡ false = ground arith in rw other refl
cut_command-framed (c ∷ d ∷ w) rest h = elim (Bool-cases (c == 13 && d == 10)) [
  | inl here ↦ let h' : ◌≡◌ {A = Option (Text × Text)} (some ([], w)) none = rw here at h in cc
  | inr later ↦ elim (Option-cases (cut_command (d ∷ w))) [
    | inl n ↦ rw (later, cut_command-framed (d ∷ w) rest n) refl
    | inr ((v, r), f) ↦
        let h' : ◌≡◌ {A = Option (Text × Text)} (some (c ∷ v, r)) none = rw (later, f) at h in cc
  ]
]

-- The verdict and the state, without the buffer.
abbrev pub outcome {ℓ} : {C : Type ℓ} → Verdict × (Text × C) → Verdict × C
outcome (v, (b, c)) = (v, c)

module _ {ℓ} {C : Type ℓ} (handle : Text → C → Verdict × C) where
  handled-cong :
      (rest : Text) (v : Verdict × C) (f g : Text → C → Served handle)
      → ((c : C) → f rest c ≡ g rest c)
      → handled handle rest v f ≡ handled handle rest v g
  handled-cong rest (go_on, c) f g h = h c
  handled-cong rest (hang_up, c) f g h = refl
  handled-cong rest (crash e, c) f g h = refl

  -- Any fuel that the buffer does not exceed gives the same.
  drain-fuel :
      (n m : ℕ) (b : Text) (c : C)
      → length b ≤ n
      → length b ≤ m
      → drain handle n b c ≡ drain handle m b c
  unfolding drain
  drain-fuel zero zero b c h g = refl
  drain-fuel zero (suc m) [] c h g = refl
  drain-fuel zero (suc m) (x ∷ b) c h g = absurd (omega (arith, h))
  drain-fuel (suc n) zero [] c h g = refl
  drain-fuel (suc n) zero (x ∷ b) c h g = absurd (omega (arith, g))
  drain-fuel (suc n) (suc m) b c h g = elim (Option-cases (cut_command b)) [
    | inl e ↦ rw e
    | inr ((w, r), e) ↦
        let short = cut_command-length b w r e in
        rw e (
          handled-cong r (handle w c) (drain handle n) (drain handle m)
            (λ c'. drain-fuel n m r c' (omega arith) (omega arith)))
  ]

  -- What the loop does when more input comes.
  abbrev resumed : Text → Served handle → Served handle
  resumed x (go_on, (b, c)) = drain handle (length (b ++ x)) (b ++ x) c
  resumed x (hang_up, (b, c)) = (hang_up, (b ++ x, c))
  resumed x (crash e, (b, c)) = (crash e, (b ++ x, c))

  handled-resumed :
      (rest x : Text) (v : Verdict × C) (f g : Text → C → Served handle)
      → ((c : C) → f (rest ++ x) c ≡ resumed x (g rest c))
      → handled handle (rest ++ x) v f ≡ resumed x (handled handle rest v g)
  handled-resumed rest x (go_on, c) f g h = h c
  handled-resumed rest x (hang_up, c) f g h = refl
  handled-resumed rest x (crash e, c) f g h = refl

  drain-append :
      (n m : ℕ) (b x : Text) (c : C)
      → length b ≤ n
      → length (b ++ x) ≤ m
      → drain handle m (b ++ x) c ≡ resumed x (drain handle n b c)
  unfolding drain
  drain-append zero m b x c h g = drain-fuel m (length (b ++ x)) (b ++ x) c g (omega arith)
  drain-append (suc n) zero [] [] c h g = refl
  drain-append (suc n) zero [] (y ∷ x) c h g = absurd (omega (arith, g))
  drain-append (suc n) zero (y ∷ b) x c h g = absurd (omega (arith, g))
  drain-append (suc n) (suc m) b x c h g = elim (Option-cases (cut_command b)) [
    | inl e ↦ rw e (drain-fuel (suc m) (length (b ++ x)) (b ++ x) c g (omega arith))
    | inr ((w, r), e) ↦
        let short = cut_command-length b w r e in
        let more = length-append b x in
        let more' = length-append r x in
        rw (e, cut_command-append b x w r e)
          (handled-resumed r x (handle w c) (drain handle m) (drain handle n)
            (λ c'. drain-append n m r x c' (omega arith) (omega arith)))
  ]

  -- What is left in the buffer holds no command.
  abbrev IsClean : Served handle → Type 0
  IsClean (go_on, (b, c)) = cut_command b ≡ none
  IsClean (hang_up, left) = Unit
  IsClean (crash e, left) = Unit

  handled-IsClean :
      (rest : Text) (v : Verdict × C) (f : Text → C → Served handle)
      → ((c : C) → IsClean (f rest c))
      → IsClean (handled handle rest v f)
  handled-IsClean rest (go_on, c) f h = h c
  handled-IsClean rest (hang_up, c) f h = tt
  handled-IsClean rest (crash e, c) f h = tt

  drain-IsClean : (n : ℕ) (b : Text) (c : C) → length b ≤ n → IsClean (drain handle n b c)
  unfolding drain cut_command
  drain-IsClean zero [] c h = refl
  drain-IsClean zero (x ∷ b) c h = absurd (omega (arith, h))
  drain-IsClean (suc n) b c h = elim (Option-cases (cut_command b)) [
    | inl e ↦ rw e e
    | inr ((w, r), e) ↦
        let short = cut_command-length b w r e in
        rw e (
          handled-IsClean r (handle w c) (drain handle n)
            (λ c'. drain-IsClean n r c' (omega arith)))
  ]

  drain_idle :
      (n : ℕ) (b : Text) (c : C) → cut_command b ≡ none → drain handle n b c ≡ (go_on, (b, c))
  unfolding drain
  drain_idle zero b c h = refl
  drain_idle (suc n) b c h = rw h refl

  served-resumed :
      (x : Text) (s : Served handle) (next : Text → C → Served handle)
      → IsClean s
      → ((b : Text) (c : C)
          → cut_command b ≡ none
          → outcome (next b c) ≡ outcome (drain handle (length (b ++ x)) (b ++ x) c))
      → outcome (served handle s next) ≡ outcome (resumed x s)
  served-resumed x (go_on, (b, c)) next g h = h b c g
  served-resumed x (hang_up, (b, c)) next g h = refl
  served-resumed x (crash e, (b, c)) next g h = refl

  serve-drain :
      (chunks : List Text) (b : Text) (c : C)
      → cut_command b ≡ none
      → outcome (serve handle chunks b c)
        ≡ outcome (drain handle (length (b ++ joined chunks)) (b ++ joined chunks) c)
  unfolding serve
  serve-drain [] b c h =
      ap outcome (sym (drain_idle (length b) b c h))
      ∙ ap (λ text. outcome (drain handle (length text) text c)) (sym (append-nil b))
  serve-drain (x ∷ xs) b c h =
      served-resumed (joined xs) (drain handle (length (b ++ x)) (b ++ x) c) (serve handle xs)
        (drain-IsClean (length (b ++ x)) (b ++ x) c (omega arith))
        (λ b' c' g. serve-drain xs b' c' g)
      ∙ ap outcome (
          sym (
            drain-append (length (b ++ x)) (length ((b ++ x) ++ joined xs)) (b ++ x) (joined xs) c
              (omega arith) (omega arith)))
      ∙ ap (λ text. outcome (drain handle (length text) text c)) (append_assoc b x (joined xs))

  -- However `recv` cuts the bytes of a client into pieces, the outcome and the state of the connection are
  -- those of all bytes at once.
  pub serve-joined :
      (chunks : List Text) (c : C)
      → outcome (serve handle chunks [] c) ≡ outcome (serve handle (joined chunks ∷ []) [] c)
  unfolding cut_command
  serve-joined chunks c =
      serve-drain chunks [] c refl
      ∙ ap (λ text. outcome (drain handle (length text) text c)) (sym (append-nil (joined chunks)))
      ∙ sym (serve-drain (joined chunks ∷ []) [] c refl)

  -- The commands one after the other, until one does not go on.
  abbrev pub next_of : Verdict × C → (C → Verdict × C) → Verdict × C
  next_of (go_on, c) next = next c
  next_of (hang_up, c) next = (hang_up, c)
  next_of (crash e, c) next = (crash e, c)

  unfoldable pub run_commands : List Text → C → Verdict × C
  run_commands [] c = (go_on, c)
  run_commands (command ∷ commands) c = next_of (handle command c) (run_commands commands)

  next_of-handled :
      (rest : Text) (v : Verdict × C) (f : Text → C → Served handle) (g : C → Verdict × C)
      → ((c : C) → outcome (f rest c) ≡ g c)
      → outcome (handled handle rest v f) ≡ next_of v g
  next_of-handled rest (go_on, c) f g h = h c
  next_of-handled rest (hang_up, c) f g h = refl
  next_of-handled rest (crash e, c) f g h = refl

  drain-framed :
      (n : ℕ) (commands : List Text) (c : C)
      → length (framed commands) ≤ n
      → All (λ w. cut_command w ≡ none) commands
      → outcome (drain handle n (framed commands) c) ≡ run_commands commands c
  unfolding drain run_commands
  drain-framed n [] c h all = ap outcome (drain_idle n [] c refl)
  drain-framed zero (w ∷ ws) c h all =
      absurd (omega (arith, h, length-append w (delimiter ++ framed ws)))
  drain-framed (suc n) (w ∷ ws) c h all =
      let size = length-append w (delimiter ++ framed ws) in
      rw (cut_command-framed w (framed ws) all.0) (
        next_of-handled (framed ws) (handle w c) (drain handle n) (run_commands ws)
          (λ c'. drain-framed n ws c' (omega arith) all.1))

  -- A client that sends commands, each followed by the delimiter and none with a delimiter inside, has
  -- exactly these commands run, in this order and until one ends the connection, however `recv` cuts the
  -- bytes into pieces.
  pub serve-framed :
      (chunks commands : List Text) (c : C)
      → joined chunks ≡ framed commands
      → All (λ w. cut_command w ≡ none) commands
      → outcome (serve handle chunks [] c) ≡ run_commands commands c
  unfolding cut_command
  serve-framed chunks commands c e all =
      serve-drain chunks [] c refl
      ∙ ap (λ text. outcome (drain handle (length text) text c)) e
      ∙ drain-framed (length (framed commands)) commands c (omega arith) all
