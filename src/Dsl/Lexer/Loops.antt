-- ===== src/Dsl/Lexer/Loops.antt =====
-- Each loop of the lexer of src/graphdsl.cpp reads a character in each round, so the rounds that it
-- is given suffice, and it never makes the input longer.
use network_algo.Prelude.{
  ℕ, zero, suc, ◌+◌, ◌≤◌, ◌<◌, ◌≡◌, ◌≢◌, refl, ◌⊎◌, inl, inr, Text, Bool, true, false, not, ◌&&◌,
  [], ◌∷◌, arith, ◌==◌, if◌then◌else◌, length,
}
use network_algo.Dsl.Outcome.{Ensures, returned, thrown, Ensures-if}
use network_algo.Dsl.Stream.{Stream, chareof, live, get, unget}
use network_algo.Dsl.Lexer.{
  is_space, is_digit, is_alnum, eat_white_loop, read_signs, read_digits, read_identifier,
  read_string, state_error,
}

-- What is left of the input is not longer than `n`.
abbrev pub Within : {A : Type 0} → ℕ → A → Stream → Type 0
Within n a s = length s.rest ≤ n

get-shrinks : (s : Stream) → (get s).0 ≢ chareof → suc (length (get s).1.rest) ≡ length s.rest
unfolding get
get-shrinks s h = ground arith

unget-get-le : (s : Stream) → length (unget (get s).1).rest ≤ length s.rest
unfolding get unget
unget-get-le s = ground arith

pub get-le : (s : Stream) → length (get s).1.rest ≤ length s.rest
unfolding get
get-le s = ground arith

-- A stream from which a character can be read.
pub get_cases :
    (b r : Text) (e x : Bool)
    → let s : Stream = record { before = b; rest = r; eof = e; failed = x } in
      ((get s).0 ≡ chareof)
      ⊎ ((c : ℕ) × (cs : Text) × (r ≡ c ∷ cs) × (get s ≡ (c, live (c ∷ b) cs)))
unfolding get
get_cases b r true x = inl refl
get_cases b r false true = inl refl
get_cases b [] false false = inl refl
get_cases b (c ∷ cs) false false = inr (c, cs, refl, refl)

-- A character that a loop goes on after is not the end of the input.
space-ne-chareof : (c : ℕ) → not (is_space c) ≡ false → c ≢ chareof
unfolding is_space
space-ne-chareof c h e = ground arith

sign-ne-chareof : (c : ℕ) → (not (c == b'-') && not (c == b'+')) ≡ false → c ≢ chareof
sign-ne-chareof c h e = ground arith

digit-ne-chareof : (c : ℕ) → (not (is_digit c) && not (c == b'.')) ≡ false → c ≢ chareof
unfolding is_digit
digit-ne-chareof c h e = ground arith

alnum-ne-chareof : (c : ℕ) → (not (is_alnum c) && not (c == b'_')) ≡ false → c ≢ chareof
unfolding is_alnum
alnum-ne-chareof c h e = ground arith

pub eat_white_loop-Ensures :
    (f n : ℕ) (s : Stream)
    → length s.rest < f
    → length s.rest ≤ n
    → Ensures (Within n) (eat_white_loop f s)
unfolding eat_white_loop
eat_white_loop-Ensures zero n s h k = absurd (omega arith)
eat_white_loop-Ensures (suc f) n s h k =
    Ensures-if s.eof (λ _. returned k)
      λ _.
        Ensures-if (not (is_space (get s).0))
          (λ _. returned {s = unget (get s).1} (omega (arith, unget-get-le s)))
          λ e.
            let shorter = get-shrinks s (space-ne-chareof (get s).0 e) in
            eat_white_loop-Ensures f n (get s).1 (omega arith) (omega arith)

pub read_signs-Ensures :
    (f n : ℕ) (result : Text) (s : Stream)
    → length s.rest < f
    → length s.rest ≤ n
    → Ensures (Within n) (read_signs f result s)
unfolding read_signs
read_signs-Ensures zero n result s h k = absurd (omega arith)
read_signs-Ensures (suc f) n result s h k =
    Ensures-if ((get s).0 == 0) (λ _. returned (omega (arith, get-le s)))
      λ _.
        Ensures-if (not ((get s).0 == b'-') && not ((get s).0 == b'+'))
          (λ _. returned (omega (arith, unget-get-le s)))
          λ e.
            let shorter = get-shrinks s (sign-ne-chareof (get s).0 e) in
            read_signs-Ensures f n _ (get s).1 (omega arith) (omega arith)

pub read_digits-Ensures :
    (f n : ℕ) (has_dot : Bool) (result : Text) (s : Stream)
    → length s.rest < f
    → length s.rest ≤ n
    → Ensures (Within n) (read_digits f has_dot result s)
unfolding read_digits
read_digits-Ensures zero n has_dot result s h k = absurd (omega arith)
read_digits-Ensures (suc f) n has_dot result s h k =
    Ensures-if ((get s).0 == 0) (λ _. returned (omega (arith, get-le s)))
      λ _.
        Ensures-if (not (is_digit (get s).0) && not ((get s).0 == b'.'))
          (λ _. returned (omega (arith, unget-get-le s)))
          λ e.
            Ensures-if ((get s).0 == b'.' && has_dot) (λ _. thrown)
              λ _.
                let shorter = get-shrinks s (digit-ne-chareof (get s).0 e) in
                read_digits-Ensures f n _ _ (get s).1 (omega arith) (omega arith)

pub read_identifier-Ensures :
    (f n : ℕ) (result : Text) (s : Stream)
    → length s.rest < f
    → length s.rest ≤ n
    → Ensures (Within n) (read_identifier f result s)
unfolding read_identifier
read_identifier-Ensures zero n result s h k = absurd (omega arith)
read_identifier-Ensures (suc f) n result s h k =
    Ensures-if ((get s).0 == 0) (λ _. returned (omega (arith, get-le s)))
      λ _.
        Ensures-if (not (is_alnum (get s).0) && not ((get s).0 == b'_'))
          (λ _. returned (omega (arith, unget-get-le s)))
          λ e.
            let shorter = get-shrinks s (alnum-ne-chareof (get s).0 e) in
            read_identifier-Ensures f n _ (get s).1 (omega arith) (omega arith)

-- The rounds that a string literal may still take; a stream at its end takes none.
abbrev left : Stream → ℕ
left s = if s.eof then 0 else length s.rest + 1

left-get : (s : Stream) → s.eof ≡ false → s.failed ≡ s.eof → suc (left (get s).1) ≤ left s
unfolding get
left-get s e x = ground arith

left-get-le : (s : Stream) → left (get s).1 ≤ left s
unfolding get
left-get-le s = ground arith

failed-get : (s : Stream) → s.failed ≡ s.eof → (get s).1.failed ≡ (get s).1.eof
unfolding get
failed-get s h = ground arith

pub read_string-Ensures :
    (f n : ℕ) (tmp : Text) (s : Stream)
    → left s < f
    → length s.rest ≤ n
    → s.failed ≡ s.eof
    → Ensures (Within n) (read_string f tmp s)
unfolding read_string state_error
read_string-Ensures zero n tmp s h k x = absurd (omega arith)
read_string-Ensures (suc f) n tmp s h k x =
    Ensures-if s.eof (λ _. returned k)
      λ e.
        let s' = (get s).1 in
        let x' = failed-get s x in
        let fewer = left-get s e x in
        Ensures-if ((get s).0 == b'\\')
          (λ _.
            Ensures-if (not s'.eof)
              (λ _.
                read_string-Ensures f n _ (get s').1 (omega (arith, left-get-le s'))
                  (omega (arith, get-le s, get-le s')) (failed-get s' x'))
              (λ _. thrown))
          λ _.
            Ensures-if ((get s).0 == b'"') (λ _. returned {s = s'} (omega (arith, get-le s)))
              (λ _. read_string-Ensures f n _ s' (omega arith) (omega (arith, get-le s)) x')
