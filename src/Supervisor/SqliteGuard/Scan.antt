-- ===== src/Supervisor/SqliteGuard/Scan.antt =====
-- services/supervisor/src/sqlite-guard.ts, `statements`: its loop.
use sproutboat.Base.{
  ℕ, zero, suc, ◌≤◌, ◌≡◌, refl, ap, ◌∙◌, true, [], ◌∷◌, ◌==◌, if◌then◌else◌, length, arith,
}
use sproutboat.Base.Codes.{Text}
use sproutboat.Supervisor.SqliteGuard.{
  is_space, skip_line, skip_block, quoted, take_word, tail_of, lex, push, scan, statements,
}

length-skip_line : (s : Text) → length (skip_line s) ≤ length s
unfolding skip_line
length-skip_line [] = omega arith
length-skip_line (c ∷ s) = ground (arith, length-skip_line s)

length-skip_block : (s : Text) → length (skip_block s) ≤ length s
unfolding skip_block
length-skip_block [] = omega arith
length-skip_block (c ∷ []) = omega arith
length-skip_block (c ∷ d ∷ s) = ground (arith, length-skip_block (d ∷ s))

length-quoted : (q : ℕ) (s : Text) → length (quoted q s).1 ≤ length s
unfolding quoted
length-quoted q [] = omega arith
length-quoted q (c ∷ []) = ground arith
length-quoted q (c ∷ d ∷ s) = ground (arith, length-quoted q s, length-quoted q (d ∷ s))

length-take_word : (s : Text) → length (take_word s).1 ≤ length s
unfolding take_word
length-take_word [] = omega arith
length-take_word (c ∷ s) = ground (arith, length-take_word s)

length-tail_of : (s : Text) → length (tail_of s) ≤ length s
unfolding tail_of
length-tail_of [] = omega arith
length-tail_of (c ∷ s) = omega arith

module _ (lower : Text → Text) where
  length-lex : (c : ℕ) (s : Text) → length (lex lower c s).1 ≤ length s
  unfolding lex
  length-lex c s = ground (
    arith,
    length-skip_line s,
    length-skip_block (tail_of s),
    length-tail_of s,
    length-quoted (if c == b'[' then b']' else c) s,
    length-take_word s,
  )

  -- Any fuel that is not below the length gives the same statements.
  scan_enough : (f g : ℕ) (s : Text) → length s ≤ f → length s ≤ g → scan lower f s ≡ scan lower g s
  unfolding scan
  scan_enough zero zero s h k = refl
  scan_enough zero (suc g) [] h k = refl
  scan_enough zero (suc g) (c ∷ s) h k = absurd (omega arith)
  scan_enough (suc f) zero [] h k = refl
  scan_enough (suc f) zero (c ∷ s) h k = absurd (omega arith)
  scan_enough (suc f) (suc g) [] h k = refl
  scan_enough (suc f) (suc g) (c ∷ s) h k = ap (push (lex lower c s).0) (
      scan_enough f g (lex lower c s).1 (omega (arith, length-lex c s))
        (omega (arith, length-lex c s)))

  -- The scanner terminates with its text read to the end: one round of the loop at the front, then
  -- the statements of the rest.
  pub statements_step :
      (c : ℕ) (s : Text)
      → statements lower (c ∷ s) ≡ push (lex lower c s).0 (statements lower (lex lower c s).1)
  unfolding statements scan
  statements_step c s = ap (push (lex lower c s).0) (
      scan_enough (length s) (length (lex lower c s).1) (lex lower c s).1 (length-lex c s)
        (omega arith))

  pub statements-space :
      (c : ℕ) (s : Text) → is_space c ≡ true → statements lower (c ∷ s) ≡ statements lower s
  unfolding lex push
  statements-space c s h = statements_step c s ∙ rw (h, lex)
