-- ===== src/Supervisor/SqliteGuard/Reading.antt =====
-- services/supervisor/src/sqlite-guard.ts, `statements`: comments, words and quoted names.
use sproutboat.Base.{
  ℕ, ◌≡◌, ◌≢◌, refl, ap, ◌∙◌, true, false, [], ◌∷◌, ◌++◌, ◌==◌, ==_iff, if◌then◌else◌, All, arith,
  Bool-cases, inl, inr, ne_of_beq, nat_eq,
}
use sproutboat.Base.Codes.{Text}
use sproutboat.Supervisor.SqliteGuard.{
  token, is_space, is_word_char, skip_line, skip_block, quoted, take_word, word_token, quoted_token,
  lex, push, statements,
}
use sproutboat.Supervisor.SqliteGuard.Scan.{statements_step}

-- No line break, and no end of a comment: the bodies of the two kinds of comment.
abbrev pub OneLine : Text → Type 0
OneLine = All (λ c. c ≢ 10)

abbrev pub NoEnd : Text → Type 0
NoEnd [] = Unit
NoEnd (c ∷ []) = c ≢ b'*'
NoEnd (c ∷ d ∷ s) = (¬ ((c ≡ b'*') × (d ≡ b'/'))) × NoEnd (d ∷ s)

skip_line-append : (b s : Text) → OneLine b → skip_line (b ++ 10 ∷ s) ≡ s
unfolding skip_line
skip_line-append [] s h = refl
skip_line-append (c ∷ b) s h = ground (arith, skip_line-append b s)

skip_block-append : (b s : Text) → NoEnd b → skip_block (b ++ b'*' ∷ b'/' ∷ s) ≡ s
unfolding skip_block
skip_block-append [] s h = refl
skip_block-append (c ∷ []) s h = ground arith
skip_block-append (c ∷ d ∷ b) s h = ground (arith, skip_block-append (d ∷ b) s)

-- `escape q t` doubles each `q` in `t`.
pub escape : ℕ → Text → Text
escape q [] = []
escape q (c ∷ t) = if c == q then q ∷ q ∷ escape q t else c ∷ escape q t

quoted_once : (q c : ℕ) (s : Text) → c ≢ q → quoted q (c ∷ s) ≡ (c ∷ (quoted q s).0, (quoted q s).1)
unfolding quoted
quoted_once q c [] h = ground arith
quoted_once q c (d ∷ s) h = ground arith

quoted_twice :
    (q : ℕ) (s : Text) → q ≢ b']' → quoted q (q ∷ q ∷ s) ≡ (q ∷ (quoted q s).0, (quoted q s).1)
unfolding quoted
quoted_twice q s h = ground arith

quoted_end : (q d : ℕ) (s : Text) → d ≢ q → quoted q (q ∷ d ∷ s) ≡ ([], d ∷ s)
unfolding quoted
quoted_end q d s h = ground arith

-- A quoted name is read back whole, whatever its characters.
quoted-escape :
    (q d : ℕ) (t s : Text) → q ≢ b']' → d ≢ q → quoted q (escape q t ++ q ∷ d ∷ s) ≡ (t, d ∷ s)
unfolding escape
quoted-escape q d [] s h k = quoted_end q d s k
quoted-escape q d (c ∷ t) s h k = elim (Bool-cases (c == q)) [
  | inl same ↦ rw same (
      quoted_twice q (escape q t ++ q ∷ d ∷ s) h
      ∙ rw (quoted-escape q d t s h k) (cc ((==_iff c q).0 same)))
  | inr ne ↦ rw ne (
      quoted_once q c (escape q t ++ q ∷ d ∷ s) (ne_of_beq ⦃e = nat_eq⦄ ne)
      ∙ rw (quoted-escape q d t s h k))
]

take_word-append :
    (w : Text) (d : ℕ) (s : Text)
    → All (λ c. is_word_char c ≡ true) w
    → is_word_char d ≡ false
    → take_word (w ++ d ∷ s) ≡ (w, d ∷ s)
unfolding take_word
take_word-append [] d s h k = rw k
take_word-append (c ∷ w) d s h k = rw (h.0, take_word-append w d s h.1 k)

word_char_facts :
    (c : ℕ)
    → is_word_char c ≡ true
    → (is_space c ≡ false)
      × (c ≢ b'-')
      × (c ≢ b'/')
      × (c ≢ 39)
      × (c ≢ 34)
      × (c ≢ 96)
      × (c ≢ b'[')
      × (c ≢ b';')
unfolding is_word_char is_space
word_char_facts c h = ground arith

module _ (lower : Text → Text) where
  -- A line comment is skipped with its line break.
  pub statements-line_comment :
      (b s : Text) → OneLine b → statements lower (b'-' ∷ b'-' ∷ b ++ 10 ∷ s) ≡ statements lower s
  unfolding lex push is_space
  statements-line_comment b s h =
      statements_step lower b'-' (b'-' ∷ b ++ 10 ∷ s)
      ∙ ap (statements lower) (skip_line-append (b'-' ∷ b) s (omega arith, h))

  pub statements-block_comment :
      (b s : Text)
      → NoEnd b
      → statements lower (b'/' ∷ b'*' ∷ b ++ b'*' ∷ b'/' ∷ s) ≡ statements lower s
  unfolding lex push is_space
  statements-block_comment b s h =
      statements_step lower b'/' (b'*' ∷ b ++ b'*' ∷ b'/' ∷ s)
      ∙ ap (statements lower) (skip_block-append b s h)

  lex-word :
      (c : ℕ) (s : Text)
      → is_word_char c ≡ true
      → lex lower c s ≡ (token (word_token lower (c ∷ (take_word s).0)), (take_word s).1)
  unfolding lex
  lex-word c s h = ground (arith, word_char_facts c h)

  -- A run of word characters, up to a character that is none, is one word.
  pub statements-word :
      (c : ℕ) (w : Text) (d : ℕ) (s : Text)
      → All (λ e. is_word_char e ≡ true) (c ∷ w)
      → is_word_char d ≡ false
      → statements lower (c ∷ w ++ d ∷ s)
        ≡ push (token (word_token lower (c ∷ w))) (statements lower (d ∷ s))
  statements-word c w d s h k =
      statements_step lower c (w ++ d ∷ s)
      ∙ rw (lex-word c (w ++ d ∷ s) h.0, take_word-append w d s h.1 k)

  -- A name in double quotes is one word too, whatever it holds.
  pub statements-quoted :
      (t : Text) (d : ℕ) (s : Text)
      → d ≢ 34
      → statements lower (34 ∷ escape 34 t ++ 34 ∷ d ∷ s)
        ≡ push (token (word_token lower t)) (statements lower (d ∷ s))
  unfolding lex is_space quoted_token
  statements-quoted t d s k =
      statements_step lower 34 (escape 34 t ++ 34 ∷ d ∷ s)
      ∙ rw (quoted-escape 34 d t s (omega arith) k, lex)
