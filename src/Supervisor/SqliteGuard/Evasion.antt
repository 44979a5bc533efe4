-- ===== src/Supervisor/SqliteGuard/Evasion.antt =====
-- services/supervisor/src/sqlite-guard.ts: letter case, white space and comments around a keyword.
use sproutboat.Base.{
  ℕ, ◌≤◌, ◌<◌, ◌≡◌, refl, sym, ap, ◌∙◌, true, false, some, List, [], ◌∷◌, ◌++◌, map, All, arith,
  nat_eq,
}
use sproutboat.Base.Codes.{Text, codes, text_eq, ascii_lower}
use mathlib.Core.Path.{subst}
use sproutboat.Base.Bag
use sproutboat.Supervisor.SqliteGuard.{
  Token, token, is_word, is_space, is_word_char, word_token, push, statements, Refusal, attach,
  detach, screen_keyword, skip_explain, screen_first, screen_statement, screen_all, screen_sql,
}
use sproutboat.Supervisor.SqliteGuard.Scan.{statements-space}
use sproutboat.Supervisor.SqliteGuard.Reading.{
  OneLine, NoEnd, statements-line_comment, statements-block_comment, statements-word,
}
use sproutboat.Supervisor.SqliteGuard.Screening.{a_word}

-- Space, tab, line feed, carriage return, form feed and vertical tab.
abbrev pub blanks : List ℕ
blanks = 32 ∷ 9 ∷ 10 ∷ 13 ∷ 12 ∷ 11 ∷ []

blank-space : (c : ℕ) → Bag.has c blanks ≡ true → is_space c ≡ true
unfolding Bag.has is_space
blank-space c h = ground (arith, h)

-- `Padded s full`: the text `full` is `s` behind blanks and comments.
pub data Padded (s : Text) : Text → Type 0 where
  bare : Padded s s
  space : {t : Text} (c : ℕ) → Bag.has c blanks ≡ true → Padded s t → Padded s (c ∷ t)
  line : {t : Text} (b : Text) → OneLine b → Padded s t → Padded s (b'-' ∷ b'-' ∷ b ++ 10 ∷ t)
  block :
      {t : Text} (b : Text) → NoEnd b → Padded s t → Padded s (b'/' ∷ b'*' ∷ b ++ b'*' ∷ b'/' ∷ t)

-- `toLowerCase` on a text that is all ASCII.
abbrev pub LowersAscii : (Text → Text) → Type 0
LowersAscii lower = (t : Text) → All (λ c. c < 128) t → lower t ≡ map ascii_lower t

IsLetter : ℕ → Type 0
IsLetter c = (97 ≤ c) × (c ≤ 122)

letter_of_lower : (c : ℕ) → IsLetter (ascii_lower c) → (is_word_char c ≡ true) × (c < 128)
unfolding ascii_lower IsLetter is_word_char
letter_of_lower c h = (ground arith, ground arith)

letters_of_lower :
    (t : Text)
    → All IsLetter (map ascii_lower t)
    → All (λ c. is_word_char c ≡ true) t × All (λ c. c < 128) t
letters_of_lower [] h = (tt, tt)
letters_of_lower (c ∷ t) (h, hs) =
    let (a, b) = letter_of_lower c h in
    let (later, smaller) = letters_of_lower t hs in ((a, later), (b, smaller))

push-token :
    (kw : Text) (out : List (List Token))
    → text_eq kw (codes "explain") ≡ false
    → (r : Refusal) → ((ts : List Token) → screen_keyword kw ts ≡ some r)
    → screen_all (push (token (a_word kw)) out) ≡ some r
unfolding push screen_all screen_statement skip_explain screen_first is_word text_eq
push-token kw [] ne r h = rw ne (rw h)
push-token kw (ts ∷ out) ne r h = rw ne (rw h)

module _ (lower : Text → Text) (ascii : LowersAscii lower) where
  statements-Padded :
      (s : Text) {full : Text} → Padded s full → statements lower full ≡ statements lower s
  statements-Padded s bare = refl
  statements-Padded s (space {t = t} c h p) =
      statements-space lower c t (blank-space c h) ∙ statements-Padded s p
  statements-Padded s (line {t = t} b h p) =
      statements-line_comment lower b t h ∙ statements-Padded s p
  statements-Padded s (block {t = t} b h p) =
      statements-block_comment lower b t h ∙ statements-Padded s p

  -- A keyword whose statements are all refused, in any case, behind any padding, before anything
  -- that does not lengthen the word.
  refused_keyword :
      (kw : Text) (r : Refusal) (c : ℕ) (w : Text) (d : ℕ) (rest full : Text)
      → All IsLetter kw
      → text_eq kw (codes "explain") ≡ false
      → ((ts : List Token) → screen_keyword kw ts ≡ some r)
      → map ascii_lower (c ∷ w) ≡ kw
      → is_word_char d ≡ false
      → Padded (c ∷ w ++ d ∷ rest) full
      → screen_sql lower full ≡ some r
  unfolding screen_sql
  refused_keyword kw r c w d rest full letters ne refused e k p =
      let (chars, small) = letters_of_lower (c ∷ w) (subst (All IsLetter) (sym e) letters) in
      let lowered : word_token lower (c ∷ w) ≡ a_word kw = ap a_word (ascii (c ∷ w) small ∙ e) in
      ap screen_all
        (statements-Padded (c ∷ w ++ d ∷ rest) p ∙ statements-word lower c w d rest chars k)
      ∙ ap (λ t. screen_all (push (token t) (statements lower (d ∷ rest)))) lowered
      ∙ push-token kw (statements lower (d ∷ rest)) ne r refused

  -- `ATTACH`, in any mix of letter cases, behind any spaces, tabs, line feeds, carriage returns,
  -- form feeds, vertical tabs and comments, is refused whatever follows, if what follows does not
  -- begin with a word character. `lower` agrees with `toLowerCase` on ASCII.
  pub screen_sql-attach :
      (c : ℕ) (w : Text) (d : ℕ) (rest : Text) {full : Text}
      → is_word_char d ≡ false
      → Padded (c ∷ w ++ d ∷ rest) full
      → map ascii_lower (c ∷ w) ≡ codes "attach"
      → screen_sql lower full ≡ some attach
  unfolding IsLetter screen_keyword text_eq
  screen_sql-attach c w d rest {full} k p e =
      refused_keyword (codes "attach") attach c w d rest full (omega arith) refl (λ ts. refl) e k p

  -- So is `DETACH`.
  pub screen_sql-detach :
      (c : ℕ) (w : Text) (d : ℕ) (rest : Text) {full : Text}
      → is_word_char d ≡ false
      → Padded (c ∷ w ++ d ∷ rest) full
      → map ascii_lower (c ∷ w) ≡ codes "detach"
      → screen_sql lower full ≡ some detach
  unfolding IsLetter screen_keyword text_eq
  screen_sql-detach c w d rest {full} k p e =
      refused_keyword (codes "detach") detach c w d rest full (omega arith) refl (λ ts. refl) e k p
