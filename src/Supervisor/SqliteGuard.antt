-- ===== src/Supervisor/SqliteGuard.antt =====
-- services/supervisor/src/sqlite-guard.ts: the screen for the SQL that the broker runs on a
-- tenant's behalf. A text is its list of UTF-16 code units. `toLowerCase` beyond ASCII is an
-- argument, `lower`.
mod Tests
pub mod Scan
pub mod Reading
pub mod Screening
pub mod Evasion
use sproutboat.Base.{
  ℕ, zero, suc, ◌≡◌, Bool, true, false, ◌&&◌, ◌||◌, not, Option, none, some, List, [], ◌∷◌, map,
  leb, ◌==◌, if◌then◌else◌, length, any,
}
use sproutboat.Base.Codes.{Text, codes, text_eq}

pub data TokenKind : Type 0 where
  word : TokenKind
  punct : TokenKind
  other : TokenKind

pub record Token : Type 0 where
  pub kind : TokenKind
  pub text : Text

-- One round of the scanner's loop: nothing to keep, the end of a statement, or a token.
pub data Lexed : Type 0 where
  blank : Lexed
  separator : Lexed
  token : Token → Lexed

unfoldable pub is_space : ℕ → Bool
is_space c = c == 32 || c == 9 || c == 10 || c == 13 || c == 12 || c == 11

unfoldable pub is_word_char : ℕ → Bool
is_word_char c =
    leb b'A' c && leb c b'Z'
    || leb b'a' c && leb c b'z'
    || leb b'0' c && leb c b'9'
    || c == b'_'
    || c == b'$'
    || leb 128 c && leb c 65535

-- Behind the next line break, or at the end.
unfoldable pub skip_line : Text → Text
skip_line [] = []
skip_line (c ∷ s) = let rest = skip_line s in if c == 10 then s else rest

-- Behind the next `*/`, or at the end.
unfoldable pub skip_block : Text → Text
skip_block [] = []
skip_block (c ∷ []) = []
skip_block (c ∷ d ∷ s) = let rest = skip_block (d ∷ s) in if c == b'*' && d == b'/' then s else rest

-- What stands before the closing quote, a doubled quote read as one (not for brackets), and what
-- stands behind it.
unfoldable pub quoted : ℕ → Text → Text × Text
quoted close [] = ([], [])
quoted close (c ∷ []) = if c == close then ([], []) else (c ∷ [], [])
quoted close (c ∷ d ∷ s) =
    let doubled = quoted close s in
    let plain = quoted close (d ∷ s) in
    if not (c == close)
    then (c ∷ plain.0, plain.1)
    else if not (close == b']') && d == close
    then (close ∷ doubled.0, doubled.1)
    else ([], d ∷ s)

-- The longest run of word characters, and the rest.
unfoldable pub take_word : Text → Text × Text
take_word [] = ([], [])
take_word (c ∷ s) =
    let more = take_word s in if is_word_char c then (c ∷ more.0, more.1) else ([], c ∷ s)

unfoldable pub starts_with_char : ℕ → Text → Bool
starts_with_char c [] = false
starts_with_char c (d ∷ s) = d == c

unfoldable pub tail_of : Text → Text
tail_of [] = []
tail_of (c ∷ s) = s

unfoldable pub push : Lexed → List (List Token) → List (List Token)
push blank out = out
push separator out = [] ∷ out
push (token t) [] = (t ∷ []) ∷ []
push (token t) (ts ∷ out) = (t ∷ ts) ∷ out

module _ (lower : Text → Text) where
  abbrev pub word_token : Text → Token
  word_token t = record { kind = word; text = lower t }

  unfoldable pub quoted_token : ℕ → Text → Lexed
  quoted_token c body =
      if c == 39 then token (record { kind = other; text = 39 ∷ [] }) else token (word_token body)

  -- The loop's body at the character `c`, with what follows it.
  unfoldable pub lex : ℕ → Text → Lexed × Text
  unfolding starts_with_char tail_of
  lex c s =
      if is_space c
      then (blank, s)
      else if c == b'-' && starts_with_char b'-' s
      then (blank, skip_line s)
      else if c == b'/' && starts_with_char b'*' s
      then (blank, skip_block (tail_of s))
      else if c == 39 || c == 34 || c == 96 || c == b'['
      then (let (body, rest) = quoted (if c == b'[' then b']' else c) s in
          (quoted_token c body, rest))
      else if c == b';'
      then (separator, s)
      else if is_word_char c
      then (let (run, rest) = take_word s in (token (word_token (c ∷ run)), rest))
      else (token (record { kind = punct; text = c ∷ [] }), s)

  -- The statements from here on, the one that is open first. Every round consumes a character, so
  -- the length of the text is fuel enough.
  unfoldable pub scan : ℕ → Text → List (List Token)
  scan zero s = [] ∷ []
  scan (suc fuel) [] = [] ∷ []
  scan (suc fuel) (c ∷ s) = let (l, rest) = lex c s in push l (scan fuel rest)

  unfoldable pub statements : Text → List (List Token)
  statements sql = scan (length sql) sql

-- `SqliteGuardError` by its kind; a pragma carries the name that was refused.
pub data Refusal : Type 0 where
  attach : Refusal
  detach : Refusal
  vacuum_into : Refusal
  pragma : Option Token → Refusal

abbrev pub allowed_pragmas : List Text
allowed_pragmas = map codes (
    "table_list" ∷ "table_info" ∷ "table_xinfo" ∷ "index_list" ∷ "index_info" ∷ "index_xinfo"
    ∷ "quick_check" ∷ "foreign_key_list" ∷ "foreign_key_check" ∷ "foreign_keys"
    ∷ "defer_foreign_keys" ∷ "case_sensitive_like" ∷ "ignore_check_constraints"
    ∷ "legacy_alter_table" ∷ "recursive_triggers" ∷ "reverse_unordered_selects" ∷ "optimize"
    ∷ "journal_mode" ∷ "synchronous" ∷ "busy_timeout" ∷ "integrity_check" ∷ "user_version"
    ∷ "wal_checkpoint" ∷ "trusted_schema" ∷ [])

unfoldable pub is_word : TokenKind → Bool
is_word word = true
is_word punct = false
is_word other = false

unfoldable pub allowed_pragma : Text → Bool
allowed_pragma name = any (text_eq name) allowed_pragmas

-- `tokens[0]?.text === text`
unfoldable pub heads : Text → List Token → Bool
heads text [] = false
heads text (t ∷ ts) = text_eq t.text text

unfoldable pub head_token : List Token → Option Token
head_token [] = none
head_token (t ∷ ts) = some t

unfoldable pub drop_tokens : ℕ → List Token → List Token
drop_tokens zero ts = ts
drop_tokens (suc n) [] = []
drop_tokens (suc n) (t ∷ ts) = drop_tokens n ts

-- Behind `EXPLAIN` or `EXPLAIN QUERY PLAN`.
unfoldable pub skip_explain : List Token → List Token
skip_explain [] = []
skip_explain (t ∷ ts) =
    if text_eq t.text (codes "explain") && is_word t.kind
    then (if heads (codes "query") ts && heads (codes "plan") (drop_tokens 1 ts)
        then drop_tokens 2 ts
        else ts)
    else t ∷ ts

-- The name in `PRAGMA [schema.]name`, read from what follows the keyword.
unfoldable pub pragma_name : List Token → Option Token
unfolding head_token heads drop_tokens
pragma_name ts = elim (head_token (drop_tokens 2 ts)) [
  | none ↦ head_token ts
  | some t ↦ if heads (codes ".") (drop_tokens 1 ts) then some t else head_token ts
]

unfoldable pub screen_pragma : Option Token → Option Refusal
screen_pragma none = some (pragma none)
screen_pragma (some t) =
    if is_word t.kind && allowed_pragma t.text then none else some (pragma (some t))

unfoldable pub is_into : Token → Bool
is_into t = is_word t.kind && text_eq t.text (codes "into")

-- The `switch` over the first keyword, `ts` being what follows it.
unfoldable pub screen_keyword : Text → List Token → Option Refusal
screen_keyword first ts =
    if text_eq first (codes "attach")
    then some attach
    else if text_eq first (codes "detach")
    then some detach
    else if text_eq first (codes "vacuum")
    then (if any is_into ts then some vacuum_into else none)
    else if text_eq first (codes "pragma")
    then screen_pragma (pragma_name ts)
    else none

unfoldable pub screen_first : List Token → Option Refusal
screen_first [] = none
screen_first (t ∷ ts) = if is_word t.kind then screen_keyword t.text ts else none

unfoldable pub screen_statement : List Token → Option Refusal
screen_statement tokens = screen_first (skip_explain tokens)

-- The first refusal, in the order of the statements.
unfoldable pub screen_all : List (List Token) → Option Refusal
screen_all [] = none
screen_all (tokens ∷ rest) = elim (screen_statement tokens) [
  | some refusal ↦ some refusal
  | none ↦ screen_all rest
]

-- `none` lets the text through.
unfoldable pub screen_sql : (Text → Text) → Text → Option Refusal
screen_sql lower sql = screen_all (statements lower sql)
