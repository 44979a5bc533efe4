-- ===== src/Supervisor/SqliteGuard/Screening.antt =====
-- services/supervisor/src/sqlite-guard.ts, `screenSql`: which texts it refuses, against what the
-- statements say.
use sproutboat.Base.{
  ◌≡◌, ◌≢◌, ◌↔◌, refl, sym, ap, ◌∙◌, Bool, true, false, ◌&&◌, none, some, List, [], ◌∷◌, ◌++◌, map,
  any, All, arith, Bool-cases, Option-cases, ne_of_beq, inl, inr,
}
use mathlib.Core.Path.{subst}
use sproutboat.Base.Bag
use sproutboat.Base.Codes.{Text, codes, text_eq, text_eq_iff, text_eq_inst}
use sproutboat.Supervisor.SqliteGuard.{
  Token, word, is_word, is_into, allowed_pragma, statements, skip_explain, pragma_name, heads,
  head_token, drop_tokens, Refusal, screen_pragma, screen_keyword, screen_first, screen_statement,
  screen_all, screen_sql,
}

-- `Command kw ts tokens`: the statement is the command `kw` followed by `ts`, plainly or behind
-- `EXPLAIN` or `EXPLAIN QUERY PLAN`.
abbrev pub a_word : Text → Token
a_word t = record { kind = word; text = t }

pub data Command (kw : Text) (ts : List Token) : List Token → Type 0 where
  plain :
      {tokens : List Token} → tokens ≡ a_word kw ∷ ts → kw ≢ codes "explain" → Command kw ts tokens
  explained :
      {tokens : List Token}
      → tokens ≡ a_word (codes "explain") ∷ a_word kw ∷ ts
      → kw ≢ codes "query"
      → Command kw ts tokens
  planned :
      {tokens : List Token} (q p : Token)
      → tokens ≡ a_word (codes "explain") ∷ q ∷ p ∷ a_word kw ∷ ts
      → q.text ≡ codes "query"
      → p.text ≡ codes "plan"
      → Command kw ts tokens

-- The pragmas of D1, and those that the broker issues.
abbrev pub pragmas : List Text
pragmas = map codes (
    "table_list" ∷ "table_info" ∷ "table_xinfo" ∷ "index_list" ∷ "index_info" ∷ "index_xinfo"
    ∷ "quick_check" ∷ "foreign_key_list" ∷ "foreign_key_check" ∷ "foreign_keys"
    ∷ "defer_foreign_keys" ∷ "case_sensitive_like" ∷ "ignore_check_constraints"
    ∷ "legacy_alter_table" ∷ "recursive_triggers" ∷ "reverse_unordered_selects" ∷ "optimize"
    ∷ "journal_mode" ∷ "synchronous" ∷ "busy_timeout" ∷ "integrity_check" ∷ "user_version"
    ∷ "wal_checkpoint" ∷ "trusted_schema" ∷ [])

-- Behind a schema: a full stop, and the name.
abbrev pub Qualifies : List Token → Token → Type 0
Qualifies ts t =
    (dot : Token) × (more : List Token) × (ts ≡ dot ∷ t ∷ more) × (dot.text ≡ codes ".")

-- What the pragma is that `ts` names: the name behind a schema, or the first token.
pub data PragmaIs (t : Token) (ts : List Token) : Type 0 where
  with_schema :
      (schema : Token) (more : List Token) → ts ≡ schema ∷ more → Qualifies more t → PragmaIs t ts
  without_schema :
      (more : List Token) → ts ≡ t ∷ more → ((u : Token) → ¬ Qualifies more u) → PragmaIs t ts

-- A pragma of the list is named, as a word.
abbrev pub IsAllowed : List Token → Type 0
IsAllowed ts = (t : Token) × PragmaIs t ts × (t.kind ≡ word) × (Bag.has t.text pragmas ≡ true)

-- The four kinds of statement that tenant SQL may not run.
pub data Forbidden (tokens : List Token) : Type 0 where
  attaches : (ts : List Token) → Command (codes "attach") ts tokens → Forbidden tokens
  detaches : (ts : List Token) → Command (codes "detach") ts tokens → Forbidden tokens
  vacuums_into :
      (before after : List Token)
      → Command (codes "vacuum") (before ++ a_word (codes "into") ∷ after) tokens
      → Forbidden tokens
  sets_pragma :
      (ts : List Token) → Command (codes "pragma") ts tokens → ¬ IsAllowed ts → Forbidden tokens

heads_of : (t : Token) (text : Text) (ts : List Token) → t.text ≡ text → heads text (t ∷ ts) ≡ true
unfolding heads
heads_of t text ts h = (text_eq_iff t.text text).1 h

not_heads : (kw text : Text) (ts : List Token) → kw ≢ text → heads text (a_word kw ∷ ts) ≡ false
unfolding heads
not_heads kw text ts h = ground (arith, text_eq_iff kw text)

Command-skip_explain :
    (kw : Text) (ts tokens : List Token)
    → Command kw ts tokens
    → skip_explain tokens ≡ a_word kw ∷ ts
unfolding skip_explain drop_tokens is_word text_eq
Command-skip_explain kw ts tokens (plain e ne) =
    rw (e, skip_explain) (ground (arith, text_eq_iff kw (codes "explain")))
Command-skip_explain kw ts tokens (explained e ne) =
    rw (e, skip_explain) (rw (not_heads kw (codes "query") ts ne) refl)
Command-skip_explain kw ts tokens (planned q p e query plan) =
    rw (e, skip_explain)
      (rw (heads_of q (codes "query") (p ∷ a_word kw ∷ ts) query)
        (rw (heads_of p (codes "plan") (a_word kw ∷ ts) plan) refl))

both : (a b : Bool) → (a && b) ≡ true → (a ≡ true) × (b ≡ true)
both a b h = ground (arith, h)

token_eq : (t : Token) (text : Text) → t.text ≡ text → is_word t.kind ≡ true → t ≡ a_word text
unfolding is_word
token_eq t text e h = ground arith

-- The tokens behind `EXPLAIN`.
planned-Command :
    (kw : Text) (ts rest : List Token)
    → heads (codes "query") rest && heads (codes "plan") (drop_tokens 1 rest) ≡ true
    → drop_tokens 2 rest ≡ a_word kw ∷ ts
    → Command kw ts (a_word (codes "explain") ∷ rest)
unfolding heads drop_tokens
planned-Command kw ts [] h e = absurd (cc e)
planned-Command kw ts (q ∷ []) h e = absurd (cc e)
planned-Command kw ts (q ∷ p ∷ more) h e =
    planned q p (rw e) (ground (arith, text_eq_iff q.text (codes "query")))
      (ground (arith, text_eq_iff p.text (codes "plan")))

skip_explain-Command :
    (kw : Text) (ts tokens : List Token)
    → kw ≢ codes "explain"
    → kw ≢ codes "query"
    → skip_explain tokens ≡ a_word kw ∷ ts
    → Command kw ts tokens
unfolding skip_explain
skip_explain-Command kw ts [] ne nq h = absurd (cc h)
skip_explain-Command kw ts (t ∷ rest) ne nq h =
    elim (Bool-cases (text_eq t.text (codes "explain") && is_word t.kind)) [
      | inr not_so ↦ plain (rw not_so at h) ne
      | inl explain ↦
          let is_explain : t ≡ a_word (codes "explain") =
            token_eq t (codes "explain") (ground (arith, text_eq_iff t.text (codes "explain")))
              (ground arith) in
          let inner = rw explain at h in
          rw is_explain
            (elim (Bool-cases
              (heads (codes "query") rest && heads (codes "plan") (drop_tokens 1 rest))) [
                | inl plan ↦ planned-Command kw ts rest plan (rw plan at inner)
                | inr no_plan ↦
                    explained
                      (ap (λ (us : List Token). a_word (codes "explain") ∷ us)
                        (rw no_plan at inner))
                      nq
              ])
    ]

-- What the screen says of a command is what it says of its keyword.
screen-Command :
    (kw : Text) (ts tokens : List Token)
    → Command kw ts tokens
    → screen_statement tokens ≡ screen_keyword kw ts
unfolding screen_statement screen_first is_word
screen-Command kw ts tokens c = rw (Command-skip_explain kw ts tokens c)

any-into :
    (before after : List Token) → any is_into (before ++ a_word (codes "into") ∷ after) ≡ true
unfolding is_into is_word text_eq
any-into [] after = refl
any-into (t ∷ before) after = ground (arith, any-into before after)

into_found :
    (ts : List Token)
    → any is_into ts ≡ true
    → (before : List Token) × (after : List Token) × (ts ≡ before ++ a_word (codes "into") ∷ after)
unfolding is_into
into_found [] h = absurd (cc h)
into_found (t ∷ ts) h = elim (Bool-cases (is_word t.kind && text_eq t.text (codes "into"))) [
  | inl here ↦
      let (w, is) = both (is_word t.kind) (text_eq t.text (codes "into")) here in
      (
        [],
        ts,
        ap (λ (u : Token). u ∷ ts)
            (token_eq t (codes "into") ((text_eq_iff t.text (codes "into")).0 is) w),
      )
  | inr no_into ↦
      let (before, after, e) = into_found ts (rw no_into at h) in
      (t ∷ before, after, ap (λ us. t ∷ us) e)
]

has-any : (name : Text) (xs : List Text) → any (text_eq name) xs ≡ Bag.has name xs
unfolding Bag.has
has-any name [] = refl
has-any name (x ∷ xs) = ground (arith, has-any name xs, text_eq_iff name x, text_eq_iff x name)

allowed-has : (name : Text) → allowed_pragma name ≡ Bag.has name pragmas
unfolding allowed_pragma
allowed-has name = has-any name pragmas

-- The token that the screen takes for the pragma's name is the one that the grammar names.
pragma_name-PragmaIs : (ts : List Token) (t : Token) → (pragma_name ts ≡ some t) ↔ PragmaIs t ts
unfolding pragma_name head_token drop_tokens heads
pragma_name-PragmaIs ts t = (named ts t, taken ts t)
  where
    named : (ts : List Token) (t : Token) → pragma_name ts ≡ some t → PragmaIs t ts
    named [] t h = absurd (cc h)
    named (a ∷ []) t h =
        let is : a ≡ t = cc h in
        without_schema [] (ap (λ (x : Token). x ∷ []) is) (λ u (d, m, e, _). cc e)
    named (a ∷ d ∷ []) t h =
        let is : a ≡ t = cc h in
        without_schema (d ∷ []) (ap (λ (x : Token). x ∷ d ∷ []) is) (λ u (b, m, e, _). cc e)
    named (a ∷ d ∷ n ∷ more) t h = elim (Bool-cases (text_eq d.text (codes "."))) [
      | inl dot ↦
          let is : n ≡ t = cc (rw dot at h) in
          with_schema a (d ∷ n ∷ more) refl
            (d, more, ap (λ (x : Token). d ∷ x ∷ more) is, (text_eq_iff d.text (codes ".")).0 dot)
      | inr plain_name ↦
          let is : a ≡ t = cc (rw plain_name at h) in
          without_schema (d ∷ n ∷ more) (ap (λ (x : Token). x ∷ d ∷ n ∷ more) is)
            (λ u (b, m, e, dot).
              let same : d ≡ b = cc e in
              let yes =
                (text_eq_iff d.text (codes ".")).1 (ap (λ (x : Token). x.text) same ∙ dot) in
              cc (yes, plain_name))
    ]

    taken : (ts : List Token) (t : Token) → PragmaIs t ts → pragma_name ts ≡ some t
    taken ts t (with_schema a more e (d, rest, e2, dot)) =
        rw (e, e2) (rw ((text_eq_iff d.text (codes ".")).1 dot) refl)
    taken ts t (without_schema [] e free) = rw e refl
    taken ts t (without_schema (d ∷ []) e free) = rw e refl
    taken ts t (without_schema (d ∷ n ∷ more) e free) =
        rw e (elim (Bool-cases (text_eq d.text (codes "."))) [
          | inl dot ↦ absurd (free n (d, more, refl, (text_eq_iff d.text (codes ".")).0 dot))
          | inr plain_name ↦ rw plain_name refl
        ])

screen_pragma-none : (ts : List Token) → screen_pragma (pragma_name ts) ≡ none → IsAllowed ts
unfolding screen_pragma is_word
screen_pragma-none ts h = elim (Option-cases (pragma_name ts)) [
  | inl gone ↦ absurd (cc (rw (gone, screen_pragma) at h))
  | inr (t, e) ↦
      let kept : screen_pragma (some t) ≡ none = ap screen_pragma (sym e) ∙ h in
      let (k, a) =
        both (is_word t.kind) (allowed_pragma t.text) (
          let is : (is_word t.kind && allowed_pragma t.text) ≡ true = ground (arith, kept) in is) in
      (t, (pragma_name-PragmaIs ts t).0 e, ground (arith, k), sym (allowed-has t.text) ∙ a)
]

-- A forbidden statement is refused.
Forbidden-refused : (tokens : List Token) → Forbidden tokens → screen_statement tokens ≢ none
unfolding screen_keyword text_eq
Forbidden-refused tokens (attaches ts c) h = cc (screen-Command (codes "attach") ts tokens c, h)
Forbidden-refused tokens (detaches ts c) h = cc (screen-Command (codes "detach") ts tokens c, h)
Forbidden-refused tokens (vacuums_into before after c) h =
    let ts = before ++ a_word (codes "into") ∷ after in
    cc (rw (any-into before after) at (screen-Command (codes "vacuum") ts tokens c), h)
Forbidden-refused tokens (sets_pragma ts c bad) h =
    bad (screen_pragma-none ts (cc (screen-Command (codes "pragma") ts tokens c, h)))

pragma-refused :
    (ts : List Token) (r : Refusal) → screen_pragma (pragma_name ts) ≡ some r → ¬ IsAllowed ts
unfolding screen_pragma is_word
pragma-refused ts r h (t, names, k, a) =
    let passed : screen_pragma (some t) ≡ none = rw (k, allowed-has t.text, a) refl in
    cc (sym h ∙ ap screen_pragma ((pragma_name-PragmaIs ts t).1 names) ∙ passed)

-- A keyword that was compared with `lit`.
is_Command :
    (kw lit : Text) (ts tokens : List Token)
    → text_eq lit (codes "explain") ≡ false
    → text_eq lit (codes "query") ≡ false
    → skip_explain tokens ≡ a_word kw ∷ ts
    → text_eq kw lit ≡ true
    → Command lit ts tokens
is_Command kw lit ts tokens ne nq at h =
    skip_explain-Command lit ts tokens (ne_of_beq {A = Text} ne) (ne_of_beq {A = Text} nq)
      (at ∙ ap (λ (w : Text). a_word w ∷ ts) ((text_eq_iff kw lit).0 h))

-- A statement whose keyword is refused is forbidden.
refused-keyword :
    (kw : Text) (ts tokens : List Token) (r : Refusal)
    → skip_explain tokens ≡ a_word kw ∷ ts
    → screen_keyword kw ts ≡ some r
    → Forbidden tokens
unfolding screen_keyword text_eq
refused-keyword kw ts tokens r at h = elim (Bool-cases (text_eq kw (codes "attach"))) [
  | inl a ↦ attaches ts (is_Command kw (codes "attach") ts tokens refl refl at a)
  | inr na ↦ elim (Bool-cases (text_eq kw (codes "detach"))) [
    | inl d ↦ detaches ts (is_Command kw (codes "detach") ts tokens refl refl at d)
    | inr nd ↦ elim (Bool-cases (text_eq kw (codes "vacuum"))) [
      | inl v ↦
          let (before, after, e) = into_found ts (ground arith) in
          vacuums_into before after (
            subst (λ us. Command (codes "vacuum") us tokens) e
              (is_Command kw (codes "vacuum") ts tokens refl refl at v))
      | inr nv ↦ elim (Bool-cases (text_eq kw (codes "pragma"))) [
        | inl p ↦
            sets_pragma ts (is_Command kw (codes "pragma") ts tokens refl refl at p)
              (pragma-refused ts r (ground arith))
        | inr np ↦ absurd (ground arith)
      ]
    ]
  ]
]

refused_at :
    (tokens rest : List Token) (r : Refusal)
    → skip_explain tokens ≡ rest
    → screen_statement tokens ≡ some r
    → Forbidden tokens
unfolding screen_statement screen_first is_word
refused_at tokens [] r e h = absurd (cc (rw e at h))
refused_at tokens (t ∷ ts) r e h = elim (Bool-cases (is_word t.kind)) [
  | inl w ↦
      refused-keyword t.text ts tokens r (e ∙ ap (λ (u : Token). u ∷ ts) (token_eq t t.text refl w))
        (rw w at (rw (e, screen_first) at h))
  | inr nw ↦ absurd (cc (rw nw at (rw (e, screen_first) at h)))
]

refused-Forbidden :
    (tokens : List Token) (r : Refusal) → screen_statement tokens ≡ some r → Forbidden tokens
refused-Forbidden tokens r h = refused_at tokens (skip_explain tokens) r refl h

screen_all_iff :
    (out : List (List Token)) → (screen_all out ≡ none) ↔ All (λ tokens. ¬ Forbidden tokens) out
unfolding screen_all
screen_all_iff [] = (λ h. tt, λ h. refl)
screen_all_iff (tokens ∷ rest) = elim (Option-cases (screen_statement tokens)) [
  | inl ok ↦
      rw (ok, screen_all)
        (
          λ h. (λ f. Forbidden-refused tokens f ok, (screen_all_iff rest).0 h),
          λ h. (screen_all_iff rest).1 h.1,
        )
  | inr (r, bad) ↦
      rw (bad, screen_all) (λ h. absurd (cc h), λ h. absurd (h.0 (refused-Forbidden tokens r bad)))
]

-- The screen lets a text through exactly when none of the statements that its scanner reads
-- attaches or detaches a file, vacuums into one, or is a pragma statement that names, with or
-- without a schema, no pragma of the list.
pub screen_sql_iff :
    (lower : Text → Text) (sql : Text)
    → (screen_sql lower sql ≡ none) ↔ All (λ tokens. ¬ Forbidden tokens) (statements lower sql)
unfolding screen_sql
screen_sql_iff lower sql = screen_all_iff (statements lower sql)
