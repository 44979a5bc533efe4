-- ===== src/Supervisor/SqliteGuard/Tests.antt =====
-- services/supervisor/src/sqlite-guard.ts: runs of the screen, and the theorems at inputs.
use sproutboat.Base.{◌≡◌, ◌↔◌, refl, none, some, [], ◌∷◌, ◌++◌, map, All, arith}
use sproutboat.Base.Codes.{Text, codes, text_eq, ascii_lower}
use sproutboat.Base.Bag
use sproutboat.Supervisor.SqliteGuard.{
  word, token, is_word_char, is_space, skip_line, skip_block, quoted, take_word, quoted_token, lex,
  push, scan, statements, is_word, allowed_pragma, heads, head_token, drop_tokens, skip_explain,
  pragma_name, screen_pragma, is_into, screen_keyword, screen_first, screen_statement, screen_all,
  screen_sql, attach, vacuum_into, pragma,
}
use sproutboat.Supervisor.SqliteGuard.Reading.{escape, statements-quoted}
use sproutboat.Supervisor.SqliteGuard.Screening.{Forbidden, a_word, screen_sql_iff}
use sproutboat.Supervisor.SqliteGuard.Evasion.{bare, space, line, block, screen_sql-attach}

screen : Unit {0}
unfolding text_eq ascii_lower is_word_char is_space skip_line skip_block quoted take_word
    quoted_token lex push scan statements is_word allowed_pragma heads head_token drop_tokens
    skip_explain pragma_name screen_pragma is_into screen_keyword screen_first screen_statement
    screen_all screen_sql
screen = tt

abbrev lower : Text → Text
lower = map ascii_lower

-- The last text begins with U+FEFF, which the scanner takes for a part of the word.
screen_tests :
    (screen_sql lower (codes "SELECT 'attach' FROM t; -- attach\n DELETE FROM t") ≡ none)
    × (screen_sql lower (codes "select 1; /* x */ Explain query plan ATTACH 'f' as g")
        ≡ some attach)
    × (screen_sql lower (codes "VACUUM main INTO 'f'") ≡ some vacuum_into)
    × (screen_sql lower (codes "PRAGMA main.table_info(t)") ≡ none)
    × (screen_sql lower (codes "PRAGMA module_list")
        ≡ some (pragma (some (a_word (codes "module_list")))))
    × (screen_sql lower (65279 ∷ codes "ATTACH 'f' AS g") ≡ none)
unfolding screen
screen_tests = (refl, refl, refl, refl, refl, refl)

screen_sql-attach_example : screen_sql lower (codes " --x\n/**/aTTach 'f'") ≡ some attach
unfolding ascii_lower is_word_char is_space Bag.has
screen_sql-attach_example =
    screen_sql-attach lower (λ t h. refl) b'a' (codes "TTach") 32 (codes "'f'")
      {full = codes " --x\n/**/aTTach 'f'"} refl
      (space 32 refl (line (codes "x") (omega arith, tt) (block [] tt bare))) refl

screen_sql_iff_example :
    (screen_sql lower (codes "PRAGMA module_list") ≡ none)
    ↔ All (λ tokens. ¬ Forbidden tokens) (statements lower (codes "PRAGMA module_list"))
screen_sql_iff_example = screen_sql_iff lower (codes "PRAGMA module_list")

statements-quoted_example :
    statements lower (34 ∷ escape 34 (codes "a\"b") ++ 34 ∷ 32 ∷ codes "x")
    ≡ push
        (token (record { kind = word; text = lower (codes "a\"b") }))
        (statements lower (32 ∷ codes "x"))
statements-quoted_example = statements-quoted lower (codes "a\"b") 32 (codes "x") (omega arith)
