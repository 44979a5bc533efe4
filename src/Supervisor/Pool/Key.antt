-- ===== src/Supervisor/Pool/Key.antt =====
-- services/supervisor/src/run.ts, `runtimeKey`: what makes two requests share one process.
-- `path.resolve` and the collation of `localeCompare` are the platform's; `Array.sort` is the
-- stable insertion of each element behind those it does not precede, and `JSON.stringify` escapes
-- as the language says.
use sproutboat.Base.{ℕ, ◌/◌, ◌%◌, Bool, Option, none, some, List, [], ◌∷◌, ltb, ◌==◌, if◌then◌else◌}
use sproutboat.Supervisor.Pool.State.{R2Runtime, TimedSprout}
use Prim.Native.Char.{Char, code}
use Prim.Native.String
use Prim.Native.String.{String}

pub record Platform : Type 0 where
  -- `path.resolve` of one path
  pub resolve_path : String → String
  -- `a.localeCompare(b) < 0`
  pub locale_lt : String → String → Bool
  -- the default order of `Array.sort` on texts
  pub unit_lt : String → String → Bool

insert_by {ℓ} : {A : Type ℓ} → (A → A → Bool) → A → List A → List A
insert_by lt a [] = a ∷ []
insert_by lt a (b ∷ bs) = if lt a b then a ∷ b ∷ bs else b ∷ insert_by lt a bs

sort_onto {ℓ} : {A : Type ℓ} → (A → A → Bool) → List A → List A → List A
sort_onto lt done [] = done
sort_onto lt done (a ∷ rest) = sort_onto lt (insert_by lt a done) rest

pub sort_by {ℓ} : {A : Type ℓ} → (A → A → Bool) → List A → List A
unfolding insert_by sort_onto
sort_by lt xs = sort_onto lt [] xs

infixr 66 ◌<>◌
abbrev ◌<>◌ : String → String → String
a <> b = String.◌++◌ a b

pub join : String → List String → String
join sep [] = ""
join sep (s ∷ []) = s
join sep (s ∷ t ∷ rest) = s <> sep <> join sep (t ∷ rest)

hex_digit : ℕ → String
hex_digit n =
    if n == 0
    then "0"
    else if n == 1
    then "1"
    else if n == 2
    then "2"
    else if n == 3
    then "3"
    else if n == 4
    then "4"
    else if n == 5
    then "5"
    else if n == 6
    then "6"
    else if n == 7
    then "7"
    else if n == 8
    then "8"
    else if n == 9
    then "9"
    else if n == 10
    then "a"
    else if n == 11
    then "b"
    else if n == 12
    then "c"
    else if n == 13
    then "d"
    else if n == 14
    then "e"
    else "f"

-- One character inside a JSON text.
json_char : Char → String
unfolding hex_digit
json_char c =
    let n = code c in
    if n == 34
    then "\\\""
    else if n == 92
    then "\\\\"
    else if n == 8
    then "\\b"
    else if n == 12
    then "\\f"
    else if n == 10
    then "\\n"
    else if n == 13
    then "\\r"
    else if n == 9
    then "\\t"
    else if ltb n 32
    then "\\u00" <> hex_digit (n / 16) <> hex_digit (n % 16)
    else String.◌∷◌ c ""

json_chars : String → String
unfolding json_char
json_chars String.[] = ""
json_chars (String.◌∷◌ c s) = json_char c <> json_chars s

json_text : String → String
unfolding json_chars
json_text s = "\"" <> json_chars s <> "\""

json_pair : String × String → String
unfolding json_text
json_pair (a, b) = "[" <> json_text a <> "," <> json_text b <> "]"

json_pairs : List (String × String) → List String
unfolding json_pair
json_pairs [] = []
json_pairs (p ∷ ps) = json_pair p ∷ json_pairs ps

or_empty : Option String → String
or_empty none = ""
or_empty (some s) = s

module _ (os : Platform) where
  service_pairs : Option (List (String × String)) → List (String × String)
  service_pairs none = []
  service_pairs (some pairs) = sort_by (λ a b. os.locale_lt a.0 b.0) pairs

  r2_key : Option R2Runtime → String
  unfolding or_empty
  r2_key none = ""
  r2_key (some r) =
      r.owner_id
      <> "\0"
      <> join "," (sort_by os.unit_lt r.resource_ids)
      <> "\0"
      <> or_empty r.do_store_id

  unfoldable pub runtime_key : TimedSprout → String
  unfolding service_pairs r2_key or_empty json_pairs join sort_by
  runtime_key t =
      os.resolve_path t.sprout_path
      <> "\0"
      <> or_empty t.secrets_path
      <> "\0"
      <> ("[" <> join "," (json_pairs (service_pairs t.services)) <> "]")
      <> "\0"
      <> r2_key t.r2
