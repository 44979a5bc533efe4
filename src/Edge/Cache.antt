-- ===== src/Edge/Cache.antt =====
-- services/edge/src/cache.ts: which requests may use the edge's response cache, and the cache
-- itself. A text is its list of code units, a body its list of bytes.
mod Tests
pub mod Valid
pub mod Lookup
pub mod Purge
use sproutboat.Base.{
  ℕ, ◌+◌, ◌-◌, ◌*◌, Bool, true, false, ◌||◌, not, Option, none, some, List, [], ◌∷◌, ◌++◌, length,
  any, ltb, leb, ◌==◌, string_eq, if◌then◌else◌,
}
use sproutboat.Base.Codes.{Text, text_eq, text_eq_inst}
use sproutboat.Base.Dict
use sproutboat.Base.Dict.{Dict}
use Prim.Native.String.{String}
use text.Mathlib.Text.{◌==◌ as str_eq}

-- What the edge reads of a request: header names are in lower case.
pub record CacheRequest : Type 0 where
  pub method : String
  pub headers : Dict String String

abbrev pub bypass_headers : List String
bypass_headers =
    "cache-control" ∷ "pragma" ∷ "if-match" ∷ "if-modified-since" ∷ "if-none-match"
    ∷ "if-unmodified-since" ∷ "range" ∷ []

unfoldable pub cache_request_eligible : CacheRequest → Bool
cache_request_eligible request =
    if not (str_eq request.method "GET")
    then false
    else if Dict.has "authorization" request.headers || Dict.has "cookie" request.headers
    then false
    else not (any (λ name. Dict.has name request.headers) bypass_headers)

pub record CachedResponse : Type 0 where
  pub status : ℕ
  pub headers : List (String × String)
  pub body : List ℕ
  pub expires_at : ℕ
  pub stored_at : ℕ
  pub age_at_store : ℕ

pub record EdgeCache : Type 0 where
  pub entries : Dict Text CachedResponse
  pub bytes : ℕ
  pub max_entries : ℕ
  pub max_bytes : ℕ
  pub max_entry_bytes : ℕ

unfoldable pub new_cache : ℕ → ℕ → ℕ → EdgeCache
new_cache entries bytes entry_bytes = record {
  entries = [];
  bytes = 0;
  max_entries = entries;
  max_bytes = bytes;
  max_entry_bytes = entry_bytes;
}

unfoldable pub cacheable_status : ℕ → Bool
cacheable_status status =
    status == 200 || status == 203 || status == 301 || status == 404 || status == 410

-- `key(host, method, path)`
unfoldable pub cache_key : Text → Text → Text → Text
cache_key host method path = method ++ 32 ∷ host ++ 32 ∷ path

-- An expired hit is dropped, and is a miss.
unfoldable pub get_response : ℕ → Text → EdgeCache → EdgeCache × Option CachedResponse
get_response clock key c = elim (Dict.get key c.entries) [
  | none ↦ (c, none)
  | some hit ↦
      if leb hit.expires_at clock
      then (
        record c { entries = Dict.delete key c.entries; bytes = c.bytes - length hit.body },
        none,
      )
      else (c, some hit)
]

-- The eviction loop: while a bound is passed, the first entry goes.
unfoldable pub evict_oldest : ℕ → ℕ → Dict Text CachedResponse → ℕ → Dict Text CachedResponse × ℕ
evict_oldest max_entries max_bytes [] bytes = ([], bytes)
evict_oldest max_entries max_bytes ((key, oldest) ∷ rest) bytes =
    let evicted = evict_oldest max_entries max_bytes rest (bytes - length oldest.body) in
    if ltb max_entries (length rest + 1) || ltb max_bytes bytes
    then evicted
    else ((key, oldest) ∷ rest, bytes)

unfoldable pub existing_bytes : Option CachedResponse → ℕ
existing_bytes none = 0
existing_bytes (some existing) = length existing.body

-- `expiresAt` and `ageAtStore` as the caller gives them; `storedAt` is the clock.
unfoldable pub set_response : Text → CachedResponse → EdgeCache → EdgeCache × Bool
unfolding cacheable_status existing_bytes
set_response key response c =
    if not (cacheable_status response.status) || ltb c.max_entry_bytes (length response.body)
    then (c, false)
    else (let bytes = c.bytes - existing_bytes (Dict.get key c.entries) + length response.body in
        let (kept, left) =
          evict_oldest c.max_entries c.max_bytes (Dict.insert key response c.entries) bytes in
        (record c { entries = kept; bytes = left }, true))

-- `key.split(" ")[1]`
unfoldable pub until_space : Text → Text
until_space [] = []
until_space (c ∷ s) = let rest = until_space s in if c == 32 then [] else c ∷ rest

unfoldable pub second_part : Text → Option Text
second_part [] = none
second_part (c ∷ s) = let rest = second_part s in if c == 32 then some (until_space s) else rest

unfoldable pub is_for_host : Text → Text → Bool
is_for_host host key = elim (second_part key) [ none ↦ false | some part ↦ text_eq part host ]

unfoldable pub purge_entries : Text → Dict Text CachedResponse → ℕ → Dict Text CachedResponse × ℕ
purge_entries host [] bytes = ([], bytes)
purge_entries host ((key, response) ∷ rest) bytes =
    let purged = purge_entries host rest (bytes - length response.body) in
    let kept = purge_entries host rest bytes in
    if is_for_host host key then purged else ((key, response) ∷ kept.0, kept.1)

unfoldable pub purge_host : Text → EdgeCache → EdgeCache
purge_host host c =
    let (kept, left) = purge_entries host c.entries c.bytes in
    record c { entries = kept; bytes = left }
