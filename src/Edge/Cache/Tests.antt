-- ===== src/Edge/Cache/Tests.antt =====
-- services/edge/src/cache.ts: runs of the cache, and the theorems at inputs.
use sproutboat.Base.{
  ◌≡◌, ℕ, refl, true, false, none, some, List, [], ◌∷◌, length, arith, leb, if◌then◌else◌,
}
use sproutboat.Base.Codes.{Text, codes, text_eq, text_eq_inst}
use sproutboat.Base.Dict
use sproutboat.Edge.Cache.{
  cache_request_eligible, CachedResponse, EdgeCache, new_cache, cacheable_status, cache_key,
  get_response, evict_oldest, existing_bytes, set_response, until_space, second_part, is_for_host,
  purge_entries, purge_host,
}
use sproutboat.Edge.Cache.Valid.{IsBounded, here, next, stored, purged, Reach-IsBounded}
use sproutboat.Edge.Cache.Lookup.{get-set_response, set_response_self}

abbrev reply : ℕ → List ℕ → CachedResponse
reply expires_at body = record {
  status = 200;
  headers = [];
  body = body;
  expires_at = expires_at;
  stored_at = 0;
  age_at_store = 0;
}

-- Two entries, six bytes, four bytes an entry.
abbrev small_cache : EdgeCache
small_cache = new_cache 2 6 4

abbrev home : Text
home = cache_key (codes "a.test") (codes "GET") (codes "/")

cache : Unit {0}
unfolding cache_request_eligible new_cache cacheable_status cache_key get_response evict_oldest
    existing_bytes set_response until_space second_part is_for_host purge_entries purge_host
    Dict.get Dict.has Dict.insert Dict.delete text_eq
cache = tt

cache_tests :
    (cache_request_eligible (record { method = "GET"; headers = ("accept", "*/*") ∷ [] }) ≡ true)
    × (cache_request_eligible (record { method = "GET"; headers = ("range", "bytes=0-1") ∷ [] })
        ≡ false)
    × (cache_request_eligible (record { method = "HEAD"; headers = [] }) ≡ false)
    × ((set_response home (reply 9 (1 ∷ 2 ∷ 3 ∷ 4 ∷ 5 ∷ [])) small_cache).1 ≡ false)
unfolding cache
cache_tests = (refl, refl, refl, refl)

abbrev one_entry : EdgeCache
one_entry = (set_response home (reply 9 (1 ∷ 2 ∷ 3 ∷ [])) small_cache).0

one_entry-entries : one_entry.entries ≡ (home, reply 9 (1 ∷ 2 ∷ 3 ∷ [])) ∷ []
unfolding cache
one_entry-entries = refl

one_entry-bytes : (length one_entry.entries ≡ 1) × (one_entry.bytes ≡ 3)
unfolding cache
one_entry-bytes = (refl, refl)

one_entry-bounds :
    (one_entry.max_entries ≡ 2) × (one_entry.max_bytes ≡ 6) × (one_entry.max_entry_bytes ≡ 4)
unfolding cache
one_entry-bounds = (refl, refl, refl)

ok_status : cacheable_status 200 ≡ true
unfolding cache
ok_status = refl

Reach-IsBounded_example : IsBounded (purge_host (codes "a.test") one_entry)
Reach-IsBounded_example =
    Reach-IsBounded 2 6 4
      (next (next here (stored home (reply 9 (1 ∷ 2 ∷ 3 ∷ [])))) (purged (codes "a.test")))

get-set_response_example :
    ((set_response (codes "GET b.test /") (reply 9 (7 ∷ [])) one_entry).1 ≡ true)
    × ((get_response 5
          (codes "GET b.test /")
          (set_response (codes "GET b.test /") (reply 9 (7 ∷ [])) one_entry).0).1
        ≡ (if leb 9 5 then none else some (reply 9 (7 ∷ []))))
get-set_response_example =
    get-set_response 5 (codes "GET b.test /") (reply 9 (7 ∷ [])) one_entry ok_status
      (omega (arith, one_entry-bounds)) (omega (arith, one_entry-bounds, one_entry-bytes))
      (omega (arith, one_entry-bounds, one_entry-bytes))

-- Three bytes an entry would fit, but the cache as a whole holds two.
abbrev tight_cache : EdgeCache
tight_cache = (set_response home (reply 9 (1 ∷ [])) (new_cache 2 2 4)).0

tight_cache-entries : tight_cache.entries ≡ (home, reply 9 (1 ∷ [])) ∷ []
unfolding cache
tight_cache-entries = refl

tight_cache-bounds :
    (tight_cache.max_bytes ≡ 2) × (tight_cache.bytes ≡ 1) × (tight_cache.max_entry_bytes ≡ 4)
unfolding cache
tight_cache-bounds = (refl, refl, refl)

set_response-self_example :
    ((set_response home (reply 9 (1 ∷ 2 ∷ 3 ∷ [])) tight_cache).1 ≡ true)
    × (Dict.get home (set_response home (reply 9 (1 ∷ 2 ∷ 3 ∷ [])) tight_cache).0.entries ≡ none)
set_response-self_example =
    set_response_self home (reply 9 (1 ∷ [])) (reply 9 (1 ∷ 2 ∷ 3 ∷ [])) [] tight_cache
      (Reach-IsBounded 2 2 4 (next here (stored home (reply 9 (1 ∷ []))))) tight_cache-entries
      ok_status (omega (arith, tight_cache-bounds)) (omega (arith, tight_cache-bounds))
