-- ===== src/Edge/Cache/Lookup.antt =====
-- services/edge/src/cache.ts: what a read finds after a write.
use sproutboat.Base.{
  ℕ, ◌+◌, ◌-◌, ◌≤◌, ◌<◌, ◌≡◌, sym, refl, Bool, true, ◌||◌, not, Option, none, some, [], ◌∷◌, length,
  ltb, leb, arith, if◌then◌else◌, if_ind,
}
use sproutboat.Base.Codes.{Text, text_eq_inst, text_eq_self}
use sproutboat.Base.Dict
use mathlib.Core.Path.{subst}
use sproutboat.Base.Dict.{Dict, get-insert_self, length-insert}
use sproutboat.Edge.Cache.{
  CachedResponse, EdgeCache, cacheable_status, get_response, evict_oldest, existing_bytes,
  set_response,
}
use sproutboat.Edge.Cache.Valid.{IsBounded, evict_oldest-none}

-- Within both bounds the loop evicts nothing.
evict_oldest-within :
    (e b : ℕ) (m : Dict Text CachedResponse) (bytes : ℕ)
    → length m ≤ e
    → bytes ≤ b
    → evict_oldest e b m bytes ≡ (m, bytes)
unfolding evict_oldest
evict_oldest-within e b [] bytes h k = refl
evict_oldest-within e b ((j, r) ∷ m) bytes h k = ground arith

-- The bytes and the entries when the eviction loop starts.
abbrev grown : Text → CachedResponse → EdgeCache → ℕ
grown key r c = c.bytes - existing_bytes (Dict.get key c.entries) + length r.body

abbrev evicted : Text → CachedResponse → EdgeCache → Dict Text CachedResponse × ℕ
evicted key r c =
    evict_oldest c.max_entries c.max_bytes (Dict.insert key r c.entries) (grown key r c)

-- The write of a response that may be cached and fits one entry.
set_response-evicted :
    (key : Text) (r : CachedResponse) (c : EdgeCache)
    → cacheable_status r.status ≡ true
    → length r.body ≤ c.max_entry_bytes
    → set_response key r c
      ≡ (record c { entries = (evicted key r c).0; bytes = (evicted key r c).1 }, true)
unfolding set_response
set_response-evicted key r c ok fits =
    if_ind {A = EdgeCache × Bool}
      (λ z. z ≡ (record c { entries = (evicted key r c).0; bytes = (evicted key r c).1 }, true))
      (not (cacheable_status r.status) || ltb c.max_entry_bytes (length r.body)) _ _
      (λ refused. absurd (ground arith)) (λ _. refl)

-- A cacheable response that fits one entry, in a cache with room for it beside all it holds, is
-- stored: a read with no other operation in between is served it before it expires, and nothing
-- from then on.
pub get-set_response :
    (clock : ℕ) (key : Text) (r : CachedResponse) (c : EdgeCache)
    → cacheable_status r.status ≡ true
    → length r.body ≤ c.max_entry_bytes
    → length c.entries + 1 ≤ c.max_entries
    → c.bytes + length r.body ≤ c.max_bytes
    → ((set_response key r c).1 ≡ true)
      × ((get_response clock key (set_response key r c).0).1
          ≡ (if leb r.expires_at clock then none else some r))
unfolding get_response
get-set_response clock key r c ok fits room space =
    let within =
      evict_oldest-within c.max_entries c.max_bytes (Dict.insert key r c.entries) (grown key r c)
        (omega (arith, length-insert key r c.entries)) (omega arith) in
    rw (set_response-evicted key r c ok fits, within)
      (
        refl,
        rw (get-insert_self key r c.entries, get_response)
            (if_ind {A = EdgeCache × Option CachedResponse}
              (λ z. z.1 ≡ (if leb r.expires_at clock then none else some r))
              (leb r.expires_at clock) _ _ (λ e. rw e) (λ e. rw e)),
      )

self_evicted :
    (e b : ℕ) (key : Text) (old r : CachedResponse) (rest : Dict Text CachedResponse) (bytes : ℕ)
    → Dict.get key rest ≡ none
    → b < bytes - length old.body + length r.body
    → Dict.get key
        (evict_oldest e b
          (Dict.insert key r ((key, old) ∷ rest))
          (bytes - existing_bytes (Dict.get key ((key, old) ∷ rest)) + length r.body)).0
      ≡ none
unfolding evict_oldest Dict.get Dict.insert existing_bytes
self_evicted e b key old r rest bytes absent over = rw (text_eq_self key) (
    if_ind {A = Dict Text CachedResponse × ℕ} (λ z. Dict.get key z.0 ≡ none)
      (ltb e (length rest + 1) || ltb b (bytes - length old.body + length r.body)) _ _
      (λ _. evict_oldest-none e b key rest _ absent) (λ h. absurd (ground arith)))

-- In a cache that keeps its invariant, the oldest entry is written anew with a cacheable body that
-- fits one entry but no longer the cache: the write says that the response was stored, and evicts
-- it at once.
pub set_response_self :
    (key : Text) (old r : CachedResponse) (rest : Dict Text CachedResponse) (c : EdgeCache)
    → IsBounded c
    → c.entries ≡ (key, old) ∷ rest
    → cacheable_status r.status ≡ true
    → length r.body ≤ c.max_entry_bytes
    → c.max_bytes < c.bytes - length old.body + length r.body
    → ((set_response key r c).1 ≡ true) × (Dict.get key (set_response key r c).0.entries ≡ none)
set_response_self key old r rest c v e ok fits over = rw (set_response-evicted key r c ok fits) (
  refl,
  subst
      (λ m.
        Dict.get key
          (evict_oldest c.max_entries c.max_bytes (Dict.insert key r m)
            (c.bytes - existing_bytes (Dict.get key m) + length r.body)).0
        ≡ none)
      (sym e)
      (self_evicted c.max_entries c.max_bytes key old r rest c.bytes
        (subst Dict.Unique e v.unique).0 over),
)
