-- ===== src/Edge/Cache/Valid.antt =====
-- services/edge/src/cache.ts: the cache's invariant, and its operations as steps.
use sproutboat.Base.{
  ℕ, ◌+◌, ◌-◌, ◌≤◌, ◌≡◌, ap, sym, ◌∙◌, refl, Bool, false, ◌||◌, not, Option, none, some, [], ◌∷◌,
  length, ltb, leb, arith, if_ind, Bool-cases, Option-cases, inl, inr,
}
use sproutboat.Base.Codes.{Text, text_eq_inst, text_eq, text_eq_iff}
use sproutboat.Base.Dict
use sproutboat.Base.Dict.{
  Dict, get-delete, insert-Unique, delete-Unique, delete_absent, length-delete,
}
use sproutboat.Edge.Cache.{
  CachedResponse, EdgeCache, new_cache, cacheable_status, get_response, evict_oldest,
  existing_bytes, set_response, is_for_host, purge_entries, purge_host,
}

-- The bytes of all bodies.
pub total : Dict Text CachedResponse → ℕ
total [] = 0
total ((key, r) ∷ m) = length r.body + total m

-- The counter is the sum of the bodies, no key stands twice, and both bounds are kept.
pub record IsBounded (c : EdgeCache) : Type 0 where
  pub counted : c.bytes ≡ total c.entries
  pub unique : Dict.Unique c.entries
  pub few : length c.entries ≤ c.max_entries
  pub small : c.bytes ≤ c.max_bytes

-- In a map of distinct keys a key's own bytes are part of the sum.
total-delete :
    (k : Text) (m : Dict Text CachedResponse)
    → Dict.Unique m
    → total (Dict.delete k m) + existing_bytes (Dict.get k m) ≡ total m
unfolding total Dict.delete Dict.get existing_bytes
total-delete k [] u = omega arith
total-delete k ((j, r) ∷ m) u = elim (Bool-cases (text_eq j k)) [
  | inl same ↦ rw same (
      omega (
        arith,
        ap total
            (delete_absent k m (ap (λ x. Dict.get x m) (sym ((text_eq_iff j k).0 same)) ∙ u.0)),
      ))
  | inr other ↦ rw other (omega (arith, total-delete k m u.1))
]

total-insert :
    (k : Text) (r : CachedResponse) (m : Dict Text CachedResponse)
    → total (Dict.insert k r m) + existing_bytes (Dict.get k m) ≡ total m + length r.body
unfolding total Dict.insert Dict.get existing_bytes
total-insert k r [] = omega arith
total-insert k r ((j, w) ∷ m) = elim (Bool-cases (text_eq j k)) [
  | inl same ↦ rw same (omega arith)
  | inr other ↦ rw other (omega (arith, total-insert k r m))
]

total-get :
    (k : Text) (r : CachedResponse) (m : Dict Text CachedResponse)
    → Dict.get k m ≡ some r
    → length r.body ≤ total m
unfolding total Dict.get
total-get k r [] h = absurd (cc h)
total-get k r ((j, w) ∷ m) h = ground (arith, total-get k r m)

-- The eviction loop ends within both bounds, and its counter stays the sum.
evict_oldest_bounds :
    (max_entries max_bytes : ℕ) (m : Dict Text CachedResponse) (bytes : ℕ)
    → bytes ≡ total m
    → ((evict_oldest max_entries max_bytes m bytes).1
        ≡ total (evict_oldest max_entries max_bytes m bytes).0)
      × (length (evict_oldest max_entries max_bytes m bytes).0 ≤ max_entries)
      × ((evict_oldest max_entries max_bytes m bytes).1 ≤ max_bytes)
unfolding evict_oldest total
evict_oldest_bounds e b [] bytes h = (h, omega arith, omega arith)
evict_oldest_bounds e b ((k, r) ∷ m) bytes h =
    ground (arith, evict_oldest_bounds e b m (bytes - length r.body))

-- A key that the loop keeps was there.
pub evict_oldest-none :
    (e b : ℕ) (k : Text) (m : Dict Text CachedResponse) (bytes : ℕ)
    → Dict.get k m ≡ none
    → Dict.get k (evict_oldest e b m bytes).0 ≡ none
unfolding evict_oldest Dict.get
evict_oldest-none e b k [] bytes h = refl
evict_oldest-none e b k ((j, r) ∷ m) bytes h =
    ground (arith, evict_oldest-none e b k m (bytes - length r.body))

evict_oldest-Unique :
    (e b : ℕ) (m : Dict Text CachedResponse) (bytes : ℕ)
    → Dict.Unique m
    → Dict.Unique (evict_oldest e b m bytes).0
unfolding evict_oldest
evict_oldest-Unique e b [] bytes u = tt
evict_oldest-Unique e b ((j, r) ∷ m) bytes u =
    ground (arith, evict_oldest-Unique e b m (bytes - length r.body))

pub new_cache-IsBounded : (e b m : ℕ) → IsBounded (new_cache e b m)
unfolding new_cache total
new_cache-IsBounded e b m = record {
  counted = refl;
  unique = tt;
  few = omega arith;
  small = omega arith;
}

expired-IsBounded :
    (key : Text) (hit : CachedResponse) (c : EdgeCache)
    → IsBounded c
    → Dict.get key c.entries ≡ some hit
    → IsBounded
        (record c { entries = Dict.delete key c.entries; bytes = c.bytes - length hit.body })
unfolding existing_bytes
expired-IsBounded key hit c v e = record {
  counted = omega (arith, rw e at (total-delete key c.entries v.unique), v.counted);
  unique = delete-Unique key c.entries v.unique;
  few = omega (arith, length-delete key c.entries, v.few);
  small = omega (arith, v.small);
}

pub get_response-IsBounded :
    (clock : ℕ) (key : Text) (c : EdgeCache) → IsBounded c → IsBounded (get_response clock key c).0
unfolding get_response
get_response-IsBounded clock key c v = elim (Option-cases (Dict.get key c.entries)) [
  | inl e ↦ rw (e, get_response) v
  | inr (hit, e) ↦
      rw (e, get_response)
        (if_ind {A = EdgeCache × Option CachedResponse} (λ z. IsBounded z.0)
          (leb hit.expires_at clock) _ (c, some hit) (λ _. expired-IsBounded key hit c v e)
          (λ _. v))
]

stored-IsBounded :
    (key : Text) (r : CachedResponse) (c : EdgeCache)
    → IsBounded c
    → (let bytes = c.bytes - existing_bytes (Dict.get key c.entries) + length r.body in
        let (kept, left) =
          evict_oldest c.max_entries c.max_bytes (Dict.insert key r c.entries) bytes in
        IsBounded (record c { entries = kept; bytes = left }))
unfolding existing_bytes
stored-IsBounded key r c v =
    let bytes = c.bytes - existing_bytes (Dict.get key c.entries) + length r.body in
    let m = Dict.insert key r c.entries in
    let (counted, few, small) = evict_oldest_bounds c.max_entries c.max_bytes m bytes (
      omega
        (arith, total-insert key r c.entries, total-delete key c.entries v.unique, v.counted)) in
    record {
      counted = counted;
      unique =
          evict_oldest-Unique c.max_entries c.max_bytes m bytes
            (insert-Unique key r c.entries v.unique);
      few = few;
      small = small;
    }

pub set_response-IsBounded :
    (key : Text) (r : CachedResponse) (c : EdgeCache)
    → IsBounded c
    → IsBounded (set_response key r c).0
unfolding set_response
set_response-IsBounded key r c v =
    if_ind {A = EdgeCache × Bool} (λ z. IsBounded z.0)
      (not (cacheable_status r.status) || ltb c.max_entry_bytes (length r.body)) (c, false) _
      (λ _. v) (λ _. stored-IsBounded key r c v)

purge-none :
    (host k : Text) (m : Dict Text CachedResponse) (bytes : ℕ)
    → Dict.get k m ≡ none
    → Dict.get k (purge_entries host m bytes).0 ≡ none
unfolding purge_entries Dict.get
purge-none host k [] bytes h = refl
purge-none host k ((j, r) ∷ m) bytes h =
    ground (arith, purge-none host k m (bytes - length r.body), purge-none host k m bytes)

purge-facts :
    (host : Text) (m : Dict Text CachedResponse) (bytes : ℕ)
    → Dict.Unique m
    → total m ≤ bytes
    → ((purge_entries host m bytes).1 + total m ≡ total (purge_entries host m bytes).0 + bytes)
      × Dict.Unique (purge_entries host m bytes).0
      × (length (purge_entries host m bytes).0 ≤ length m)
      × ((purge_entries host m bytes).1 ≤ bytes)
unfolding purge_entries total
purge-facts host [] bytes u h = (omega arith, tt, omega arith, omega arith)
purge-facts host ((j, r) ∷ m) bytes u h = elim (Bool-cases (is_for_host host j)) [
  | inl gone ↦ rw gone (ground (arith, purge-facts host m (bytes - length r.body) u.1))
  | inr kept ↦
      let (a, b, d, e) = purge-facts host m bytes u.1 (omega arith) in
      rw kept (omega (arith, a), (purge-none host j m bytes u.0, b), omega (arith, d), e)
]

pub purge_host-IsBounded :
    (host : Text) (c : EdgeCache) → IsBounded c → IsBounded (purge_host host c)
unfolding purge_host
purge_host-IsBounded host c v =
    let (a, b, d, e) = purge-facts host c.entries c.bytes v.unique (omega (arith, v.counted)) in
    record {
      counted = omega (arith, a, v.counted);
      unique = b;
      few = omega (arith, d, v.few);
      small = omega (arith, e, v.small);
    }

-- What can happen to a cache.
pub data Step (c : EdgeCache) : EdgeCache → Type 0 where
  got : (clock : ℕ) (key : Text) → Step c (get_response clock key c).0
  stored : (key : Text) (r : CachedResponse) → Step c (set_response key r c).0
  purged : (host : Text) → Step c (purge_host host c)

pub data Reach (c : EdgeCache) : EdgeCache → Type 0 where
  here : Reach c c
  next : {d e : EdgeCache} → Reach c d → Step d e → Reach c e

Step-IsBounded : {c d : EdgeCache} → Step c d → IsBounded c → IsBounded d
Step-IsBounded {c} (got clock key) v = get_response-IsBounded clock key c v
Step-IsBounded {c} (stored key r) v = set_response-IsBounded key r c v
Step-IsBounded {c} (purged host) v = purge_host-IsBounded host c v

-- After any sequence of reads, writes and purges of a new cache: the byte counter is the sum of
-- the bodies, no key stands twice, and the entries and the bytes are within their bounds.
pub Reach-IsBounded :
    (entries bytes entry_bytes : ℕ) {c : EdgeCache}
    → Reach (new_cache entries bytes entry_bytes) c
    → IsBounded c
Reach-IsBounded n b m here = new_cache-IsBounded n b m
Reach-IsBounded n b m (next r st) = Step-IsBounded st (Reach-IsBounded n b m r)
