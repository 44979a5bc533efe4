-- ===== src/Edge/Cache/Purge.antt =====
-- services/edge/src/cache.ts, `purgeHost`: whose entries are dropped.
use sproutboat.Base.{
  ℕ, ◌-◌, ◌≡◌, ◌≢◌, refl, ap, none, some, [], ◌∷◌, ◌++◌, length, arith, if◌then◌else◌, All,
}
use sproutboat.Base.Codes.{Text, text_eq_inst, text_eq, text_eq_iff}
use sproutboat.Base.Dict
use sproutboat.Base.Dict.{Dict}
use sproutboat.Edge.Cache.{
  CachedResponse, EdgeCache, cache_key, until_space, second_part, is_for_host, purge_entries,
  purge_host,
}

abbrev pub NoSpace : Text → Type 0
NoSpace = All (λ c. c ≢ 32)

until_space-append : (host path : Text) → NoSpace host → until_space (host ++ 32 ∷ path) ≡ host
unfolding until_space
until_space-append [] path h = refl
until_space-append (c ∷ host) path h = ground (arith, until_space-append host path)

second_part-cache_key :
    (host method path : Text)
    → NoSpace host
    → NoSpace method
    → second_part (cache_key host method path) ≡ some host
unfolding second_part cache_key
second_part-cache_key host [] path h k = ap some (until_space-append host path h)
second_part-cache_key host (c ∷ method) path h k =
    ground (arith, second_part-cache_key host method path h)

purge_entries-get :
    (host k : Text) (m : Dict Text CachedResponse) (bytes : ℕ)
    → Dict.get k (purge_entries host m bytes).0
      ≡ (if is_for_host host k then none else Dict.get k m)
unfolding purge_entries Dict.get
purge_entries-get host k [] bytes = ground arith
purge_entries-get host k ((j, r) ∷ m) bytes = ground (
  arith,
  text_eq_iff j k,
  purge_entries-get host k m (bytes - length r.body),
  purge_entries-get host k m bytes,
)

-- Purging a host drops every entry that was stored for it and no entry of another host, for host
-- and method names without spaces.
pub get-purge_host :
    (host other method path : Text) (c : EdgeCache)
    → NoSpace other
    → NoSpace method
    → Dict.get (cache_key other method path) (purge_host host c).entries
      ≡ (if text_eq other host then none else Dict.get (cache_key other method path) c.entries)
unfolding purge_host is_for_host
get-purge_host host other method path c h k =
    rw (purge_entries-get host (cache_key other method path) c.entries c.bytes)
      (rw (second_part-cache_key other method path h k, is_for_host))
