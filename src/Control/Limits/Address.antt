-- ===== src/Control/Limits/Address.antt =====
-- apps/control/src/limits.ts: which peers are trusted proxies, and the caller's address.
pub mod Laws
use sproutboat.Base.{
  ℕ, ◌+◌, ◌-◌, ◌*◌, ◌/◌, ◌^◌, Bool, true, false, ◌&&◌, ◌||◌, not, Option, none, some, List, [], ◌∷◌,
  length, any, all, ltb, leb, ◌==◌, if◌then◌else◌,
}
use sproutboat.Base.Codes.{Text, codes, text_eq}
use sproutboat.Base.Split.{split, last, trim, starts_with, drop}

unfoldable pub is_digit : ℕ → Bool
is_digit c = leb 48 c && leb c 57

unfoldable pub digits_value : ℕ → Text → ℕ
digits_value v [] = v
digits_value v (c ∷ s) = digits_value (v * 10 + (c - 48)) s

-- `/^\d{1,3}$/.test(part) && Number(part) <= 255`
unfoldable pub octet : Text → Option ℕ
unfolding is_digit digits_value
octet part =
    let value = digits_value 0 part in
    if all is_digit part && leb 1 (length part) && leb (length part) 3 && leb value 255
    then some value
    else none

unfoldable pub octets_value : ℕ → List Text → Option ℕ
octets_value value [] = some value
octets_value value (part ∷ parts) = elim (octet part) [
  | none ↦ none
  | some v ↦ octets_value (value * 256 + v) parts
]

unfoldable pub ipv4_to_int : Text → Option ℕ
unfolding octets_value
ipv4_to_int address =
    let parts = split 46 address in if length parts == 4 then octets_value 0 parts else none

unfoldable pub same_prefix : Option ℕ → Option ℕ → Option ℕ → Bool
same_prefix (some a) (some b) (some prefix) =
    if ltb 32 prefix
    then false
    else if prefix == 0
    then true
    else (let shift = 32 - prefix in a / 2 ^ shift == b / 2 ^ shift)
same_prefix _ _ _ = false

-- What `clientIp` reads of a request's headers.
pub record Forwarding : Type 0 where
  pub forwarded_for : Option Text
  pub real_ip : Option Text

-- `value ? value : other`, for a text that may be missing or empty.
unfoldable pub present_or : Option Text → Text → Text
present_or none other = other
present_or (some []) other = other
present_or (some (c ∷ s)) other = c ∷ s

unfoldable pub trimmed : Option Text → Option Text
trimmed none = none
trimmed (some s) = some (trim s)

unfoldable pub forwarded_hop : Option Text → Option Text
unfolding trimmed
forwarded_hop none = none
forwarded_hop (some forwarded) = trimmed (last (split 44 forwarded))

-- `lower` is the runtime's `toLowerCase`.
unfoldable pub normalize_address : (Text → Text) → Text → Text
normalize_address lower address =
    let lowered = lower (trim address) in
    if starts_with (codes "::ffff:") lowered && any (λ c. c == 46) lowered
    then drop 7 lowered
    else lowered

-- `lower` is the runtime's `toLowerCase`, `integer` the value that `Number` reads when that is
-- a natural number (a negative, fractional or unreadable prefix length is refused alike).
module _ (lower : Text → Text) (integer : Text → Option ℕ) where
  unfoldable pub matches_parts : Text → List Text → Bool
  unfolding normalize_address ipv4_to_int same_prefix
  matches_parts peer [] = false
  matches_parts peer (base ∷ []) =
      text_eq (normalize_address lower peer) (normalize_address lower base)
  matches_parts peer (base ∷ bits ∷ _) =
      same_prefix (ipv4_to_int (normalize_address lower peer))
        (ipv4_to_int (normalize_address lower base)) (integer bits)

  unfoldable pub matches_proxy : Text → Text → Bool
  unfolding matches_parts
  matches_proxy peer entry = matches_parts peer (split 47 entry)

  unfoldable pub trusted_entry : Text → Text → Bool
  unfolding matches_proxy
  trusted_entry peer entry =
      let trimmed = trim entry in not (text_eq trimmed []) && matches_proxy peer trimmed

  -- `proxies` is SPROUTBOAT_TRUSTED_PROXIES, or empty.
  unfoldable pub trusted_proxy : Text → Text → Bool
  unfolding trusted_entry normalize_address
  trusted_proxy proxies peer =
      let normal = normalize_address lower peer in
      if text_eq normal (codes "::1") || starts_with (codes "127.") normal
      then true
      else any (trusted_entry peer) (split 44 proxies)

  unfoldable pub known_client : Text → Text → Forwarding → Text
  unfolding trusted_proxy normalize_address present_or forwarded_hop
  known_client proxies peer headers =
      if not (trusted_proxy proxies peer)
      then normalize_address lower peer
      else present_or (forwarded_hop headers.forwarded_for)
          (present_or (trimmed headers.real_ip) (normalize_address lower peer))

  -- `clientIp`; the peer is what the socket lookup gives.
  unfoldable pub client_ip : Text → Option Text → Forwarding → Text
  unfolding known_client
  client_ip proxies none headers = codes "unknown"
  client_ip proxies (some []) headers = codes "unknown"
  client_ip proxies (some (c ∷ peer)) headers = known_client proxies (c ∷ peer) headers
