-- ===== src/Control/Limits/Address/Laws.antt =====
-- apps/control/src/limits.ts, `ipv4ToInt` and `clientIp`: what an address reads as, and who can
-- choose the caller's address.
use sproutboat.Base.{
  ℕ, ◌+◌, ◌*◌, ◌/◌, ◌%◌, ◌^◌, ◌≤◌, ◌<◌, ◌≡◌, ◌≢◌, ap, ◌∙◌, refl, true, false, Option, none, some,
  List, [], ◌∷◌, ◌++◌, length, ltb, ◌==◌, if◌then◌else◌, arith, if_ind, Option-cases, inl, inr, All,
}
use sproutboat.Base.Codes.{Text}
use sproutboat.Base.Split.{split, split-All, split-append, last-split, trim}
use sproutboat.Control.Limits.Address.{
  is_digit, digits_value, octet, octets_value, ipv4_to_int, normalize_address, trusted_proxy,
  Forwarding, present_or, trimmed, forwarded_hop, known_client, client_ip,
}

-- A number below 1000 in decimal digits.
pub decimal : ℕ → Text
decimal n =
    if ltb n 10
    then (48 + n) ∷ []
    else if ltb n 100
    then (48 + n / 10) ∷ (48 + n % 10) ∷ []
    else (48 + n / 100) ∷ (48 + n / 10 % 10) ∷ (48 + n % 10) ∷ []

pub dotted : ℕ → ℕ → ℕ → ℕ → Text
dotted a b c d = decimal a ++ 46 ∷ (decimal b ++ 46 ∷ (decimal c ++ 46 ∷ decimal d))

octet-decimal : (n : ℕ) → n < 256 → octet (decimal n) ≡ some n
unfolding octet is_digit digits_value decimal
octet-decimal n h = ground arith

decimal-All : (n : ℕ) → All (λ c. c ≢ 46) (decimal n)
unfolding decimal
decimal-All n = ground arith

split-dotted :
    (a b c d : ℕ) → split 46 (dotted a b c d) ≡ decimal a ∷ decimal b ∷ decimal c ∷ decimal d ∷ []
unfolding dotted
split-dotted a b c d =
    split-append 46 (decimal a) (decimal b ++ 46 ∷ (decimal c ++ 46 ∷ decimal d)) (decimal-All a)
    ∙ ap (λ ps. decimal a ∷ ps)
        (split-append 46 (decimal b) (decimal c ++ 46 ∷ decimal d) (decimal-All b)
          ∙ ap (λ ps. decimal b ∷ ps)
              (split-append 46 (decimal c) (decimal d) (decimal-All c)
                ∙ ap (λ ps. decimal c ∷ ps) (split-All 46 (decimal d) (decimal-All d))))

-- An address in dotted decimals reads as the number it stands for.
pub ipv4_to_int-dotted :
    (a b c d : ℕ)
    → a < 256
    → b < 256
    → c < 256
    → d < 256
    → ipv4_to_int (dotted a b c d) ≡ some (a * 2 ^ 24 + b * 2 ^ 16 + c * 2 ^ 8 + d)
unfolding ipv4_to_int octets_value
ipv4_to_int-dotted a b c d ha hb hc hd = rw (split-dotted a b c d) (
    rw (octet-decimal a ha, octets_value)
      (rw (octet-decimal b hb, octets_value)
        (rw (octet-decimal c hc, octets_value)
          (rw (octet-decimal d hd, octets_value) (ap some (omega arith))))))

octet_bounds : (part : Text) (v : ℕ) → octet part ≡ some v → v ≤ 255
unfolding octet
octet_bounds part v h = ground (arith, h)

-- What stays above the value while the parts are read.
ceiling : ℕ → List Text → ℕ
ceiling w [] = w
ceiling w (p ∷ ps) = ceiling (w * 256) ps

octets_value-bounds :
    (ps : List Text) (value result w : ℕ)
    → value < w
    → octets_value value ps ≡ some result
    → result < ceiling w ps
unfolding octets_value ceiling
octets_value-bounds [] value result w h = λ e. ground arith
octets_value-bounds (p ∷ ps) value result w h = elim (Option-cases (octet p)) [
  | inl bad ↦ rw (bad, octets_value) (λ e. absurd (cc e))
  | inr (v, good) ↦
      rw (good, octets_value)
        (octets_value-bounds ps (value * 256 + v) result (w * 256)
          (omega (arith, octet_bounds p v good)))
]

four_parts : (ps : List Text) → length ps ≡ 4 → ceiling 1 ps ≡ 2 ^ 32
unfolding ceiling
four_parts (a ∷ b ∷ c ∷ d ∷ []) h = refl
four_parts [] h = absurd (omega (arith, h))
four_parts (a ∷ []) h = absurd (omega (arith, h))
four_parts (a ∷ b ∷ []) h = absurd (omega (arith, h))
four_parts (a ∷ b ∷ c ∷ []) h = absurd (omega (arith, h))
four_parts (a ∷ b ∷ c ∷ d ∷ e ∷ ps) h = absurd (omega (arith, h))

-- Whatever is read as an address is a 32-bit number.
pub ipv4_to_int-bounds : (s : Text) (v : ℕ) → ipv4_to_int s ≡ some v → v < 2 ^ 32
unfolding ipv4_to_int
ipv4_to_int-bounds s v =
    if_ind {A = Option ℕ} (λ z. z ≡ some v → v < 2 ^ 32) (length (split 46 s) == 4) _ none
      (λ four e. omega (
        arith,
        octets_value-bounds (split 46 s) 0 v 1 (omega arith) e,
        four_parts (split 46 s) (ground arith),
      ))
      (λ _ e. absurd (cc e))

module _ (lower : Text → Text) (integer : Text → Option ℕ) (proxies : Text) (peer : Text) where
  -- A peer that is not a trusted proxy cannot choose its address by headers.
  pub client_ip-untrusted :
      (c : ℕ) (rest : Text) (headers : Forwarding)
      → peer ≡ c ∷ rest
      → trusted_proxy lower integer proxies peer ≡ false
      → client_ip lower integer proxies (some peer) headers ≡ normalize_address lower peer
  unfolding client_ip known_client
  client_ip-untrusted c rest headers e untrusted = rw e (rw (rw e at untrusted) refl)

  -- Behind a trusted proxy the address is the last hop of `x-forwarded-for`, which the proxy
  -- appended, if that hop has no comma and is not blank, whatever the caller wrote before it and
  -- in the other header.
  pub client_ip-forwarded :
      (c : ℕ) (rest spoofed hop : Text) (d : ℕ) (hops : Text) (real_ip : Option Text)
      → peer ≡ c ∷ rest
      → trusted_proxy lower integer proxies peer ≡ true
      → All (λ x. x ≢ 44) hop
      → trim hop ≡ d ∷ hops
      → client_ip lower integer proxies
          (some peer)
          (record { forwarded_for = some (spoofed ++ 44 ∷ hop); real_ip = real_ip })
        ≡ trim hop
  unfolding client_ip known_client forwarded_hop trimmed
  client_ip-forwarded c rest spoofed hop d hops real_ip e trusted one shown = rw e (
      rw (rw e at trusted)
        (rw (last-split 44 spoofed hop one, trimmed) (rw (shown, present_or) refl)))
