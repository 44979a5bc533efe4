-- ===== src/Control/Limits/Certificates.antt =====
-- apps/control/src/limits.ts, `tlsIssuanceAllowed`: the ceiling on certificates for new hostnames.
pub mod Ceiling
pub mod Renewal
pub mod History
use sproutboat.Base.{
  ℕ, ◌+◌, ◌-◌, ◌*◌, ◌≤◌, ◌<◌, ◌≡◌, refl, Bool, true, false, Option, none, some, List, [], ◌∷◌, ◌++◌,
  length, ltb, leb, if◌then◌else◌, arith, if_ind, Bool-cases, Option-cases, inl, inr,
}
use sproutboat.Base.Codes.{Text, text_eq, text_eq_inst}
use sproutboat.Base.Dict
use sproutboat.Base.Dict.{Dict, get-insert, get-insert_self}

pub record Issuance : Type 0 where
  pub seen : Dict Text ℕ
  pub approvals : List ℕ

abbrev pub hour_ms : ℕ
hour_ms = 3600000

unfoldable pub recent : ℕ → List ℕ → List ℕ
recent clock [] = []
recent clock (ms ∷ approvals) =
    let rest = recent clock approvals in if ltb (clock - ms) hour_ms then ms ∷ rest else rest

unfoldable pub forget_old : ℕ → Dict Text ℕ → Dict Text ℕ
forget_old clock [] = []
forget_old clock ((key, ms) ∷ seen) =
    let rest = forget_old clock seen in
    if ltb (48 * hour_ms) (clock - ms) then rest else (key, ms) ∷ rest

-- `last !== undefined && now - last < 24 * HOUR_MS`
unfoldable pub seen_today : ℕ → Option ℕ → Bool
seen_today clock none = false
seen_today clock (some last) = ltb (clock - last) (24 * hour_ms)

unfoldable pub approve_new : Text → ℕ → ℕ → Dict Text ℕ → List ℕ → Issuance × Bool
unfolding forget_old
approve_new hostname clock cap seen approvals =
    if leb cap (length approvals)
    then (record { seen = seen; approvals = approvals }, false)
    else (let noted = Dict.insert hostname clock seen in
        (
          record {
            seen = if ltb 8192 (length noted) then forget_old clock noted else noted;
            approvals = approvals ++ clock ∷ [];
          },
          true,
        ))

unfoldable pub tls_issuance_allowed : Text → ℕ → ℕ → Issuance → Issuance × Bool
unfolding seen_today recent approve_new
tls_issuance_allowed hostname clock cap s =
    if seen_today clock (Dict.get hostname s.seen)
    then (record s { seen = Dict.insert hostname clock s.seen }, true)
    else approve_new hostname clock cap s.seen (recent clock s.approvals)
