-- ===== src/Control/Limits/Certificates/Renewal.antt =====
-- apps/control/src/limits.ts, `tlsIssuanceAllowed`: repeated calls for one hostname.
use sproutboat.Base.{
  ℕ, ◌+◌, ◌*◌, ◌≤◌, ◌<◌, ◌≡◌, refl, Bool, true, false, some, List, [], ◌∷◌, length, leb,
  if◌then◌else◌, arith, if_ind, Bool-cases, inl, inr,
}
use sproutboat.Base.Codes.{Text, text_eq, text_eq_inst, text_eq_iff}
use sproutboat.Base.Dict
use sproutboat.Base.Dict.{Dict, get-insert, get-insert_self}
use sproutboat.Control.Limits.Certificates.{
  Issuance, hour_ms, recent, forget_old, seen_today, approve_new, tls_issuance_allowed,
}
use sproutboat.Control.Limits.Certificates.Ceiling.{Calls, start, call}

-- The hostname was noted between two times.
abbrev Noted : Text → ℕ → ℕ → Dict Text ℕ → Type 0
Noted hostname c d seen = (ms : ℕ) × (Dict.get hostname seen ≡ some ms) × (c ≤ ms) × (ms ≤ d)

forget_old-get :
    (k : Text) (ms d : ℕ) (seen : Dict Text ℕ)
    → Dict.get k seen ≡ some ms
    → d ≤ ms + 48 * hour_ms
    → Dict.get k (forget_old d seen) ≡ some ms
unfolding Dict.get forget_old
forget_old-get k ms d [] h l = h
forget_old-get k ms d ((j, w) ∷ seen) h l =
    ground (arith, text_eq_iff j k, forget_old-get k ms d seen)

insert-Noted :
    (hostname other : Text) (c b d : ℕ) (seen : Dict Text ℕ)
    → Noted hostname c b seen
    → b ≤ d
    → Noted hostname c d (Dict.insert other d seen)
insert-Noted hostname other c b d seen (ms, e, l, u) h =
    elim (Bool-cases (text_eq other hostname)) [
      | inl same ↦ (d, rw (get-insert other hostname d seen, same) refl, omega arith, omega arith)
      | inr ne ↦ (ms, rw (get-insert other hostname d seen, ne) e, l, omega arith)
    ]

insert-Noted_self :
    (hostname : Text) (d : ℕ) (seen : Dict Text ℕ)
    → Noted hostname d d (Dict.insert hostname d seen)
insert-Noted_self hostname d seen = (d, get-insert_self hostname d seen, omega arith, omega arith)

-- The map is trimmed or not.
forget-Noted :
    (hostname : Text) (c d : ℕ) (trims : Bool) (seen : Dict Text ℕ)
    → Noted hostname c d seen
    → d < c + 24 * hour_ms
    → Noted hostname c d (if trims then forget_old d seen else seen)
forget-Noted hostname c d true seen (ms, e, l, u) h =
    (ms, forget_old-get hostname ms d seen e (omega arith), l, u)
forget-Noted hostname c d false seen noted h = noted

call-Noted :
    (hostname other : Text) (cap c b d : ℕ) (s : Issuance)
    → Noted hostname c b s.seen
    → b ≤ d
    → d < c + 24 * hour_ms
    → Noted hostname c d (tls_issuance_allowed other d cap s).0.seen
unfolding tls_issuance_allowed approve_new
call-Noted hostname other cap c b d s (ms, e, l, u) h k =
    let noted = insert-Noted hostname other c b d s.seen (ms, e, l, u) h in
    if_ind {A = Issuance × Bool} (λ z. Noted hostname c d z.0.seen)
      (seen_today d (Dict.get other s.seen)) _ _ (λ _. noted)
      (λ _.
        if_ind {A = Issuance × Bool} (λ z. Noted hostname c d z.0.seen)
          (leb cap (length (recent d s.approvals))) _ _ (λ _. (ms, e, l, omega arith))
          (λ _. forget-Noted hostname c d _ (Dict.insert other d s.seen) noted k))

allowed-Noted :
    (hostname : Text) (cap d : ℕ) (s : Issuance)
    → (tls_issuance_allowed hostname d cap s).1 ≡ true
    → Noted hostname d d (tls_issuance_allowed hostname d cap s).0.seen
unfolding tls_issuance_allowed approve_new
allowed-Noted hostname cap d s =
    if_ind {A = Issuance × Bool} (λ z. z.1 ≡ true → Noted hostname d d z.0.seen)
      (seen_today d (Dict.get hostname s.seen)) _ _ (λ _ _. insert-Noted_self hostname d s.seen)
      (λ _.
        if_ind {A = Issuance × Bool} (λ z. z.1 ≡ true → Noted hostname d d z.0.seen)
          (leb cap (length (recent d s.approvals))) _ _ (λ _ refused. absurd (cc refused))
          (λ _ _.
            forget-Noted hostname d d _ (Dict.insert hostname d s.seen)
              (insert-Noted_self hostname d s.seen) (omega arith)))

Noted-allowed :
    (hostname : Text) (cap c b d : ℕ) (s : Issuance)
    → Noted hostname c b s.seen
    → d < c + 24 * hour_ms
    → (tls_issuance_allowed hostname d cap s).1 ≡ true
unfolding tls_issuance_allowed seen_today
Noted-allowed hostname cap c b d s (ms, e, l, u) h = rw (e, seen_today) (ground arith)

Calls-Noted :
    (cap since : ℕ) (hostname : Text) (s0 : Issuance) {clock : ℕ} {s : Issuance} {log : List ℕ}
    → Noted hostname since since s0.seen
    → Calls cap since s0 clock s log
    → clock < since + 24 * hour_ms
    → Noted hostname since clock s.seen
Calls-Noted cap since hostname s0 noted start k = noted
Calls-Noted cap since hostname s0 noted (call {before} {s} other clock calls h) k =
    call-Noted hostname other cap since before clock s
      (Calls-Noted cap since hostname s0 noted calls (omega arith)) h k

-- Once a hostname is allowed, it is allowed at every later time within a day, whatever other calls
-- come between, in the order of their times, and however full the hour is.
pub Calls-again :
    (cap since : ℕ) (hostname : Text) (s0 : Issuance) {clock : ℕ} {s : Issuance} {log : List ℕ}
    (d : ℕ)
    → (tls_issuance_allowed hostname since cap s0).1 ≡ true
    → Calls cap since (tls_issuance_allowed hostname since cap s0).0 clock s log
    → clock ≤ d
    → d < since + 24 * hour_ms
    → (tls_issuance_allowed hostname d cap s).1 ≡ true
Calls-again cap since hostname s0 {clock} {s} {log} d allowed calls h k =
    Noted-allowed hostname cap since clock d s
      (Calls-Noted cap since hostname _ (allowed-Noted hostname cap since s0 allowed) calls
        (omega arith))
      k
