-- ===== src/Control/Limits/Certificates/Ceiling.antt =====
-- apps/control/src/limits.ts, `tlsIssuanceAllowed`: its calls in sequence, and the new hostnames
-- among them.
use sproutboat.Base.{
  ℕ, ◌+◌, ◌≤◌, ◌≡◌, sym, ◌∙◌, refl, Bool, true, false, ◌&&◌, not, List, [], ◌∷◌, ◌++◌, length, ltb,
  leb, if◌then◌else◌, arith, if_ind, Bool-cases, inl, inr,
}
use sproutboat.Base.Codes.{Text, text_eq_inst}
use sproutboat.Base.Dict
use sproutboat.Base.Dict.{Dict, get-insert, get-insert_self}
use sproutboat.Control.Limits.Certificates.{
  Issuance, hour_ms, recent, seen_today, approve_new, tls_issuance_allowed,
}

-- How many of the times lie within the hour before the clock.
pub newer : ℕ → List ℕ → ℕ
newer clock [] = 0
newer clock (ms ∷ log) = (if ltb clock (ms + hour_ms) then 1 else 0) + newer clock log

-- Whether the call approves a hostname that was not seen within a day.
abbrev pub is_new : Text → ℕ → ℕ → Issuance → Bool
is_new hostname clock cap s =
    (tls_issuance_allowed hostname clock cap s).1
    && not (seen_today clock (Dict.get hostname s.seen))

-- Calls of `tlsIssuanceAllowed` in the order of their times, from a state at a time on, with the
-- times at which new hostnames were approved.
pub data Calls (cap since : ℕ) (s0 : Issuance) : ℕ → Issuance → List ℕ → Type 0 where
  start : Calls cap since s0 since s0 []
  call :
      {before : ℕ} {s : Issuance} {log : List ℕ} (hostname : Text) (clock : ℕ)
      → Calls cap since s0 before s log
      → before ≤ clock
      → Calls cap since s0 clock
          (tls_issuance_allowed hostname clock cap s).0
          (if is_new hostname clock cap s then log ++ clock ∷ [] else log)

and_true : (b : Bool) → (b && true) ≡ b
and_true b = ground arith

pub newer-append : (d : ℕ) (xs ys : List ℕ) → newer d (xs ++ ys) ≡ newer d xs + newer d ys
unfolding newer
newer-append d [] ys = omega arith
newer-append d (x ∷ xs) ys = omega (arith, newer-append d xs ys)

newer-recent : (c d : ℕ) (xs : List ℕ) → c ≤ d → newer d (recent c xs) ≡ newer d xs
unfolding newer recent
newer-recent c d [] h = refl
newer-recent c d (x ∷ xs) h = ground (arith, newer-recent c d xs h)

newer-recent_self : (c : ℕ) (xs : List ℕ) → newer c (recent c xs) ≡ length (recent c xs)
unfolding newer recent
newer-recent_self c [] = refl
newer-recent_self c (x ∷ xs) = ground (arith, newer-recent_self c xs)

newer_later : (c d : ℕ) (xs : List ℕ) → c ≤ d → newer d xs ≤ newer c xs
unfolding newer
newer_later c d [] h = omega arith
newer_later c d (x ∷ xs) h = ground (arith, newer_later c d xs h)

-- The state's list stands for the log at every later time, and the log is within the cap.
record Within (cap clock : ℕ) (s : Issuance) (log : List ℕ) : Type 0 where
  same : (d : ℕ) → clock ≤ d → newer d log ≡ newer d s.approvals
  below : newer clock log ≤ cap

Within-later :
    (cap c d : ℕ) (s t : Issuance) (log : List ℕ)
    → Within cap c s log
    → c ≤ d
    → ((e : ℕ) → d ≤ e → newer e t.approvals ≡ newer e s.approvals)
    → Within cap d t log
Within-later cap c d s t log w h eq = record {
  same = λ e k. w.same e (omega arith) ∙ sym (eq e k);
  below = omega (arith, newer_later c d log h, w.below);
}

added-below :
    (cap d : ℕ) (log approvals : List ℕ)
    → newer d log ≡ newer d approvals
    → leb cap (length (recent d approvals)) ≡ false
    → newer d (log ++ d ∷ []) ≤ cap
unfolding newer
added-below cap d log approvals same room = ground (
  arith,
  newer-append d log (d ∷ []),
  newer-recent d d approvals (omega arith),
  newer-recent_self d approvals,
)

approve_new-Within :
    (hostname : Text) (cap c d : ℕ) (s : Issuance) (log : List ℕ)
    → Within cap c s log
    → c ≤ d
    → Within cap d (approve_new hostname d cap s.seen (recent d s.approvals)).0 (
        if (approve_new hostname d cap s.seen (recent d s.approvals)).1 then log ++ d ∷ [] else log)
unfolding approve_new
approve_new-Within hostname cap c d s log w h =
    if_ind {A = Issuance × Bool} (λ z. Within cap d z.0 (if z.1 then log ++ d ∷ [] else log))
      (leb cap (length (recent d s.approvals))) _ _
      (λ full. Within-later cap c d s _ log w h (λ e k. newer-recent d e s.approvals k))
      (λ room. record {
        same = λ e k. omega (
          arith,
          newer-append e log (d ∷ []),
          newer-append e (recent d s.approvals) (d ∷ []),
          newer-recent d e s.approvals k,
          w.same e (omega arith),
        );
        below = added-below cap d log s.approvals (w.same d h) room;
      })

call-Within :
    (hostname : Text) (cap c d : ℕ) (s : Issuance) (log : List ℕ)
    → Within cap c s log
    → c ≤ d
    → Within cap d
        (tls_issuance_allowed hostname d cap s).0
        (if is_new hostname d cap s then log ++ d ∷ [] else log)
unfolding tls_issuance_allowed
call-Within hostname cap c d s log w h =
    elim (Bool-cases (seen_today d (Dict.get hostname s.seen))) [
      | inl again ↦ rw again (Within-later cap c d s _ log w h (λ e k. refl))
      | inr fresh ↦ rw fresh (
          rw (and_true (approve_new hostname d cap s.seen (recent d s.approvals)).1)
            (approve_new-Within hostname cap c d s log w h))
    ]

Calls-Within :
    (cap : ℕ) {clock : ℕ} {s : Issuance} {log : List ℕ}
    → Calls cap 0 (record { seen = []; approvals = [] }) clock s log
    → Within cap clock s log
unfolding newer
Calls-Within cap start = record { same = λ d h. refl; below = omega arith }
Calls-Within cap (call hostname clock calls h) =
    call-Within hostname cap _ clock _ _ (Calls-Within cap calls) h

-- From the start, however the hostnames are chosen and the times, in order: within the hour before
-- the latest call at most `cap` new hostnames were approved.
pub Calls-newer :
    (cap : ℕ) {clock : ℕ} {s : Issuance} {log : List ℕ}
    → Calls cap 0 (record { seen = []; approvals = [] }) clock s log
    → newer clock log ≤ cap
Calls-newer cap calls = (Calls-Within cap calls).below
