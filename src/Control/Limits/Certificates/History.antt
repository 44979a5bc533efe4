-- ===== src/Control/Limits/Certificates/History.antt =====
-- apps/control/src/limits.ts, `tlsIssuanceAllowed`: the ceiling, against the history of what was
-- allowed.
use sproutboat.Base.{
  ℕ, ◌+◌, ◌-◌, ◌*◌, ◌≤◌, ◌≡◌, sym, ap, ◌∙◌, refl, Bool, true, false, ◌&&◌, ◌||◌, not, some, List,
  [], ◌∷◌, ◌++◌, length, ltb, leb, any, All, if◌then◌else◌, arith, if_ind, Bool-cases, Option-cases,
  inl, inr, pair_eq, nat_eq,
}
use sproutboat.Base.Codes.{Text, text_eq, text_eq_iff, text_eq_inst}
use sproutboat.Base.Bag
use sproutboat.Base.Dict
use sproutboat.Base.Dict.{Dict}
use sproutboat.Control.Limits.Certificates.{
  Issuance, hour_ms, recent, forget_old, seen_today, approve_new, tls_issuance_allowed,
}
use sproutboat.Control.Limits.Certificates.Ceiling.{
  newer, newer-append, is_new, Calls, start, call, Calls-newer,
}

-- The hostnames that were allowed, with the times.
abbrev pub Granted : Type 0
Granted = List (Text × ℕ)

-- The hostname was allowed within the day before the clock.
abbrev pub granted_today : Text → ℕ → Granted → Bool
granted_today hostname clock granted =
    any (λ (g : Text × ℕ). text_eq g.0 hostname && ltb clock (g.1 + 24 * hour_ms)) granted

abbrev pub allowed : Text → ℕ → ℕ → Issuance → Bool
allowed hostname clock cap s = (tls_issuance_allowed hostname clock cap s).1

-- Calls in the order of their times, from the start on, with all that was allowed, and the times at
-- which a hostname was allowed that had not been within a day.
pub data History (cap : ℕ) : ℕ → Issuance → Granted → List ℕ → Type 0 where
  nothing : History cap 0 (record { seen = []; approvals = [] }) [] []
  asks :
      {before : ℕ} {s : Issuance} {granted : Granted} {log : List ℕ} (hostname : Text) (clock : ℕ)
      → History cap before s granted log
      → before ≤ clock
      → History cap clock
          (tls_issuance_allowed hostname clock cap s).0
          (if allowed hostname clock cap s then (hostname, clock) ∷ granted else granted)
          (if allowed hostname clock cap s && not (granted_today hostname clock granted)
            then log ++ clock ∷ []
            else log)

-- What was noted as seen was allowed.
abbrev AllGranted : Granted → Dict Text ℕ → Type 0
AllGranted granted seen = All (λ (e : Text × ℕ). Bag.has e granted ≡ true) seen

later-AllGranted :
    (g : Text × ℕ) (granted : Granted) (seen : Dict Text ℕ)
    → AllGranted granted seen
    → AllGranted (g ∷ granted) seen
unfolding Bag.has
later-AllGranted g granted [] a = tt
later-AllGranted g granted (e ∷ seen) (h, a) = (
  if_ind (λ b. b ≡ true) (pair_eq.beq g e) true (Bag.has e granted) (λ _. refl) (λ _. h),
  later-AllGranted g granted seen a,
)

has-head : (g : Text × ℕ) (granted : Granted) → Bag.has g (g ∷ granted) ≡ true
unfolding Bag.has
has-head g granted = rw ((pair_eq.beq_iff g g).1 refl) refl

insert-AllGranted :
    (hostname : Text) (clock : ℕ) (granted : Granted) (seen : Dict Text ℕ)
    → Bag.has (hostname, clock) granted ≡ true
    → AllGranted granted seen
    → AllGranted granted (Dict.insert hostname clock seen)
unfolding Dict.insert
insert-AllGranted hostname clock granted [] here a = (here, tt)
insert-AllGranted hostname clock granted ((j, w) ∷ seen) here (h, a) =
    elim (Bool-cases (text_eq j hostname)) [
      | inl same ↦
          let eq = (text_eq_iff j hostname).0 same in
          rw same (ap (λ k. Bag.has (k, clock) granted) eq ∙ here, a)
      | inr ne ↦ rw ne (h, insert-AllGranted hostname clock granted seen here a)
    ]

forget-AllGranted :
    (clock : ℕ) (granted : Granted) (seen : Dict Text ℕ)
    → AllGranted granted seen
    → AllGranted granted (forget_old clock seen)
unfolding forget_old
forget-AllGranted clock granted [] a = tt
forget-AllGranted clock granted ((j, w) ∷ seen) (h, a) =
    if_ind (λ z. AllGranted granted z) (ltb (48 * hour_ms) (clock - w)) (forget_old clock seen)
      ((j, w) ∷ forget_old clock seen) (λ _. forget-AllGranted clock granted seen a)
      (λ _. (h, forget-AllGranted clock granted seen a))

-- The map after a call.
call-AllGranted :
    (hostname : Text) (clock cap : ℕ) (s : Issuance) (granted : Granted)
    → AllGranted granted s.seen
    → AllGranted
        (if allowed hostname clock cap s then (hostname, clock) ∷ granted else granted)
        (tls_issuance_allowed hostname clock cap s).0.seen
unfolding tls_issuance_allowed approve_new
call-AllGranted hostname clock cap s granted a =
    let P = λ (z : Issuance × Bool).
      AllGranted (if z.1 then (hostname, clock) ∷ granted else granted) z.0.seen in
    let noted : AllGranted ((hostname, clock) ∷ granted) (Dict.insert hostname clock s.seen) =
      insert-AllGranted hostname clock ((hostname, clock) ∷ granted) s.seen
        (has-head (hostname, clock) granted)
        (later-AllGranted (hostname, clock) granted s.seen a) in
    if_ind P (seen_today clock (Dict.get hostname s.seen)) _ _ (λ _. noted)
      (λ _.
        if_ind P (leb cap (length (recent clock s.approvals))) _ _ (λ _. a)
          (λ _.
            if_ind (λ z. AllGranted ((hostname, clock) ∷ granted) z)
              (ltb 8192 (length (Dict.insert hostname clock s.seen)))
              (forget_old clock (Dict.insert hostname clock s.seen))
              (Dict.insert hostname clock s.seen)
              (λ _.
                forget-AllGranted clock ((hostname, clock) ∷ granted)
                  (Dict.insert hostname clock s.seen) noted)
              (λ _. noted)))

get-AllGranted :
    (hostname : Text) (ms : ℕ) (granted : Granted) (seen : Dict Text ℕ)
    → AllGranted granted seen
    → Dict.get hostname seen ≡ some ms
    → Bag.has (hostname, ms) granted ≡ true
unfolding Dict.get
get-AllGranted hostname ms granted [] a h = absurd (cc h)
get-AllGranted hostname ms granted ((j, w) ∷ seen) (here, a) h =
    elim (Dict.get_cases j hostname w ms seen h) [
      | inl (same, is) ↦
          ap (λ k. Bag.has (k, ms) granted) (sym same)
          ∙ ap (λ t. Bag.has (j, t) granted) (sym is)
          ∙ here
      | inr old ↦ get-AllGranted hostname ms granted seen a old
    ]

has-granted_today :
    (hostname : Text) (ms clock : ℕ) (granted : Granted)
    → Bag.has (hostname, ms) granted ≡ true
    → ltb clock (ms + 24 * hour_ms) ≡ true
    → granted_today hostname clock granted ≡ true
unfolding Bag.has
has-granted_today hostname ms clock [] h k = absurd (cc h)
has-granted_today hostname ms clock (g ∷ granted) h k =
    elim (Bool-cases (pair_eq.beq g (hostname, ms))) [
      | inl same ↦
          let eq : g ≡ (hostname, ms) = (pair_eq.beq_iff g (hostname, ms)).0 same in
          rw eq (rw ((text_eq_iff hostname hostname).1 refl, k) refl)
      | inr ne ↦
          let later = has-granted_today hostname ms clock granted (rw ne at h) k in either _ _ later
    ]
  where
    either : (a b : Bool) → b ≡ true → (a || b) ≡ true
    either a b h = ground (arith, h)

-- What the map holds for seen today was allowed today.
seen_today-granted :
    (hostname : Text) (clock : ℕ) (granted : Granted) (seen : Dict Text ℕ)
    → AllGranted granted seen
    → seen_today clock (Dict.get hostname seen) ≡ true
    → granted_today hostname clock granted ≡ true
unfolding seen_today
seen_today-granted hostname clock granted seen a h = elim (Option-cases (Dict.get hostname seen)) [
  | inl gone ↦ absurd (cc (rw (gone, seen_today) at h))
  | inr (ms, at) ↦
      let recent_one : ltb (clock - ms) (24 * hour_ms) ≡ true = rw (at, seen_today) at h in
      has-granted_today hostname ms clock granted (get-AllGranted hostname ms granted seen a at)
        (ground (arith, recent_one))
]

-- The calls, with a log that has all that is new by the history.
abbrev Logged : ℕ → ℕ → Issuance → List ℕ → Type 0
Logged cap clock s log =
    (by_map : List ℕ) × Calls cap 0 (record { seen = []; approvals = [] }) clock s by_map
    × ((d : ℕ) → newer d log ≤ newer d by_map)

log_step :
    (d clock : ℕ) (a b : Bool) (log by_map : List ℕ)
    → newer d log ≤ newer d by_map
    → (a ≡ true → b ≡ true)
    → newer d (if a then log ++ clock ∷ [] else log)
      ≤ newer d (if b then by_map ++ clock ∷ [] else by_map)
log_step d clock true true log by_map h i =
    omega (arith, newer-append d log (clock ∷ []), newer-append d by_map (clock ∷ []), h)
log_step d clock true false log by_map h i = absurd (cc (i refl))
log_step d clock false true log by_map h i = omega (arith, newer-append d by_map (clock ∷ []), h)
log_step d clock false false log by_map h i = h

History-Logged :
    (cap : ℕ) {clock : ℕ} {s : Issuance} {granted : Granted} {log : List ℕ}
    → History cap clock s granted log
    → AllGranted granted s.seen × Logged cap clock s log
History-Logged cap nothing = (tt, ([], start, λ d. omega arith))
History-Logged cap (asks {before} {s} {granted} {log} hostname clock history h) =
    let (a, (by_map, calls, less)) = History-Logged cap history in
    (
      call-AllGranted hostname clock cap s granted a,
      (
        _,
        call hostname clock calls h,
        λ d.
            log_step d clock
              (allowed hostname clock cap s && not (granted_today hostname clock granted))
              (is_new hostname clock cap s) log by_map (less d)
              (λ n.
                new_to_both (allowed hostname clock cap s) (granted_today hostname clock granted)
                  (seen_today clock (Dict.get hostname s.seen)) n
                  (seen_today-granted hostname clock granted s.seen a)),
      ),
    )
  where
    new_to_both : (a g t : Bool) → (a && not g) ≡ true → (t ≡ true → g ≡ true) → (a && not t) ≡ true
    new_to_both true false true n i = absurd (cc (i refl))
    new_to_both true false false n i = refl
    new_to_both true true t n i = absurd (cc n)
    new_to_both false g t n i = absurd (cc n)

-- From the start, however the hostnames are chosen and the times, in order: of the hostnames that
-- were allowed within the hour before the latest call, at most `cap` had not been allowed before
-- within a day.
pub History-newer :
    (cap : ℕ) {clock : ℕ} {s : Issuance} {granted : Granted} {log : List ℕ}
    → History cap clock s granted log
    → newer clock log ≤ cap
History-newer cap {clock} history =
    let (_, (by_map, calls, less)) = History-Logged cap history in
    omega (arith, less clock, Calls-newer cap calls)
