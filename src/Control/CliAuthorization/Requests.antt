-- ===== src/Control/CliAuthorization/Requests.antt =====
-- apps/control/src/cli-authorization.ts: the invariant through creation, approval and the claim.
use sproutboat.Base.{
  ℕ, ◌≡◌, ◌≢◌, ap, ◌∙◌, refl, true, false, not, Option, none, some, List, [], ◌∷◌, length, ltb,
  arith, inl, inr, if_ind, Bool-cases, Option-cases,
}
use mathlib.Core.Path.{subst}
use sproutboat.Base.Codes.{Text, text_eq, text_eq_iff, text_eq_inst}
use sproutboat.Base.Dict
use sproutboat.Base.Dict.{Dict, get-insert, get-insert_self, get-delete, insert-Unique}
use sproutboat.Control.CliAuthorization.{
  AuthState, pending, approved, issuing, issued, Authorization, Table, active, awaits_approval,
  find_device, taken, create_authorization, Actor, Reply, approve_row, approve_authorization, claim,
  exchange_row, begin_exchange,
}
use sproutboat.Control.CliAuthorization.World.{World, note_claim, In, IsOnce, keeps-IsOnce}

taken-get :
    (code hash : Text) (table : Table) → taken code hash table ≡ false → Dict.get code table ≡ none
unfolding taken
taken-get code hash table h = Dict.get-has-false code table (ground arith)

pub created-IsOnce :
    (hash : Text → Text) (clock : ℕ) (drawn : List (Text × Text)) (w : World)
    → IsOnce w
    → IsOnce (record w { table = (create_authorization hash clock drawn w.table).0 })
unfolding create_authorization
created-IsOnce hash clock [] w v = v
created-IsOnce hash clock ((code, device) ∷ drawn) w v =
    if_ind {A = Table × Option (Text × Text)} (λ z. IsOnce (record w { table = z.0 }))
      (taken code (hash device) w.table) _ _ (λ _. created-IsOnce hash clock drawn w v)
      (λ free.
        keeps-IsOnce code _ w (λ s at. absurd (cc (at, taken-get code (hash device) w.table free)))
          v)

pending_only :
    (r : Authorization) → awaits_approval r.state ≡ true → (r.state ≢ issuing) × (r.state ≢ issued)
unfolding awaits_approval
pending_only r p = (λ e. cc (e, p), λ e. cc (e, p))

approved-IsOnce :
    (code user : Text) (clock : ℕ) (o : Option Authorization) (w : World)
    → Dict.get code w.table ≡ o
    → IsOnce w
    → IsOnce (record w { table = (approve_row code user clock o w.table).0 })
unfolding approve_row
approved-IsOnce code user clock none w at v = v
approved-IsOnce code user clock (some r) w at v =
    let P = λ (z : Table × Reply). IsOnce (record w { table = z.0 }) in
    if_ind P (not (active clock r)) _ _ (λ _. v)
      (λ _.
        if_ind P (not (awaits_approval r.state)) _ _ (λ _. v)
          (λ p.
            keeps-IsOnce code _ w
              (λ s here.
                let same : r ≡ s = cc (at, here) in
                subst (λ t. (t.state ≢ issuing) × (t.state ≢ issued)) same
                  (pending_only r (ground arith)))
              v))

pub decided-IsOnce :
    (actor : Option Actor) (code : Text) (clock : ℕ) (w : World)
    → IsOnce w
    → IsOnce (record w { table = (approve_authorization actor code clock w.table).0 })
unfolding approve_authorization
decided-IsOnce none code clock w v = v
decided-IsOnce (some actor) code clock w v =
    if_ind (λ (z : Table × Reply). IsOnce (record w { table = z.0 })) (not actor.session) _ _
      (λ _. v) (λ _. approved-IsOnce code actor.id clock (Dict.get code w.table) w refl v)

found :
    (wanted code : Text) (r : Authorization) (table : Table)
    → Dict.Unique table
    → find_device wanted table ≡ some (code, r)
    → Dict.get code table ≡ some r
unfolding find_device Dict.get
found wanted code r [] u = λ h. absurd (cc h)
found wanted code r ((j, s) ∷ table) (free, u) = elim (Bool-cases (text_eq s.device_hash wanted)) [
  | inl match ↦ rw match (λ h.
      let key_same : j ≡ code = cc h in
      let row_same : s ≡ r = cc h in rw ((text_eq_iff j code).1 key_same) (ap some row_same))
  | inr other ↦ rw other (λ h. elim (Bool-cases (text_eq j code)) [
    | inl same ↦ absurd (cc (free, found wanted code r table u h, (text_eq_iff j code).0 same))
    | inr ne ↦ rw ne (found wanted code r table u h)
  ])
]

-- The claim of an approved row.
claimed-IsOnce :
    (code user : Text) (r : Authorization) (w : World)
    → Dict.get code w.table ≡ some r
    → r.state ≡ approved
    → r.user_id ≡ some user
    → IsOnce w
    → IsOnce (record w {
      table = Dict.insert code (record r { state = issuing }) w.table;
      waiting = (code, user) ∷ w.waiting;
    })
unfolding Dict.get
claimed-IsOnce code user r w at st own v =
    let base =
      keeps-IsOnce code (record r { state = issuing }) w
        (λ s here.
          let same : r ≡ s = cc (at, here) in (λ e. cc (st, e, same), λ e. cc (st, e, same)))
        v in
    record {
      unique = base.unique;
      handed = base.handed;
      once_handed = base.once_handed;
      waits = λ j u h. elim (Bool-cases (text_eq code j)) [
        | inl same ↦
            subst (λ k. In issuing k u (Dict.insert code (record r { state = issuing }) w.table))
              ((text_eq_iff code j).0 same)
              (
                record r { state = issuing },
                get-insert_self code _ w.table,
                refl,
                own ∙ rw same at h,
              )
        | inr ne ↦ base.waits j u (rw ne at h)
      ];
      made = base.made;
      once = base.once;
    }

begun-IsOnce :
    (code : Text) (r : Authorization) (state : AuthState) (user : Option Text) (w : World)
    → Dict.get code w.table ≡ some r
    → r.state ≡ state
    → r.user_id ≡ user
    → IsOnce w
    → IsOnce (record w {
      table = (claim code r state user w.table).0;
      waiting = note_claim (claim code r state user w.table).1 w.waiting;
    })
unfolding claim
begun-IsOnce code r approved (some (c ∷ user)) w at st own v =
    claimed-IsOnce code (c ∷ user) r w at st own v
begun-IsOnce code r pending user w at st own v = v
begun-IsOnce code r approved none w at st own v = v
begun-IsOnce code r approved (some []) w at st own v = v
begun-IsOnce code r issuing user w at st own v = v
begun-IsOnce code r issued user w at st own v = v

pub began-IsOnce :
    (hash : Text → Text) (device : Option Text) (clock : ℕ) (w : World)
    → IsOnce w
    → IsOnce (record w {
      table = (begin_exchange hash device clock w.table).0;
      waiting = note_claim (begin_exchange hash device clock w.table).1 w.waiting;
    })
unfolding begin_exchange exchange_row
began-IsOnce hash none clock w v = v
began-IsOnce hash (some device) clock w v =
    let P = λ (z : Table × Reply).
      IsOnce (record w { table = z.0; waiting = note_claim z.1 w.waiting }) in
    if_ind P (ltb (length device) 32) _ _ (λ _. v)
      (λ _. elim (Option-cases (find_device (hash device) w.table)) [
        | inl e ↦ rw (e, exchange_row) v
        | inr ((code, r), e) ↦
            rw (e, exchange_row)
              (if_ind P (not (active clock r)) _ _ (λ _. v)
                (λ _.
                  begun-IsOnce code r r.state r.user_id w
                    (found (hash device) code r w.table v.unique e) refl refl v))
      ])
