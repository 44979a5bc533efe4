-- ===== src/Supervisor/Listeners/Owner.antt =====
-- services/supervisor/src/listener-owner.ts: what the answer says of the port.
use sproutboat.Base.{
  ℕ, ◌<◌, ◌≡◌, ◌≢◌, ◌⊎◌, sym, ap, refl, ◌∙◌, true, false, ◌||◌, Option, none, some, List, [], ◌∷◌,
  ◌↔◌, arith, if_ind, nat_eq, Bool-cases, Option-cases, inl, inr, ◌==◌, ==_iff,
}
use sproutboat.Base.Bag
use sproutboat.Base.Bag.{has-add}
use sproutboat.Base.Codes.{Text}
use sproutboat.Supervisor.Listeners.{
  Proc, ListenerOwner, owned, foreign, nobody, unsupported, listening_inodes, child_pids,
  socket_inodes, add_all, add_held, all_mine, verdict, listener_owner,
}
use sproutboat.Supervisor.Listeners.Walk.{Below, IsClosed, edges, descendants_iff}

has-add_all :
    (i : ℕ) (inodes mine : List ℕ)
    → Bag.has i (add_all inodes mine) ≡ (Bag.has i inodes || Bag.has i mine)
unfolding add_all Bag.has
has-add_all i [] mine = refl
has-add_all i (x ∷ inodes) mine =
    ground (arith, has-add_all i inodes (Bag.add x mine), has-add x i mine)

-- Some process of the list holds the socket.
abbrev Held : (ℕ → List ℕ) → ℕ → List ℕ → Type 0
Held sockets i pids = (pid : ℕ) × (Bag.has pid pids ≡ true) × (Bag.has i (sockets pid) ≡ true)

module _ (sockets : ℕ → List ℕ) (i : ℕ) where
  Held-from :
      (pids mine : List ℕ)
      → Bag.has i (add_held sockets pids mine) ≡ true
      → Held sockets i pids ⊎ (Bag.has i mine ≡ true)
  unfolding add_held Bag.has
  Held-from [] mine h = inr h
  Held-from (p ∷ pids) mine h = elim (Held-from pids (add_all (sockets p) mine) h) [
    | inl (q, at, has) ↦ inl (q, ground (arith, at), has)
    | inr k ↦ elim (Bool-cases (Bag.has i (sockets p))) [
      | inl has ↦ inl (p, ground arith, has)
      | inr absent ↦ inr (ground (arith, k, absent, has-add_all i (sockets p) mine))
    ]
  ]

  held_kept :
      (pids mine : List ℕ) → Bag.has i mine ≡ true → Bag.has i (add_held sockets pids mine) ≡ true
  unfolding add_held
  held_kept [] mine h = h
  held_kept (p ∷ pids) mine h =
      held_kept pids (add_all (sockets p) mine) (ground (arith, h, has-add_all i (sockets p) mine))

  held_to :
      (pids mine : List ℕ) (pid : ℕ)
      → Bag.has pid pids ≡ true
      → Bag.has i (sockets pid) ≡ true
      → Bag.has i (add_held sockets pids mine) ≡ true
  unfolding add_held Bag.has
  held_to [] mine pid at h = absurd (cc at)
  held_to (p ∷ pids) mine pid at h = elim (Bool-cases (p == pid)) [
    | inl e ↦
        let same : p ≡ pid = (==_iff p pid).0 e in
        held_kept pids (add_all (sockets p) mine) (
          has-add_all i (sockets p) mine
          ∙ (let mine_now : Bag.has i (sockets p) ≡ true = rw same h in rw mine_now refl))
    | inr ne ↦ held_to pids (add_all (sockets p) mine) pid (ground (arith, at, ne)) h
  ]

all_mine-has :
    (mine listening : List ℕ) (i : ℕ)
    → all_mine mine listening ≡ true
    → Bag.has i listening ≡ true
    → Bag.has i mine ≡ true
unfolding all_mine Bag.has
all_mine-has mine [] i all h = absurd (cc h)
all_mine-has mine (x ∷ listening) i all h = elim (Bool-cases (x == i)) [
  | inl e ↦
      let same : x ≡ i = (==_iff x i).0 e in
      ap (λ z. Bag.has z mine) (sym same)
      ∙ (let x_mine : Bag.has x mine ≡ true = ground (arith, all) in x_mine)
  | inr ne ↦ all_mine-has mine listening i (ground (arith, all)) (ground (arith, h, ne))
]

all_mine-not :
    (mine listening : List ℕ)
    → all_mine mine listening ≡ false
    → (i : ℕ) × (Bag.has i listening ≡ true) × (Bag.has i mine ≡ false)
unfolding all_mine Bag.has
all_mine-not mine [] h = absurd (cc h)
all_mine-not mine (x ∷ listening) h = elim (Bool-cases (Bag.has x mine)) [
  | inr absent ↦ (x, ground arith, absent)
  | inl mine_too ↦
      let (i, at, absent) = all_mine-not mine listening (ground (arith, h, mine_too)) in
      (i, ground (arith, at), absent)
]

module _ (number : Text → ℕ) (hex : Text → Option ℕ) (proc : Proc) (port root : ℕ) where
  -- The root or a process below it holds the socket.
  abbrev pub Holds : ℕ → Type 0
  Holds i =
      (pid : ℕ) × Below (child_pids number hex proc) root pid
      × (Bag.has i (socket_inodes number hex proc pid) ≡ true)

  -- What the answer says of the sockets that listen on the port.
  abbrev pub Says : ListenerOwner → Type 0
  Says unsupported = listening_inodes number hex port proc ≡ none
  Says nobody = listening_inodes number hex port proc ≡ some []
  Says owned =
      (listening : List ℕ) × (listening_inodes number hex port proc ≡ some listening)
      × (listening ≢ [])
      × ((i : ℕ) → Bag.has i listening ≡ true → Holds i)
  Says foreign =
      (listening : List ℕ) × (listening_inodes number hex port proc ≡ some listening)
      × (i : ℕ) × (Bag.has i listening ≡ true)
      × ¬ Holds i

  verdict-Says :
      (i : ℕ) (listening found : List ℕ)
      → listening_inodes number hex port proc ≡ some (i ∷ listening)
      → ((p : ℕ) → (Bag.has p found ≡ true) ↔ Below (child_pids number hex proc) root p)
      → Says (verdict (add_held (socket_inodes number hex proc) found []) (i ∷ listening))
  unfolding verdict Bag.has
  verdict-Says i listening found e iff =
      let sockets = socket_inodes number hex proc in
      let mine = add_held sockets found [] in
      if_ind (λ (z : ListenerOwner). Says z) (all_mine mine (i ∷ listening)) owned foreign
        (λ all. (
          i ∷ listening,
          e,
          (λ h. cc h),
          λ j h. elim (Held-from sockets j found [] (all_mine-has mine (i ∷ listening) j all h)) [
            | inl (pid, at, has) ↦ (pid, (iff pid).0 at, has)
            | inr nothing ↦ absurd (cc nothing)
          ],
        ))
        (λ some_not.
          let (j, at, absent) = all_mine-not mine (i ∷ listening) some_not in
          (
            i ∷ listening,
            e,
            j,
            at,
            λ (pid, b, has). cc (sym absent ∙ held_to sockets j found [] pid ((iff pid).1 b) has),
          ))

  -- With fuel for each edge between processes: the question is answered, and the answer is
  -- `unsupported` where the table of sockets cannot be read, `nobody` where no socket listens on the
  -- port, `owned` where some do and the process or one below it holds each, and `foreign` where one
  -- listens that none of these holds.
  pub listener_owner-Says :
      (pids : List ℕ) (fuel : ℕ)
      → IsClosed (child_pids number hex proc) pids
      → Bag.has root pids ≡ true
      → edges (child_pids number hex proc) pids [] < fuel
      → (answer : ListenerOwner) × (listener_owner number hex fuel proc port root ≡ some answer)
        × Says answer
  unfolding listener_owner
  listener_owner-Says pids fuel closed at enough =
      let next = child_pids number hex proc in
      let (found, ends, iff) = descendants_iff next pids fuel root closed at enough in
      elim (Option-cases (listening_inodes number hex port proc)) [
        | inl unreadable ↦ (unsupported, rw (unreadable, listener_owner) refl, unreadable)
        | inr ([], e) ↦ (nobody, rw (e, listener_owner) refl, e)
        | inr (i ∷ listening, e) ↦ (
          verdict (add_held (socket_inodes number hex proc) found []) (i ∷ listening),
          rw (e, listener_owner) (rw ends refl),
          verdict-Says i listening found e iff,
        )
      ]
