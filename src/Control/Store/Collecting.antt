-- ===== src/Control/Store/Collecting.antt =====
-- apps/control/src/store.ts, `collectArtifacts`: what a collection takes and what it leaves.
use sproutboat.Base.{
  ◌≡◌, ◌⊎◌, sym, ap, refl, ◌∙◌, Bool, true, false, ◌&&◌, not, List, [], ◌∷◌, if◌then◌else◌, arith,
  if_ind, inl, inr, Bool-cases, pair_eq,
}
use sproutboat.Base.Codes.{Text, text_eq, text_eq_iff, text_eq_inst}
use sproutboat.Base.Bag
use sproutboat.Base.Dict
use sproutboat.Base.Dict.{Dict}
use sproutboat.Control.Store.{Pair, Database, references}
use sproutboat.Control.Store.Deployments.{joined_key, is_referenced}
use sproutboat.Control.Store.Artifacts.{
  Disk, Collection, artifact_in_flight, is_digest, drop_row, collect_one, collect_unseen,
  collect_artifacts,
}
use sproutboat.Control.Store.Valid.{IsValid, drop_row-IsValid}

-- A collection changes no table but that of the artifacts.
abbrev pub Apart : Database → Database → Type 0
Apart db after =
    (after.custom_domains ≡ db.custom_domains)
    × (after.projects ≡ db.projects)
    × (after.deployments ≡ db.deployments)

-- A round takes an artifact that is neither in flight nor referenced.
record Taken (owner_dir : Text → Text) (in_flight : List Text) (ref : Pair) (c : Collection)
    (out : Collection) : Type 0 where
  idle : artifact_in_flight ref in_flight ≡ false
  free : is_referenced ref c.db ≡ false
  rows : out.db ≡ drop_row ref c.db
  dirs : (out.disk ≡ c.disk) ⊎ (out.disk ≡ Dict.delete (owner_dir ref.0, ref.1) c.disk)

module _ (owner_dir : Text → Text) (rm_works : Pair → Bool) (in_flight : List Text) where
  abbrev Round : Pair → Collection → Collection → Type 0
  Round ref c out = ((out.db ≡ c.db) × (out.disk ≡ c.disk)) ⊎ Taken owner_dir in_flight ref c out

  collect_one-cases :
      (ref : Pair) (c : Collection) → Round ref c (collect_one owner_dir rm_works in_flight ref c)
  unfolding collect_one
  collect_one-cases (owner, digest) c =
      let there = Dict.has (owner, digest) c.db.artifacts in
      let used = is_referenced (owner, digest) c.db in
      elim (Bool-cases (artifact_in_flight (owner, digest) in_flight)) [
        | inl held ↦ rw held (inl (refl, refl))
        | inr idle ↦ elim (Bool-cases (is_digest digest)) [
          | inr bad ↦ elim (Bool-cases there) [
            | inl t ↦ rw (idle, bad) (rw t (inl (refl, refl)))
            | inr t ↦ rw (idle, bad) (rw t (inl (refl, refl)))
          ]
          | inl good ↦ elim (Bool-cases (there && not used)) [
            | inr t ↦ rw (idle, good) (rw t (inl (refl, refl)))
            | inl t ↦
                let free : used ≡ false = ground (arith, t) in
                elim (Bool-cases (rm_works (owner_dir owner, digest))) [
                  | inl works ↦
                      rw (idle, good)
                        (rw t (
                          rw works (
                            inr
                              (record { idle = idle; free = free; rows = refl; dirs = inr refl }))))
                  | inr fails ↦
                      rw (idle, good)
                        (rw t (
                          rw fails (
                            inr
                              (record { idle = idle; free = free; rows = refl; dirs = inl refl }))))
                ]
          ]
        ]
      ]

  collect_one-IsValid :
      (ref : Pair) (c : Collection)
      → IsValid c.db
      → IsValid (collect_one owner_dir rm_works in_flight ref c).db
  collect_one-IsValid ref c v = elim (collect_one-cases ref c) [
    | inl (same, _) ↦ rw same v
    | inr taken ↦ rw taken.rows (drop_row-IsValid ref c.db taken.free v)
  ]

  collect_one-Apart :
      (ref : Pair) (c : Collection) → Apart c.db (collect_one owner_dir rm_works in_flight ref c).db
  unfolding drop_row
  collect_one-Apart ref c = elim (collect_one-cases ref c) [
    | inl (same, _) ↦ rw same (refl, refl, refl)
    | inr taken ↦ rw taken.rows (refl, refl, refl)
  ]

  -- A round on an artifact, or none where it was seen.
  abbrev round : List Text → Pair → Collection → Collection
  round seen ref c =
      if Bag.has (joined_key ref) seen then c else collect_one owner_dir rm_works in_flight ref c

  collect_unseen-IsValid :
      (seen : List Text) (refs : List Pair) (c : Collection)
      → IsValid c.db
      → IsValid (collect_unseen owner_dir rm_works in_flight seen refs c).db
  unfolding collect_unseen
  collect_unseen-IsValid seen [] c v = v
  collect_unseen-IsValid seen (ref ∷ refs) c v =
      collect_unseen-IsValid (Bag.add (joined_key ref) seen) refs (round seen ref c) (
        if_ind (λ (z : Collection). IsValid z.db) (Bag.has (joined_key ref) seen) c
          (collect_one owner_dir rm_works in_flight ref c) (λ _. v)
          (λ _. collect_one-IsValid ref c v))

  collect_unseen-Apart :
      (seen : List Text) (refs : List Pair) (c : Collection)
      → Apart c.db (collect_unseen owner_dir rm_works in_flight seen refs c).db
  unfolding collect_unseen
  collect_unseen-Apart seen [] c = (refl, refl, refl)
  collect_unseen-Apart seen (ref ∷ refs) c =
      let one =
        if_ind (λ (z : Collection). Apart c.db z.db) (Bag.has (joined_key ref) seen) c
          (collect_one owner_dir rm_works in_flight ref c) (λ _. (refl, refl, refl))
          (λ _. collect_one-Apart ref c) in
      let rest = collect_unseen-Apart (Bag.add (joined_key ref) seen) refs (round seen ref c) in
      (rest.0 ∙ one.0, rest.1 ∙ one.1, rest.2 ∙ one.2)

  pub collect_artifacts-IsValid :
      (refs : List Pair) (db : Database) (disk : Disk)
      → IsValid db
      → IsValid (collect_artifacts owner_dir rm_works in_flight refs db disk).db
  unfolding collect_artifacts
  collect_artifacts-IsValid refs db disk v = collect_unseen-IsValid [] refs _ v

  pub collect_artifacts-Apart :
      (refs : List Pair) (db : Database) (disk : Disk)
      → Apart db (collect_artifacts owner_dir rm_works in_flight refs db disk).db
  unfolding collect_artifacts
  collect_artifacts-Apart refs db disk = collect_unseen-Apart [] refs _

  -- An artifact that a version references or a deploy holds.
  abbrev pub Protected : Pair → Database → Type 0
  Protected ref db = (artifact_in_flight ref in_flight ≡ true) ⊎ (is_referenced ref db ≡ true)

  -- Its directory and its row are as they were.
  abbrev pub Stays : Pair → Collection → Collection → Type 0
  Stays ref c out =
      (Dict.get (owner_dir ref.0, ref.1) out.disk ≡ Dict.get (owner_dir ref.0, ref.1) c.disk)
      × (Dict.get ref out.db.artifacts ≡ Dict.get ref c.db.artifacts)

  module _ (injective : (a b : Text) → owner_dir a ≡ owner_dir b → a ≡ b) where
    pub other_dir :
        (a b : Pair)
        → (text_eq a.0 b.0 && text_eq a.1 b.1) ≡ false
        → (text_eq (owner_dir a.0) (owner_dir b.0) && text_eq a.1 b.1) ≡ false
    other_dir a b ne = elim (Bool-cases (text_eq (owner_dir a.0) (owner_dir b.0))) [
      | inr other ↦ rw other refl
      | inl same ↦
          let owner = injective a.0 b.0 ((text_eq_iff (owner_dir a.0) (owner_dir b.0)).0 same) in
          let eq : text_eq a.0 b.0 ≡ true = (text_eq_iff a.0 b.0).1 owner in
          rw same (ground (arith, ne, eq))
    ]

    Taken-Stays :
        (ref it : Pair) (c out : Collection)
        → Taken owner_dir in_flight it c out
        → (text_eq it.0 ref.0 && text_eq it.1 ref.1) ≡ false
        → Stays ref c out
    unfolding drop_row
    Taken-Stays ref it c out taken ne = (
      elim (taken.dirs) [
        | inl same ↦ ap (λ disk. Dict.get (owner_dir ref.0, ref.1) disk) same
        | inr gone ↦
            ap (λ disk. Dict.get (owner_dir ref.0, ref.1) disk) gone
            ∙ Dict.get-delete (owner_dir it.0, it.1) (owner_dir ref.0, ref.1) c.disk
            ∙ rw (other_dir it ref ne) refl
      ],
      ap (λ (db : Database). Dict.get ref db.artifacts) taken.rows
          ∙ Dict.get-delete it ref c.db.artifacts
          ∙ rw ne refl,
    )

    collect_one-Stays :
        (ref it : Pair) (c : Collection)
        → Protected ref c.db
        → Stays ref c (collect_one owner_dir rm_works in_flight it c)
    collect_one-Stays ref it c safe = elim (collect_one-cases it c) [
      | inl (rows, dirs) ↦ rw (rows, dirs) (refl, refl)
      | inr taken ↦ elim (Bool-cases (text_eq it.0 ref.0 && text_eq it.1 ref.1)) [
        | inr ne ↦ Taken-Stays ref it c _ taken ne
        | inl eq ↦
            let same : it ≡ ref = (pair_eq.beq_iff it ref).0 eq in
            absurd (elim safe [
              | inl held ↦
                  cc (sym taken.idle ∙ ap (λ r. artifact_in_flight r in_flight) same ∙ held)
              | inr used ↦ cc (sym taken.free ∙ ap (λ r. is_referenced r c.db) same ∙ used)
            ])
      ]
    ]

    still-Protected :
        (ref : Pair) (db after : Database)
        → after.deployments ≡ db.deployments
        → Protected ref db
        → Protected ref after
    unfolding is_referenced
    still-Protected ref db after same (inl held) = inl held
    still-Protected ref db after same (inr used) =
        inr (ap (λ t. Dict.exists (λ _ d. references ref d) t) same ∙ used)

    collect_unseen-Stays :
        (seen : List Text) (refs : List Pair) (ref : Pair) (c : Collection)
        → Protected ref c.db
        → Stays ref c (collect_unseen owner_dir rm_works in_flight seen refs c)
    unfolding collect_unseen
    collect_unseen-Stays seen [] ref c safe = (refl, refl)
    collect_unseen-Stays seen (it ∷ refs) ref c safe =
        let (one, apart) =
          if_ind (λ (z : Collection). Stays ref c z × Apart c.db z.db)
            (Bag.has (joined_key it) seen) c (collect_one owner_dir rm_works in_flight it c)
            (λ _. ((refl, refl), (refl, refl, refl)))
            (λ _. (collect_one-Stays ref it c safe, collect_one-Apart it c)) in
        let rest =
          collect_unseen-Stays (Bag.add (joined_key it) seen) refs ref (round seen it c)
            (still-Protected ref c.db (round seen it c).db apart.2 safe) in
        (rest.0 ∙ one.0, rest.1 ∙ one.1)

    -- Where no two owners share a directory: a collection, whatever artifacts it is given, keeps
    -- the directory and the row of each artifact that one of its owner's versions references or
    -- that a deploy holds in flight.
    pub collect_artifacts-Stays :
        (refs : List Pair) (ref : Pair) (db : Database) (disk : Disk)
        → (artifact_in_flight ref in_flight ≡ true) ⊎ (is_referenced ref db ≡ true)
        → (Dict.get
              (owner_dir ref.0, ref.1)
              (collect_artifacts owner_dir rm_works in_flight refs db disk).disk
            ≡ Dict.get (owner_dir ref.0, ref.1) disk)
          × (Dict.get ref (collect_artifacts owner_dir rm_works in_flight refs db disk).db.artifacts
              ≡ Dict.get ref db.artifacts)
    unfolding collect_artifacts
    collect_artifacts-Stays refs ref db disk safe = collect_unseen-Stays [] refs ref _ safe
