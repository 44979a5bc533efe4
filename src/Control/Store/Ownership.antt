-- ===== src/Control/Store/Ownership.antt =====
-- apps/control/src/store.ts: who owns a custom domain.
use sproutboat.Base.{
  ◌≡◌, ◌⊎◌, sym, ap, ◌∙◌, Bool, true, false, ◌&&◌, some, arith, inl, inr, pair_eq,
}
use sproutboat.Base.Codes.{Text, text_eq, text_eq_self, text_eq_inst}
use sproutboat.Base.Dict
use sproutboat.Base.Dict.{
  Dict, get-insert, get-filter, passing-some, filter-some, insert-cases, delete-some, has-some,
  has-filter, exists-none, insert-Unique, filter-Unique, delete-Unique,
}
use sproutboat.Control.Store.{Pair, CustomDomain, Database}
use sproutboat.Control.Store.Domains.{is_verified, has_verified}

-- A hostname has one verified owner at most.
abbrev pub OneVerified : Dict Pair CustomDomain → Type 0
OneVerified table =
    (host a b : Text) (x y : CustomDomain)
    → Dict.get (host, a) table ≡ some x
    → Dict.get (host, b) table ≡ some y
    → is_verified x ≡ true
    → is_verified y ≡ true
    → a ≡ b

abbrev pub HasHomes : Database → Type 0
HasHomes db =
    (key : Pair) (x : CustomDomain)
    → Dict.get key db.custom_domains ≡ some x
    → Dict.has (key.1, x.project) db.projects ≡ true

pub record IsOwned (db : Database) : Type 0 where
  pub keys : Dict.Unique db.custom_domains
  pub one_verified : OneVerified db.custom_domains
  pub houses : HasHomes db

-- Fewer domains, of projects that are still there.
pub Fewer-IsOwned :
    (db after : Database)
    → IsOwned db
    → Dict.Unique after.custom_domains
    → ((key : Pair) (x : CustomDomain)
        → Dict.get key after.custom_domains ≡ some x
        → (Dict.get key db.custom_domains ≡ some x)
          × (Dict.has (key.1, x.project) db.projects ≡ true
              → Dict.has (key.1, x.project) after.projects ≡ true))
    → IsOwned after
Fewer-IsOwned db after o keys fewer = record {
  keys = keys;
  one_verified = λ host a b x y hx hy.
      o.one_verified host a b x y (fewer (host, a) x hx).0 (fewer (host, b) y hy).0;
  houses = λ key x h. let (at, still) = fewer key x h in still (o.houses key x at);
}

pub filter-IsOwned :
    (p : Pair → CustomDomain → Bool) (db : Database)
    → IsOwned db
    → IsOwned (record db { custom_domains = Dict.filter p db.custom_domains })
filter-IsOwned p db o =
    Fewer-IsOwned db (record db { custom_domains = Dict.filter p db.custom_domains }) o
      (filter-Unique p db.custom_domains o.keys)
      (λ key x h. ((filter-some key p x db.custom_domains o.keys h).0, λ t. t))

-- Without a verified row for its hostname, a table can take one.
no_verified :
    (host a : Text) (table : Dict Pair CustomDomain) (x : CustomDomain)
    → has_verified host table ≡ false
    → Dict.get (host, a) table ≡ some x
    → is_verified x ≡ false
unfolding has_verified
no_verified host a table x h at =
    let p : (text_eq host host && is_verified x) ≡ false =
      exists-none (host, a) x (λ key domain. text_eq key.0 host && is_verified domain) table h at in
    ground (arith, text_eq_self host, p)

insert-OneVerified :
    (host owner : Text) (z : CustomDomain) (table : Dict Pair CustomDomain)
    → (is_verified z ≡ false) ⊎ (has_verified host table ≡ false)
    → OneVerified table
    → OneVerified (Dict.insert (host, owner) z table)
insert-OneVerified host owner z table free one g a b x y hx hy vx vy =
    elim (insert-cases (host, owner) (g, a) z x table hx) [
      | inl (here, is) ↦ elim (insert-cases (host, owner) (g, b) z y table hy) [
        | inl (there, _) ↦ ap (λ k. k.1) (sym here ∙ there)
        | inr old ↦ absurd (elim free [
          | inl unverified ↦ cc (sym unverified ∙ ap is_verified is ∙ vx)
          | inr none_yet ↦
              let same = ap (λ k. k.0) here in
              cc (
                sym
                  (no_verified host b table y none_yet (ap (λ h. Dict.get (h, b) table) same ∙ old))
                ∙ vy)
        ])
      ]
      | inr old ↦ elim (insert-cases (host, owner) (g, b) z y table hy) [
        | inl (there, is) ↦ absurd (elim free [
          | inl unverified ↦ cc (sym unverified ∙ ap is_verified is ∙ vy)
          | inr none_yet ↦
              let same = ap (λ k. k.0) there in
              cc (
                sym
                  (no_verified host a table x none_yet (ap (λ h. Dict.get (h, a) table) same ∙ old))
                ∙ vx)
        ])
        | inr old2 ↦ one g a b x y old old2 vx vy
      ]
    ]

pub insert-IsOwned :
    (host owner : Text) (z : CustomDomain) (db : Database)
    → (is_verified z ≡ false) ⊎ (has_verified host db.custom_domains ≡ false)
    → Dict.has (owner, z.project) db.projects ≡ true
    → IsOwned db
    → IsOwned (record db { custom_domains = Dict.insert (host, owner) z db.custom_domains })
insert-IsOwned host owner z db free housed o = record {
  keys = insert-Unique (host, owner) z db.custom_domains o.keys;
  one_verified = insert-OneVerified host owner z db.custom_domains free o.one_verified;
  houses = λ key x h. elim (insert-cases (host, owner) key z x db.custom_domains h) [
    | inl (here, is) ↦
        ap (λ (k : Pair). Dict.has (k.1, x.project) db.projects) (sym here)
        ∙ ap (λ (d : CustomDomain). Dict.has (owner, d.project) db.projects) (sym is)
        ∙ housed
    | inr old ↦ o.houses key x old
  ];
}
