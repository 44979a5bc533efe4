-- ===== src/Control/Limits/Sweep.antt =====
-- apps/control/src/limits.ts, `sweep`: what it does to the buckets.
use sproutboat.Base.{
  ℕ, ◌<◌, ◌≡◌, refl, Option, none, some, [], ◌∷◌, leb, if◌then◌else◌, arith, Bool-cases, inl, inr,
}
use sproutboat.Base.Codes.{Text, text_eq, text_eq_inst, text_eq_iff}
use sproutboat.Base.Dict
use mathlib.Core.Path.{subst}
use sproutboat.Base.Dict.{Dict, get-insert, get-insert_self}
use sproutboat.Control.Limits.{Bucket, Buckets, sweep_entries, sweep}

sweep_entries-get :
    (key : Text) (b : Bucket) (clock : ℕ) (m : Buckets)
    → Dict.get key m ≡ some b
    → clock < b.reset_at
    → Dict.get key (sweep_entries clock m) ≡ some b
unfolding Dict.get sweep_entries
sweep_entries-get key b clock [] h l = h
sweep_entries-get key b clock ((j, w) ∷ m) h l =
    ground (arith, text_eq_iff j key, sweep_entries-get key b clock m)

-- The sweep spares every open window.
pub sweep-get :
    (key : Text) (b : Bucket) (clock : ℕ) (m : Buckets)
    → Dict.get key m ≡ some b
    → clock < b.reset_at
    → Dict.get key (sweep clock m) ≡ some b
unfolding sweep
sweep-get key b clock m h l = ground (arith, sweep_entries-get key b clock m h l)

-- The bucket of a key, when its window is open.
abbrev pub open_at : ℕ → Option Bucket → Option Bucket
open_at clock none = none
open_at clock (some b) = if leb b.reset_at clock then none else some b

sweep_entries-none :
    (key : Text) (clock : ℕ) (m : Buckets)
    → Dict.get key m ≡ none
    → Dict.get key (sweep_entries clock m) ≡ none
unfolding Dict.get sweep_entries
sweep_entries-none key clock [] h = refl
sweep_entries-none key clock ((j, w) ∷ m) h = ground (arith, sweep_entries-none key clock m)

sweep_entries-open :
    (key : Text) (clock : ℕ) (m : Buckets)
    → Dict.Unique m
    → Dict.get key (sweep_entries clock m) ≡ open_at clock (Dict.get key m)
unfolding Dict.get sweep_entries
sweep_entries-open key clock [] u = refl
sweep_entries-open key clock ((j, w) ∷ m) u = elim (Bool-cases (text_eq j key)) [
  | inl same ↦
      let absent =
        sweep_entries-none key clock m
          (subst (λ k. Dict.get k m ≡ none) ((text_eq_iff j key).0 same) u.0) in
      ground arith
  | inr ne ↦ ground (arith, sweep_entries-open key clock m u.1)
]

pub sweep-open :
    (key : Text) (clock : ℕ) (m : Buckets)
    → Dict.Unique m
    → open_at clock (Dict.get key (sweep clock m)) ≡ open_at clock (Dict.get key m)
unfolding sweep
sweep-open key clock m u = ground (arith, sweep_entries-open key clock m u)

sweep_entries-Unique :
    (clock : ℕ) (m : Buckets) → Dict.Unique m → Dict.Unique (sweep_entries clock m)
unfolding sweep_entries
sweep_entries-Unique clock [] u = tt
sweep_entries-Unique clock ((j, w) ∷ m) u =
    ground (arith, sweep_entries-Unique clock m u.1, sweep_entries-none j clock m u.0)

pub sweep-Unique : (clock : ℕ) (m : Buckets) → Dict.Unique m → Dict.Unique (sweep clock m)
unfolding sweep
sweep-Unique clock m u = ground (arith, sweep_entries-Unique clock m u)
