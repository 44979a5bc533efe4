-- ===== src/Control/Events/Pruning.antt =====
-- apps/control/src/events.ts, `pruneEvents`.
use sproutboat.Base.{
  ℕ, zero, suc, ◌<◌, ◌≡◌, ap, refl, Bool, true, false, not, Option, none, some, List, [], ◌∷◌, ltb,
  arith, All,
}
use sproutboat.Control.Webhooks.Queue.{limit}
use sproutboat.Control.Events.{EventRow, keep_rows, id_at, is_beyond, prune_events}
use sproutboat.Control.Events.Paging.{Descending, keep_rows-Descending}

none_kept :
    (p : EventRow → Bool) (rows : List EventRow)
    → All (λ r. p r ≡ false) rows
    → keep_rows p rows ≡ []
unfolding keep_rows
none_kept p [] a = refl
none_kept p (r ∷ rows) (h, a) = rw h (none_kept p rows a)

id_at_below :
    (n b x : ℕ) (rows : List EventRow) → All (λ r. r.id < b) rows → id_at n rows ≡ some x → x < b
unfolding id_at
id_at_below n b x [] a e = absurd (cc e)
id_at_below zero b x (r ∷ rows) (h, a) e = let same : r.id ≡ x = cc e in omega arith
id_at_below (suc n) b x (r ∷ rows) (h, a) e = id_at_below n b x rows a e

newer_row :
    (r : EventRow) (o : Option ℕ) → ((x : ℕ) → o ≡ some x → x < r.id) → not (is_beyond o r) ≡ true
unfolding is_beyond
newer_row r none h = refl
newer_row r (some x) h = let less = h x refl in ground arith

below_kept_none :
    (b : ℕ) (rows : List EventRow)
    → All (λ r. r.id < b) rows
    → All (λ r. not (is_beyond (some b) r) ≡ false) rows
unfolding is_beyond
below_kept_none b [] a = tt
below_kept_none b (r ∷ rows) (h, a) = (ground arith, below_kept_none b rows a)

oldest_dropped : (r : EventRow) → not (is_beyond (some r.id) r) ≡ false
unfolding is_beyond
oldest_dropped r = ground arith

kept-limit :
    (n : ℕ) (rows : List EventRow)
    → Descending rows
    → keep_rows (λ row. not (is_beyond (id_at n rows) row)) rows ≡ limit n rows
unfolding keep_rows limit id_at
kept-limit zero [] d = refl
kept-limit (suc n) [] d = refl
kept-limit zero (r ∷ rows) (a, d) =
    rw (oldest_dropped r)
      (none_kept (λ row. not (is_beyond (some r.id) row)) rows (below_kept_none r.id rows a))
kept-limit (suc n) (r ∷ rows) (a, d) =
    rw (newer_row r (id_at n rows) (λ x e. id_at_below n r.id x rows a e))
      (ap (λ rest. r ∷ rest) (kept-limit n rows d))

-- Pruning leaves the newest events, as many as the cap allows, of those that are not older than
-- the cutoff, for a table by descending id.
pub prune_events-limit :
    (cutoff n : ℕ) (rows : List EventRow)
    → Descending rows
    → prune_events cutoff n rows ≡ limit n (keep_rows (λ row. not (ltb row.ts cutoff)) rows)
unfolding prune_events
prune_events-limit cutoff n rows d =
    kept-limit n (keep_rows (λ row. not (ltb row.ts cutoff)) rows)
      (keep_rows-Descending (λ row. not (ltb row.ts cutoff)) rows d)
