-- ===== src/Supervisor/Pool/Valid/Lifecycle.antt =====
-- services/supervisor/src/run.ts: the invariant through `touch`, `dispose`, `disposeAll`,
-- `evictIdle` and the reconciliation of timed deployments.
use sproutboat.Base.{
  ℕ, ◌+◌, ◌≡◌, ◌≢◌, ◌≤◌, ap, refl, ◌∙◌, true, none, some, List, [], ◌∷◌, inl, inr, string_eq, arith,
  Bool-cases, Option-cases, if_ind,
}
use sproutboat.Base.Dict
use sproutboat.Base.Dict.{Dict, Holds-delete, Holds-self}
use sproutboat.Supervisor.Pool.State.{
  TimedSprout, SproutServer, SproutPool, Heap, modify, close_server, retire,
}
use sproutboat.Supervisor.Pool.Key.{Platform, runtime_key}
use sproutboat.Supervisor.Pool.Endpoint.{usable_server}
use sproutboat.Supervisor.Pool.Timed.{clear_timed_wake_timer, cancel_timed_wake}
use sproutboat.Supervisor.Pool.Lifecycle.{
  touch, forget_timed, dispose_servers, dispose_timed, dispose, cancel_all, close_all, dispose_all,
  is_idle, evict_entries, evict_idle, keyed, drop_timed, set_timed, enable_dispatch, enable_all,
  reconcile,
}
use sproutboat.Supervisor.Pool.Valid.{IsOpen, Valid, modify-IsValid, modify-none, IsOpen-close}
use sproutboat.Supervisor.Pool.Valid.Moves.{retire-Valid}
use sproutboat.Supervisor.Pool.Valid.Calls.{touch_server-Valid}
use mathlib.Core.Path.{subst}
use Prim.Native.String.{String}
use text.Mathlib.Text.{◌==◌ as str_eq}

pub touch-Valid :
    (os : Platform) (clock : ℕ) (t : TimedSprout) (p : SproutPool)
    → Valid p
    → Valid (touch os clock t p)
unfolding touch
touch-Valid os clock t p v = elim (Option-cases (usable_server (runtime_key os t) p)) [
  | inl e ↦ rw (e, touch) v
  | inr (r, e) ↦ rw (e, touch) (touch_server-Valid clock r p v)
]

-- A pool whose map holds every entry of a list of distinct keys; the loops run over such a list.
abbrev pub Running : List (String × ℕ) → SproutPool → Type 0
Running es p = Valid p × Dict.Holds p.servers es × Dict.Unique es

-- One turn of such a loop: the entry is retired or left.
pub retire-Running :
    (key : String) (r : ℕ) (es : List (String × ℕ)) (p : SproutPool)
    → Running ((key, r) ∷ es) p
    → Running es (retire key r p)
unfolding retire
retire-Running key r es p (v, h, u) =
    (retire-Valid key r p v h.0, Holds-delete key p.servers es u.0 h.1, u.1)

pub leave-Running :
    (key : String) (r : ℕ) (es : List (String × ℕ)) (p : SproutPool)
    → Running ((key, r) ∷ es) p
    → Running es p
leave-Running key r es p (v, h, u) = (v, h.1, u.1)

forget_timed-Running :
    (key : String) (es : List (String × ℕ)) (p : SproutPool)
    → Running es p
    → Running es (forget_timed key p)
unfolding forget_timed cancel_timed_wake
forget_timed-Running key es p run = run

pub Running-self : (p : SproutPool) → Valid p → Running p.servers p
Running-self p v = (v, Holds-self p.servers v.unique, v.unique)

dispose_servers-Valid :
    (path : String) (es : List (String × ℕ)) (p : SproutPool)
    → Running es p
    → Valid (dispose_servers path es p)
unfolding dispose_servers
dispose_servers-Valid path [] p run = run.0
dispose_servers-Valid path ((key, r) ∷ es) p run = elim (Option-cases (p.objects r)) [
  | inl e ↦ rw (e, dispose_servers) (dispose_servers-Valid path es p (leave-Running key r es p run))
  | inr (s, e) ↦
      rw (e, dispose_servers)
        (if_ind (λ q. Valid (dispose_servers path es q)) (str_eq s.sprout_path path)
          (retire key r (forget_timed key p)) p
          (λ _. dispose_servers-Valid path es (retire key r (forget_timed key p)) (
            retire-Running key r es (forget_timed key p)
              (forget_timed-Running key ((key, r) ∷ es) p run)))
          (λ _. dispose_servers-Valid path es p (leave-Running key r es p run)))
]

forget_timed-Valid : (key : String) (p : SproutPool) → Valid p → Valid (forget_timed key p)
unfolding forget_timed cancel_timed_wake
forget_timed-Valid key p v = v

dispose_timed-Valid :
    (f : String → String) (path : String) (es : List (String × TimedSprout)) (p : SproutPool)
    → Valid p
    → Valid (dispose_timed f path es p)
unfolding dispose_timed
dispose_timed-Valid f path [] p v = v
dispose_timed-Valid f path ((key, t) ∷ es) p v =
    if_ind (λ q. Valid (dispose_timed f path es q)) (str_eq (f t.sprout_path) path)
      (forget_timed key p) p
      (λ _. dispose_timed-Valid f path es (forget_timed key p) (forget_timed-Valid key p v))
      (λ _. dispose_timed-Valid f path es p v)

pub dispose-Valid :
    (os : Platform) (path : String) (p : SproutPool) → Valid p → Valid (dispose os path p)
unfolding dispose
dispose-Valid os path p v =
    dispose_timed-Valid os.resolve_path (os.resolve_path path) _ _
      (dispose_servers-Valid (os.resolve_path path) p.servers p (Running-self p v))

evict_entries-Valid :
    (clock : ℕ) (es : List (String × ℕ)) (n : ℕ) (p : SproutPool)
    → Running es p
    → Valid (evict_entries clock es n p).0
unfolding evict_entries
evict_entries-Valid clock [] n p run = run.0
evict_entries-Valid clock ((key, r) ∷ es) n p run = elim (Bool-cases (is_idle clock key r p)) [
  | inl e ↦
      rw (e, evict_entries)
        (evict_entries-Valid clock es (n + 1) (retire key r p) (retire-Running key r es p run))
  | inr e ↦ rw (e, evict_entries) (evict_entries-Valid clock es n p (leave-Running key r es p run))
]

pub evict_idle-Valid : (clock : ℕ) (p : SproutPool) → Valid p → Valid (evict_idle clock p).0
unfolding evict_idle
evict_idle-Valid clock p v = evict_entries-Valid clock p.servers 0 p (Running-self p v)

drop_one-Valid :
    (key : String) (p : SproutPool)
    → Valid p
    → Valid (elim (Dict.get key p.servers) [ none ↦ p | some r ↦ retire key r p ])
drop_one-Valid key p v = elim (Option-cases (Dict.get key p.servers)) [
  | inl e ↦ rw e v
  | inr (r, e) ↦ rw e (retire-Valid key r p v e)
]

drop_timed-Valid :
    (next : Dict String TimedSprout) (es : List (String × TimedSprout)) (p : SproutPool)
    → Valid p
    → Valid (drop_timed next es p)
unfolding drop_timed
drop_timed-Valid next [] p v = v
drop_timed-Valid next ((key, t) ∷ es) p v =
    if_ind (λ q. Valid (drop_timed next es q)) (Dict.has key next) p _
      (λ _. drop_timed-Valid next es p v)
      (λ _.
        drop_timed-Valid next es _
          (drop_one-Valid key (forget_timed key p) (forget_timed-Valid key p v)))

set_timed-Valid : (es : Dict String TimedSprout) (p : SproutPool) → Valid p → Valid (set_timed es p)
unfolding set_timed
set_timed-Valid [] p v = v
set_timed-Valid ((key, t) ∷ es) p v =
    set_timed-Valid es (record p { timed = Dict.insert key t p.timed }) v

enable_dispatch-Valid : (r : ℕ) (p : SproutPool) → Valid p → Valid (enable_dispatch r p)
unfolding enable_dispatch
enable_dispatch-Valid r p v =
    modify-IsValid r (λ s. record s { dispatch = true }) p.objects (λ s. (refl, refl, refl)) p.next
      p.servers p.used_ports v

enable_all-Valid :
    (es : Dict String TimedSprout) (p : SproutPool) → Valid p → Valid (enable_all es p)
unfolding enable_all
enable_all-Valid [] p v = v
enable_all-Valid ((key, t) ∷ es) p v = elim (Option-cases (Dict.get key p.servers)) [
  | inl e ↦ rw (e, enable_all) (enable_all-Valid es p v)
  | inr (r, e) ↦
      rw (e, enable_all) (enable_all-Valid es (enable_dispatch r p) (enable_dispatch-Valid r p v))
]

pub reconcile-Valid :
    (os : Platform) (sprouts : List TimedSprout) (p : SproutPool)
    → Valid p
    → Valid (reconcile os sprouts p)
unfolding reconcile
reconcile-Valid os sprouts p v =
    let next = keyed os sprouts [] in
    enable_all-Valid next _ (set_timed-Valid next _ (drop_timed-Valid next p.timed p v))

-- Only what no entry refers to is still open after all entries are closed.
close_all-IsOpen :
    (es : List (String × ℕ)) (objects : Heap) (x : ℕ) (s : SproutServer)
    → IsOpen (close_all es objects) x s
    → IsOpen objects x s × ((k : String) → Dict.get k es ≢ some x)
unfolding close_all Dict.get
close_all-IsOpen [] objects x s o = (o, λ k h. cc)
close_all-IsOpen ((j, r) ∷ es) objects x s o =
    let (before, absent) = close_all-IsOpen es (modify r close_server objects) x s o in
    let (ne, old) = IsOpen-close r x objects s before in
    (
      old,
      λ k h. elim (Bool-cases (string_eq.beq j k)) [
        | inl same ↦ ne (cc (rw same at h))
        | inr other ↦ absent k (rw other at h)
      ],
    )

cancel_all-keeps :
    (es : List (String × ℕ)) (p : SproutPool)
    → ((cancel_all es p).objects ≡ p.objects)
      × ((cancel_all es p).servers ≡ p.servers)
      × ((cancel_all es p).next ≡ p.next)
unfolding cancel_all cancel_timed_wake clear_timed_wake_timer
cancel_all-keeps [] p = (refl, refl, refl)
cancel_all-keeps ((key, delay) ∷ es) p = cancel_all-keeps es (cancel_timed_wake key p)

-- `disposeAll` leaves no server running.
pub dispose_all-closed :
    (p : SproutPool) (x : ℕ) (s : SproutServer) → Valid p → ¬ IsOpen (dispose_all p).objects x s
unfolding dispose_all
dispose_all-closed p x s v o =
    let (same, maps, _) = cancel_all-keeps p.timed_wakeups p in
    let q = cancel_all p.timed_wakeups p in
    let o' : IsOpen (close_all p.servers p.objects) x s =
      subst (λ h. IsOpen (close_all p.servers h) x s) same
        (subst (λ m. IsOpen (close_all m q.objects) x s) maps o) in
    let (old, absent) = close_all-IsOpen p.servers p.objects x s o' in
    absent s.key (v.known x s old)

dispose_all-unlisted :
    (p : SproutPool) (k : String) (r : ℕ) → Dict.get k (dispose_all p).servers ≢ some r
unfolding dispose_all Dict.get
dispose_all-unlisted p k r h = cc

dispose_all-Unique : (p : SproutPool) → Dict.Unique (dispose_all p).servers
unfolding dispose_all
dispose_all-Unique p = tt

close_all-none :
    (es : List (String × ℕ)) (objects : Heap) (x : ℕ)
    → objects x ≡ none
    → close_all es objects x ≡ none
unfolding close_all
close_all-none [] objects x h = h
close_all-none ((j, r) ∷ es) objects x h =
    close_all-none es (modify r close_server objects) x (modify-none r x close_server objects h)

dispose_all-fresh :
    (p : SproutPool)
    → Valid p
    → (x : ℕ) → (dispose_all p).next ≤ x
    → (dispose_all p).objects x ≡ none
unfolding dispose_all
dispose_all-fresh p v x h =
    let q = cancel_all p.timed_wakeups p in
    let (same, _, next) = cancel_all-keeps p.timed_wakeups p in
    close_all-none q.servers q.objects x
      (ap (λ (f : Heap). f x) same ∙ v.fresh x (omega (arith, next)))

pub dispose_all-Valid : (p : SproutPool) → Valid p → Valid (dispose_all p)
dispose_all-Valid p v =
    let none_open = λ (r : ℕ) (s : SproutServer) (o : IsOpen (dispose_all p).objects r s).
      dispose_all-closed p r s v o in
    record {
      held = λ r s o. absurd (none_open r s o);
      apart = λ r x s t o u e. absurd (none_open r s o);
      listed = λ k r h. absurd (dispose_all-unlisted p k r h);
      known = λ r s o. absurd (none_open r s o);
      fresh = dispose_all-fresh p v;
      unique = dispose_all-Unique p;
    }
