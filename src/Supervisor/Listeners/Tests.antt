-- ===== src/Supervisor/Listeners/Tests.antt =====
-- services/supervisor/src/listener-owner.ts: runs, and the theorem at an input.
use sproutboat.Base.{
  ℕ, ◌+◌, ◌-◌, ◌*◌, ◌≡◌, sym, ap, refl, ◌∙◌, true, Option, none, some, List, [], ◌∷◌, ◌++◌, arith,
  if◌then◌else◌, leb, ◌==◌, nat_eq, Bool-cases, inl, inr,
}
use sproutboat.Base.Bag
use sproutboat.Base.Codes.{Text, codes, text_eq}
use sproutboat.Base.Split.{
  split, trim, last, is_blank, onto_first, starts_with, drop, trim_start, trim_end,
}
use sproutboat.Supervisor.Listeners.{
  Proc, ListenerOwner, owned, foreign, nobody, unsupported, starts_blank, words, field, or_empty,
  has_port, listens_on, add_lines, add_table, listening_inodes, positive, children_of, child_pids,
  bracketed, socket_inode, add_socket, add_sockets, socket_inodes, pushed, walk, descendants,
  add_all, add_held, all_mine, verdict, listener_owner,
}
use sproutboat.Supervisor.Listeners.Walk.{IsClosed, edges}
use sproutboat.Supervisor.Listeners.Owner.{Says, listener_owner-Says}

listeners : Unit {0}
unfolding split trim last is_blank onto_first starts_with drop trim_start trim_end starts_blank
    words field or_empty has_port listens_on add_lines add_table listening_inodes positive
    children_of child_pids bracketed socket_inode add_socket add_sockets socket_inodes pushed walk
    descendants add_all add_held all_mine verdict listener_owner Bag.has Bag.add text_eq
listeners = tt

-- Decimal digits, none else.
abbrev number_from : ℕ → Text → ℕ
number_from v [] = v
number_from v (c ∷ s) = number_from (v * 10 + (c - 48)) s

abbrev number : Text → ℕ
number s = number_from 0 s

abbrev hex_from : ℕ → Text → ℕ
hex_from v [] = v
hex_from v (c ∷ s) = hex_from (v * 16 + (if leb c 57 then c - 48 else c - 55)) s

abbrev hex : Text → Option ℕ
hex s = some (hex_from 0 s)

-- Inode 7 listens on port 80, inode 8 on port 81, and inode 9 is connected.
abbrev table : Text
table =
    (codes "h" ++ 10 ∷ codes " 0: 0:50 0:0 0A a  b c d e 7")
    ++ 10 ∷ (codes " 1: 0:51 0:0 0A a b c d e 8" ++ 10 ∷ codes " 2: 0:50 0:0 01 a b c d e 9")

-- Process 2 is below process 1 and holds inode 7.
abbrev proc : Proc
proc = record {
  tcp = some table;
  tcp6 = none;
  tasks = λ pid. some (codes "t" ∷ []);
  children = λ pid task. if pid == 1 then some (codes "2 ") else none;
  files = λ pid. some (codes "3" ∷ []);
  link = λ pid name. if pid == 2 then some (codes "socket:[7]") else some (codes "pipe:[8]");
}

abbrev ask : ℕ → ℕ → Option ListenerOwner
ask port root = listener_owner number hex 3 proc port root

owner_tests :
    (ask 80 1 ≡ some owned)
    × (ask 81 1 ≡ some foreign)
    × (ask 82 1 ≡ some nobody)
    × (ask 80 3 ≡ some foreign)
    × (listener_owner number hex 3 (record proc { tcp = none }) 80 1 ≡ some unsupported)
    × (listening_inodes number hex 80 proc ≡ some (7 ∷ []))
unfolding listeners
owner_tests = (refl, refl, refl, refl, refl, refl)

abbrev pids : List ℕ
pids = 1 ∷ 2 ∷ []

two_below : child_pids number hex proc 1 ≡ 2 ∷ []
unfolding listeners
two_below = refl

none_below : child_pids number hex proc 2 ≡ []
unfolding listeners
none_below = refl

pids-IsClosed : IsClosed (child_pids number hex proc) pids
unfolding Bag.has
pids-IsClosed p c h k = elim (Bool-cases (1 == p)) [
  | inl e ↦
      let one : 1 ≡ p = ground (arith, e) in
      let is : Bag.has c (2 ∷ []) ≡ true =
        ap (λ l. Bag.has c l) (sym two_below ∙ ap (λ q. child_pids number hex proc q) one) ∙ k in
      ground (arith, is)
  | inr ne ↦
      let two : 2 ≡ p = ground (arith, h, ne) in
      let nothing : Bag.has c [] ≡ true =
        ap (λ l. Bag.has c l) (sym none_below ∙ ap (λ q. child_pids number hex proc q) two) ∙ k in
      absurd (cc nothing)
]

one_known : Bag.has 1 pids ≡ true
unfolding Bag.has
one_known = refl

one_edge : edges (child_pids number hex proc) pids [] ≡ 1
unfolding listeners
one_edge = refl

listener_owner-Says_example :
    (answer : ListenerOwner) × (listener_owner number hex 3 proc 80 1 ≡ some answer)
    × Says number hex proc 80 1 answer
listener_owner-Says_example =
    listener_owner-Says number hex proc 80 1 pids 3 pids-IsClosed one_known
      (omega (arith, one_edge))
