-- ===== src/Supervisor/Listeners.antt =====
-- services/supervisor/src/listener-owner.ts: who listens on a loopback port. What the files of
-- /proc hold is a record, `none` where a read throws. `Number` (0 where it is not a positive
-- number) and `Number.parseInt(_, 16)` (`none` where it is NaN) are arguments.
mod Tests
pub mod Walk
pub mod Owner
use sproutboat.Base.{
  ℕ, zero, suc, Bool, true, false, ◌&&◌, ◌||◌, not, all, Option, none, some, List, [], ◌∷◌, ◌++◌,
  length, ltb, leb, ◌==◌, if◌then◌else◌, nat_eq,
}
use sproutboat.Base.Bag
use sproutboat.Base.Codes.{Text, codes, text_eq}
use sproutboat.Base.Split.{split, trim, last, is_blank, onto_first, starts_with, drop}

pub record Proc : Type 0 where
  pub tcp : Option Text
  pub tcp6 : Option Text
  pub tasks : ℕ → Option (List Text)
  pub children : ℕ → Text → Option Text
  pub files : ℕ → Option (List Text)
  pub link : ℕ → Text → Option Text

-- `nobody` is the answer "none".
pub data ListenerOwner : Type 0 where
  owned : ListenerOwner
  foreign : ListenerOwner
  nobody : ListenerOwner
  unsupported : ListenerOwner

unfoldable pub starts_blank : Text → Bool
starts_blank [] = false
starts_blank (c ∷ s) = is_blank c

-- `text.split(/\s+/)`
unfoldable pub words : Text → List Text
unfolding starts_blank
words [] = [] ∷ []
words (c ∷ s) =
    let rest = words s in
    if is_blank c then (if starts_blank s then rest else [] ∷ rest) else onto_first c rest

-- `fields[n]!`
unfoldable pub field : ℕ → List Text → Text
field n [] = []
field zero (f ∷ fs) = f
field (suc n) (f ∷ fs) = field n fs

unfoldable pub or_empty : Option Text → Text
or_empty none = []
or_empty (some s) = s

module _ (number : Text → ℕ) (hex : Text → Option ℕ) where
  -- `local.slice(local.lastIndexOf(":") + 1)`
  unfoldable pub has_port : ℕ → Text → Bool
  unfolding or_empty
  has_port port local = elim (hex (or_empty (last (split 58 local)))) [
    | none ↦ false
    | some p ↦ p == port
  ]

  unfoldable pub listens_on : ℕ → List Text → Bool
  unfolding has_port field
  listens_on port fields =
      leb 10 (length fields)
      && (text_eq (field 3 fields) (codes "0A")
          && (has_port port (field 1 fields) && leb 1 (number (field 9 fields))))

  unfoldable pub add_lines : ℕ → List Text → List ℕ → List ℕ
  unfolding listens_on words
  add_lines port [] inodes = inodes
  add_lines port (line ∷ lines) inodes =
      let fields = words (trim line) in
      add_lines port lines
        (if listens_on port fields then Bag.add (number (field 9 fields)) inodes else inodes)

  -- `text.split("\n").slice(1)`
  unfoldable pub add_table : ℕ → Text → List ℕ → List ℕ
  unfolding add_lines
  add_table port text inodes = elim (split 10 text) [
    | [] ↦ inodes
    | _ ∷ lines ↦ add_lines port lines inodes
  ]

  unfoldable pub listening_inodes : ℕ → Proc → Option (List ℕ)
  unfolding add_table
  listening_inodes port proc = elim proc.tcp [
    | none ↦ none
    | some text ↦
        let inodes = add_table port text [] in
        some (elim proc.tcp6 [ none ↦ inodes | some more ↦ add_table port more inodes ])
  ]

  unfoldable pub positive : List Text → List ℕ
  positive [] = []
  positive (w ∷ ws) = let rest = positive ws in if leb 1 (number w) then number w ∷ rest else rest

  unfoldable pub children_of : ℕ → List Text → Proc → List ℕ
  unfolding positive words
  children_of pid [] proc = []
  children_of pid (task ∷ tasks) proc =
      let rest = children_of pid tasks proc in
      elim (proc.children pid task) [ none ↦ rest | some text ↦ positive (words text) ++ rest ]

  -- What a visit of the process pushes, in order.
  unfoldable pub child_pids : Proc → ℕ → List ℕ
  unfolding children_of
  child_pids proc pid = elim (proc.tasks pid) [
    | none ↦ []
    | some tasks ↦ children_of pid tasks proc
  ]

  -- `/^socket:\[(\d+)\]$/`
  unfoldable pub bracketed : List Text → Option ℕ
  bracketed (digits ∷ [] ∷ []) =
      if not (text_eq digits []) && all (λ c. leb 48 c && leb c 57) digits
      then some (number digits)
      else none
  bracketed parts = none

  unfoldable pub socket_inode : Text → Option ℕ
  unfolding bracketed
  socket_inode target =
      if starts_with (codes "socket:[") target then bracketed (split 93 (drop 8 target)) else none

  unfoldable pub add_socket : Option Text → List ℕ → List ℕ
  unfolding socket_inode
  add_socket none inodes = inodes
  add_socket (some target) inodes = elim (socket_inode target) [
    | none ↦ inodes
    | some inode ↦ Bag.add inode inodes
  ]

  unfoldable pub add_sockets : ℕ → List Text → Proc → List ℕ → List ℕ
  unfolding add_socket
  add_sockets pid [] proc inodes = inodes
  add_sockets pid (name ∷ names) proc inodes =
      add_sockets pid names proc (add_socket (proc.link pid name) inodes)

  unfoldable pub socket_inodes : Proc → ℕ → List ℕ
  unfolding add_sockets
  socket_inodes proc pid = elim (proc.files pid) [
    | none ↦ []
    | some names ↦ add_sockets pid names proc []
  ]

-- The queue, its last element first.
unfoldable pub pushed : List ℕ → List ℕ → List ℕ
pushed [] queue = queue
pushed (child ∷ children) queue = pushed children (child ∷ queue)

-- The loop of `descendants`, by what a visit pushes; `none` where the fuel ends.
unfoldable pub walk : (ℕ → List ℕ) → ℕ → List ℕ → List ℕ → Option (List ℕ)
unfolding pushed
walk next n [] seen = some seen
walk next zero (pid ∷ queue) seen = none
walk next (suc n) (pid ∷ queue) seen = elim (Bag.has pid seen) [
  | true ↦ walk next n queue seen
  | false ↦ walk next n (pushed (next pid) queue) (Bag.add pid seen)
]

unfoldable pub descendants : (ℕ → List ℕ) → ℕ → ℕ → Option (List ℕ)
unfolding walk
descendants next fuel pid = walk next fuel (pid ∷ []) []

unfoldable pub add_all : List ℕ → List ℕ → List ℕ
add_all [] mine = mine
add_all (inode ∷ inodes) mine = add_all inodes (Bag.add inode mine)

unfoldable pub add_held : (ℕ → List ℕ) → List ℕ → List ℕ → List ℕ
unfolding add_all
add_held sockets [] mine = mine
add_held sockets (pid ∷ pids) mine = add_held sockets pids (add_all (sockets pid) mine)

unfoldable pub all_mine : List ℕ → List ℕ → Bool
all_mine mine [] = true
all_mine mine (inode ∷ listening) =
    let rest = all_mine mine listening in if Bag.has inode mine then rest else false

unfoldable pub verdict : List ℕ → List ℕ → ListenerOwner
unfolding all_mine
verdict mine listening = if all_mine mine listening then owned else foreign

unfoldable pub listener_owner :
    (Text → ℕ) → (Text → Option ℕ) → ℕ → Proc → ℕ → ℕ → Option ListenerOwner
unfolding listening_inodes child_pids descendants socket_inodes add_held verdict
listener_owner number hex fuel proc port root = elim (listening_inodes number hex port proc) [
  | none ↦ some unsupported
  | some [] ↦ some nobody
  | some (inode ∷ listening) ↦ elim (descendants (child_pids number hex proc) fuel root) [
    | none ↦ none
    | some pids ↦
        some (verdict (add_held (socket_inodes number hex proc) pids []) (inode ∷ listening))
  ]
]
