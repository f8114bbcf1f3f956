-- ===== src/Sast/Connect/Recurse.antt =====
-- src/sast.c: the registers of a tree.
use volatile.Base.{
  ℕ, zero, suc, Bool, true, false, Option, none, some, List, [], ◌∷◌, Bytes, ◌==◌, not, ◌||◌, ◌&&◌,
  if◌then◌else◌, Result, ok, err, ◌>>=◌, enotrecoverable,
}
use volatile.Asm.{
  Operand, AsmRegister, MemoryKind, Isa, is_amd64, rax, rbx, rdx, r12, r13, r14, r15,
}
use volatile.Sast.{
  SastKind, SastOperation, Operations, node, nil, cons, kind, arguments, evaluates_to, destination,
  args_argc, before_append, after_append, store, ret, div, call,
}
use volatile.Sast.Fold.{connect_values}
use volatile.Sast.Connect.{
  Place, no_parent, is_lchild, other_child, resolve_tbd, preferred_registers, register_operand,
}
use volatile.Sast.Connect.Inuse.{
  Inuse, all_registers, same_register, mark, register_of, is_register,
}
use volatile.Sast.Call.{allocated, adopt}
use volatile.Sast.Convert.{written, eval_below, bare_node, named}
use volatile.Sast.Convert.Paths.{append_argument}

-- What the choice of registers uses of the function that is open and of memory: whether a function is open, allocation,
-- the name of the next local for a value that is saved, and `vltl_lang_function_local_set`.
pub record Function (State : Type 0) : Type 0 where
  pub is_open : State → Bool
  pub varena_alloc : State → Option State
  pub tmp_name : State → Result (Bytes × State)
  pub local_set : Bytes → State → Result State

-- An operand that is to be determined.
unfoldable pub is_tbd : Operand → Bool
is_tbd Operand.tbd = true
is_tbd _ = false

unfoldable pub place_of : Option SastKind → ℕ → Place
place_of none index = no_parent
place_of (some p) index = if index == 0 then is_lchild else other_child

-- `store_operation_dest` of `vltl_sast_tree_connect_adopt_tbd`, resolved.
unfoldable pub with_first : SastOperation → SastOperation → SastOperation
unfolding evaluates_to
with_first x (node k p (cons y ys) bs cs e d) = node k p (cons x ys) bs cs e (evaluates_to x)
with_first x (node k p nil bs cs e d) = node k p nil bs cs e (evaluates_to x)

-- An argument of a list at an index, the write of another there, and the register of its destination.
unfoldable pub saved_at : AsmRegister → Operations → SastOperation → Result Operations
unfolding same_register register_of is_register destination after_append
saved_at r nil saving = ok nil
saved_at r (cons x xs) saving =
    let rest = saved_at r xs saving in
    if is_register (destination x) && same_register (register_of (destination x)) r
    then (after_append x saving >>= λ y. ok (cons y xs))
    else (rest >>= λ ys. ok (cons x ys))

-- That an argument has a register as its destination.
unfoldable pub goes_to : AsmRegister → Operations → Bool
unfolding same_register register_of is_register destination
goes_to r nil = false
goes_to r (cons x xs) =
    (is_register (destination x) && same_register (register_of (destination x)) r) || goes_to r xs

unfoldable pub with_arguments : Operations → SastOperation → SastOperation
with_arguments xs (node k p ys bs cs e d) = node k p xs bs cs e d

abbrev pub store_between : Operand → Operand → SastOperation
store_between to from =
    bare_node store none (cons (eval_below none to) (cons (eval_below none from) nil))

module _ {State : Type 0} (function : Function State) where
  -- `vltl_sast_tree_connect_adopt_tbd`: what stands in the place of `adopt_me` after, which has a parent: only a first argument
  -- has none, and no register is in use before it.
  unfoldable pub adopt_tbd : SastOperation → Inuse → State → Result (SastOperation × State)
  unfolding allocated adopt resolve_tbd with_first evaluates_to
  adopt_tbd adopt_me inuse st = allocated (function.varena_alloc st) >>= λ st₁.
      allocated (function.varena_alloc st₁) >>= λ st₂.
      adopt
        (node store none (cons (eval_below (some store) Operand.tbd) nil) nil nil
          (evaluates_to adopt_me) Operand.tbd)
        adopt_me
      >>= λ o.
          if function.is_open st₂
          then (resolve_tbd true is_lchild inuse preferred_registers
                (eval_below (some store) Operand.tbd)
              >>= λ dest. ok (with_first dest o, st₂))
          else ok (o, st₂)

  -- Allocations that are not tested.
  unfoldable pub written_many : ℕ → State → Result State
  unfolding written
  written_many zero st = ok st
  written_many (suc n) st = written (function.varena_alloc st) >>= written_many n

  -- The body of the loop over the arguments in `vltl_sast_tree_connect_protect_siblings`, for the first that goes to the
  -- register: its value is stored to a local after it, and back before the parent.
  unfoldable pub save : AsmRegister → SastOperation → State → Result (SastOperation × State)
  unfolding written_many saved_at with_arguments before_append arguments
  save r parent st = written_many 2 st >>= λ st₁. function.tmp_name st₁ >>= λ (name, st₂).
      function.local_set name st₂ >>= λ st₃. written_many 3 st₃ >>= λ st₄.
      saved_at r (arguments parent)
        (store_between (named MemoryKind.local (some name)) (register_operand r))
      >>= λ xs. written_many 3 st₄ >>= λ st₅.
          before_append (with_arguments xs parent)
            (store_between (register_operand r) (named MemoryKind.local (some name)))
          >>= λ saved. ok (saved, st₅)

  -- A round of the loop of `vltl_sast_tree_connect_protect_siblings`; the arguments of `parent` are those before
  -- `argument_index`.
  unfoldable pub protect_register :
      AsmRegister
      → SastOperation
      → Inuse
      → Inuse
      → Inuse
      → State
      → Result (SastOperation × (Inuse × State))
  unfolding save goes_to mark arguments
  protect_register r parent from below child st =
      let below₁ = mark r (below r || child r) below in
      if not (function.is_open st)
      then ok (parent, (below₁, st))
      else if not (child r) || not (from r)
      then ok (parent, (below, st))
      else if goes_to r (arguments parent)
      then (save r parent st >>= λ (saved, st₁). ok (saved, (below₁, st₁)))
      else ok (parent, (below₁, st))

  -- `vltl_sast_tree_connect_protect_siblings`, for the registers that are left.
  unfoldable pub protect_siblings :
      List AsmRegister
      → SastOperation
      → Inuse
      → Inuse
      → Inuse
      → State
      → Result (SastOperation × (Inuse × State))
  unfolding protect_register
  protect_siblings [] parent from below child st = ok (parent, (below, st))
  protect_siblings (r ∷ rs) parent from below child st =
      protect_register r parent from below child st >>= λ (saved, (below₁, st₁)).
      protect_siblings rs saved from below₁ child st₁

  -- What the loop of `vltl_sast_tree_connect_recurse` does with an argument that is connected: it gets a register of its own,
  -- and the arrays `inuse_from_here`, `inuse_above_child` and `inuse_below_here` get that one.
  unfoldable pub settle :
      SastOperation
      → Inuse
      → Inuse
      → Inuse
      → State
      → Result (SastOperation × (Inuse × (Inuse × (Inuse × State))))
  unfolding adopt_tbd mark register_of is_register destination
  settle x from above below st =
      if is_register (destination x)
      then ((if from (register_of (destination x)) then adopt_tbd x from st else ok (x, st))
          >>= λ (y, st₁).
              let r = register_of (destination y) in
              ok (y, (mark r true from, (mark r true above, (mark r true below, st₁)))))
      else ok (x, (from, (above, (below, st))))

  -- What follows an argument that is connected, up to the next round.
  unfoldable pub join_argument :
      SastOperation
      → SastOperation
      → Inuse
      → Inuse
      → Inuse
      → Inuse
      → State
      → Result (SastOperation × (Inuse × (Inuse × (Inuse × State))))
  unfolding settle protect_siblings append_argument
  join_argument parent x from above below child st =
      settle x from above below st >>= λ (y, (from₁, (above₁, (below₁, st₁)))).
      protect_siblings all_registers parent from₁ below₁ child st₁ >>= λ (saved, (below₂, st₂)).
      ok (append_argument y saved, (from₁, (above₁, (below₂, st₂))))

  -- The end of `vltl_sast_tree_connect_recurse`: the registers that the operation itself uses.
  unfoldable pub mark_own : SastOperation → Inuse → Inuse
  unfolding mark register_of is_register destination kind
  mark_own o below =
      let own =
        if is_register (destination o)
        then mark (register_of (destination o)) true below
        else below in
      elim (kind o) [
        | ret ↦ mark rax true own
        | div ↦ mark rdx true (mark rax true own)
        | call ↦
            mark r15 true
              (mark r14 true (mark r13 true (mark r12 true (mark rbx true (mark rax true own)))))
        | _ ↦ own
      ]

  -- `vltl_sast_tree_connect_recurse` up to the loop: an operand that is to be determined.
  unfoldable pub resolve_own : Place → Inuse → SastOperation → State → Result SastOperation
  unfolding is_tbd resolve_tbd evaluates_to
  resolve_own place above o st =
      if is_tbd (evaluates_to o)
      then resolve_tbd (function.is_open st) place above preferred_registers o
      else ok o

  -- `vltl_sast_tree_connect_recurse` on an operation at an index of its parent, and its loop over the arguments that are
  -- left, where those of the operation are the ones before.
  unfoldable mutual
    unfolding resolve_own args_argc connect_values join_argument mark_own with_arguments place_of

    pub connect_recurse :
        ℕ → Inuse → SastOperation → State → Result (SastOperation × (Inuse × State))
    connect_recurse index above (node k p xs bs cs e d) st =
        resolve_own (place_of p index) above (node k p xs bs cs e d) st >>= λ o.
        if args_argc o == 0
        then ok (o, (mark_own o (λ r. false), st))
        else (connect_each 0 (with_arguments nil o) (λ r. false) above (λ r. false) xs st
            >>= λ (o₁, (below, st₁)). connect_values o₁ >>= λ o₂. ok (o₂, (mark_own o₂ below, st₁)))

    pub connect_each :
        ℕ
        → SastOperation
        → Inuse
        → Inuse
        → Inuse
        → Operations
        → State
        → Result (SastOperation × (Inuse × State))
    connect_each index parent from above below nil st = ok (parent, (below, st))
    connect_each index parent from above below (cons x xs) st =
        connect_recurse index above x st >>= λ (y, (child, st₁)).
        join_argument parent y from above below child st₁
        >>= λ (parent₁, (from₁, (above₁, (below₁, st₂)))).
            connect_each (suc index) parent₁ from₁ above₁ below₁ xs st₂

  -- `vltl_sast_tree_connect`, of a tree whose root is not NULL.
  unfoldable pub connect : Isa → SastOperation → State → Result (SastOperation × State)
  unfolding connect_recurse is_amd64
  connect isa root st =
      if is_amd64 isa
      then (connect_recurse 0 (λ r. false) root st >>= λ (o, (below, st₁)). ok (o, st₁))
      else err enotrecoverable
