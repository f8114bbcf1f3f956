-- ===== src/Reshape.antt =====
-- src/reshape.c: comma operations become operations that hold a list of values.
pub mod Overwrite
pub mod Comma
pub mod Flatten
use volatile.Base.{
  ℕ, zero, suc, Bool, true, false, List, [], ◌∷◌, get_or, set, ltb, leb, ◌==◌, if◌then◌else◌,
  Result, ok, err, fault, ◌>>=◌, exfull,
}
use volatile.Registers.{Ptr, null}
use volatile.Ast.{AstKind, AstOperation, csv, store}

-- Memory, as in `Forest`.
abbrev pub Memory : Type 0
Memory = Ptr → AstOperation

unfoldable pub is_csv : AstKind → Bool
is_csv csv = true
is_csv _ = false

-- The two loops of `vltl_reshape_ast_tree_recurse_comma`, from the argument `i` of `from`, with `first` places of
-- the operation in use: the number in use after, and memory. The rounds left are those of `i` below 9.
unfoldable pub take_over : ℕ → Ptr → Ptr → ℕ → ℕ → Memory → ℕ × Memory
take_over zero operation from i first h = (first, h)
take_over (suc rounds) operation from i first h =
    let a = get_or (h from).arguments i null in
    let h₁ =
      store h operation
        (record (h operation) { arguments = set (h operation).arguments first a }) in
    let b = get_or (h₁ from).arguments i null in
    let h₂ = store h₁ b (record (h₁ b) { parent = operation }) in
    let more = take_over rounds operation from (suc i) (suc first) h₂ in
    if ltb first 9 then (if a == null then (first, h) else more) else (first, h)

-- What follows the left child; a right child that is NULL is read.
unfoldable pub join_right : Ptr → Ptr → ℕ × Memory → Result Memory
unfolding is_csv take_over
join_right operation rchild (first, h) =
    if leb 9 first
    then err exfull
    else if rchild == null
    then fault
    else if is_csv (h rchild).kind
    then (let (_, h') = take_over 9 operation rchild 0 first h in ok h')
    else ok (
        store h operation
          (record (h operation) { arguments = set (h operation).arguments first rchild }))

-- `vltl_reshape_ast_tree_recurse_comma`; a left child that is NULL is read.
unfoldable pub reshape_comma : Ptr → Memory → Result Memory
unfolding is_csv take_over join_right
reshape_comma operation h =
    let lchild = get_or (h operation).arguments 0 null in
    let rchild = get_or (h operation).arguments 1 null in
    let h₁ = store h operation (record (h operation) { kind = csv }) in
    if lchild == null
    then fault
    else join_right operation rchild
        (if is_csv (h₁ lchild).kind then take_over 9 operation lchild 0 0 h₁ else (1, h₁))
