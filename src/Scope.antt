-- ===== src/Scope.antt =====
-- src/lang/function.c and src/lang/local.c: the local variables of a function, in the bodies that are open. The
-- hash table of a body (src/ds/nkht.c) and the allocator (src/ds/varena.c) are parameters.
pub mod Locals
pub mod Frame
use volatile.Base.{
  ℕ, ◌+◌, ◌%◌, ◌^◌, Bool, true, false, Option, none, some, List, [], ◌∷◌, ◌++◌, Bytes, ◌==◌,
  if◌then◌else◌, set, Code, einval, enomem, Result, ok, err, fault, ◌>>=◌, length,
}
use volatile.Lexer.Tokenize.{Found, found, missing, failed}
use volatile.Lang.{LangType}

-- `Nkht`, from names to the addresses of locals, and `varena_alloc` of one local.
pub record Nkht (Table Arena : Type 0) : Type 0 where
  pub get : Table → Bytes → Found ℕ
  pub put : Table → Bytes → ℕ → Result Table
  pub alloc : Arena → Option Arena

-- `Vltl_lang_local`, without its attributes and literal, which are copied as they are.
pub record LangLocal : Type 0 where
  pub name : Bytes
  pub type : LangType
  pub frame_offset : ℕ

-- The locals of one function in memory, by their address; the tables of the open bodies
-- (`vltl_global_context.bodies` up to `indentation_level`), the innermost first; and the frame
-- of the function.
pub record Scope (Table Arena : Type 0) : Type 0 where
  pub bodies : List Table
  pub locals : List LangLocal
  pub arena : Arena
  pub stack_frame_size : ℕ
  pub stack_frame_cap : ℕ

module _ {Table Arena : Type 0} (nkht : Nkht Table Arena) where
  -- `vltl_lang_function_local_get`, of a function and a name that are not NULL.
  unfoldable pub local_get : List Table → Bytes → Found ℕ
  local_get [] name = missing
  local_get (b ∷ bs) name =
      let rest = local_get bs name in
      elim (nkht.get b name) [ missing ↦ rest | found p ↦ found p | failed ↦ failed ]

  -- `vltl_lang_function_local_exists`
  unfoldable pub local_exists : List Table → Bytes → Bool
  unfolding local_get
  local_exists bodies name = elim (local_get bodies name) [ found p ↦ true | _ ↦ false ]

  -- `vltl_lang_function_local_exists_here`; without an open body it reads before the array.
  unfoldable pub local_exists_here : List Table → Bytes → Result Bool
  local_exists_here [] name = fault
  local_exists_here (b ∷ bs) name = elim (nkht.get b name) [ found p ↦ ok true | _ ↦ ok false ]

  -- `vltl_lang_local_create` and `vltl_lang_local_init`: the address of the new local.
  unfoldable pub local_create :
      Scope Table Arena → Bytes → LangType → Option (ℕ × Scope Table Arena)
  local_create s name type = elim (nkht.alloc s.arena) [
    | none ↦ none
    | some arena ↦ some (
      length s.locals,
      record s {
        locals = s.locals ++ (record { name = name; type = type; frame_offset = 0 } ∷ []);
        arena = arena;
      },
    )
  ]

  -- The end of `vltl_lang_function_local_set`: the frame grows by 8 bytes, and the last of them is where
  -- the new local stands.
  unfoldable pub place : Scope Table Arena → Bytes → LangType → ℕ → Scope Table Arena
  place s name type p =
      let cap =
        if s.stack_frame_cap == s.stack_frame_size
        then (s.stack_frame_cap + 8) % 2 ^ 64
        else s.stack_frame_cap in
      let size = (s.stack_frame_size + 8) % 2 ^ 64 in
      record s {
        stack_frame_cap = cap;
        stack_frame_size = size;
        locals = set s.locals p (record { name = name; type = type; frame_offset = size });
      }

  -- `vltl_lang_function_local_set`
  unfoldable pub local_set : Scope Table Arena → Bytes → LangType → Result (Scope Table Arena)
  unfolding local_create place
  local_set s name type = elim s.bodies [
    | [] ↦ fault
    | b ∷ bs ↦ elim (nkht.get b name) [
      | missing ↦ elim (local_create s name type) [
        | none ↦ err enomem
        | some (p, s') ↦ do
          b' ← nkht.put b name p
          ok (place (record s' { bodies = b' ∷ bs }) name type p)
      ]
      | _ ↦ err einval
    ]
  ]
