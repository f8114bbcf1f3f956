-- ===== src/Sast/Connect/Temporaries.antt =====
-- src/sast.c: the locals that the choice of registers adds to a function are those of src/lang/function.c.
use volatile.Base.{
  ℕ, ◌+◌, ◌%◌, ◌^◌, ◌≡◌, refl, Bool, true, Option, none, some, Bytes, Result, ok, err, ◌>>=◌,
  if◌then◌else◌, enotrecoverable, Option-cases, inl, inr, Bool-cases, arith, sym, ap, ◌∙◌,
}
use volatile.Lang.{LangType}
use volatile.Scope.{Nkht, Scope, local_set}
use volatile.Sast.{SastOperation}
use volatile.Sast.Connect.Inuse.{Inuse}
use volatile.Sast.Connect.Recurse.{Function, connect_recurse}
use volatile.Sast.Connect.Distinct.{Distinct}
use volatile.Sast.Connect.Gives.{Gives, gives, given, any_result, no_result}
use volatile.Sast.Connect.Keeps.{StaysOpen}
use volatile.Sast.Connect.Own.{counted_goals, connect_recurse-Distinct}

-- `vltl_global_context.function`: whether it is not NULL, its number of temporary variables and its locals.
pub record OpenedFunction (Table Arena : Type 0) : Type 0 where
  pub is_open : Bool
  pub num_tmp_variables : ℕ
  pub scope : Scope Table Arena

-- `snprintf` to the 25 bytes of `dest`, and the hash tables and the allocator.
module _ {Table Arena : Type 0} (snprintf : ℕ → Result Bytes) (nkht : Nkht Table Arena) where
  -- `varena_alloc` of what is not a local.
  unfoldable pub opened_alloc : OpenedFunction Table Arena → Option (OpenedFunction Table Arena)
  opened_alloc st = elim (nkht.alloc st.scope.arena) [
    | none ↦ none
    | some arena ↦ some (record st { scope = record st.scope { arena = arena } })
  ]

  -- The name of a temporary variable; the number of them goes up.
  unfoldable pub opened_tmp_name :
      OpenedFunction Table Arena → Result (Bytes × OpenedFunction Table Arena)
  opened_tmp_name st =
      if st.is_open
      then (snprintf st.num_tmp_variables >>= λ name.
          ok (name, record st { num_tmp_variables = (st.num_tmp_variables + 1) % 2 ^ 64 }))
      else err enotrecoverable

  -- The local of type `long` with that name.
  unfoldable pub opened_local_set :
      Bytes → OpenedFunction Table Arena → Result (OpenedFunction Table Arena)
  unfolding local_set
  opened_local_set name st =
      local_set nkht st.scope name LangType.long >>= λ scope. ok (record st { scope = scope })

  abbrev pub opened_function : Function (OpenedFunction Table Arena)
  opened_function = record {
    is_open = λ st. st.is_open;
    varena_alloc = opened_alloc;
    tmp_name = opened_tmp_name;
    local_set = opened_local_set;
  }

  opened_alloc-is_open :
      (st st' : OpenedFunction Table Arena) → opened_alloc st ≡ some st' → st'.is_open ≡ st.is_open
  unfolding opened_alloc
  opened_alloc-is_open st st' e = elim (Option-cases (nkht.alloc st.scope.arena)) [
    | inl none_left ↦ absurd (ground arith)
    | inr (arena, q) ↦
        ap (λ o. elim o [ some s ↦ s.is_open | none ↦ st.is_open ]) (sym e) ∙ rw q refl
  ]

  opened_tmp_name-is_open :
      (st : OpenedFunction Table Arena)
      → Gives (λ (name, st'). st'.is_open ≡ st.is_open) (opened_tmp_name st)
  unfolding opened_tmp_name
  opened_tmp_name-is_open st = elim (Bool-cases st.is_open) [
    | inl t ↦ rw t (any_result (snprintf st.num_tmp_variables) λ name. gives refl)
    | inr t ↦ rw t no_result
  ]

  opened_local_set-is_open :
      (name : Bytes) (st : OpenedFunction Table Arena)
      → Gives (λ st'. st'.is_open ≡ st.is_open) (opened_local_set name st)
  unfolding opened_local_set
  opened_local_set-is_open name st =
      any_result (local_set nkht st.scope name LangType.long) λ scope. gives refl

  opened_function-StaysOpen : StaysOpen opened_function
  opened_function-StaysOpen = record {
    varena_alloc = opened_alloc-is_open;
    tmp_name = λ st st' name e. given (opened_tmp_name-is_open st) e;
    local_set = λ st st' name e. given (opened_local_set-is_open name st) e;
  }

  -- In a function: when an operation is connected, its arguments go to different registers.
  pub connect_recurse-Separates :
      (index : ℕ) (above below : Inuse) (o y : SastOperation) (st st' : OpenedFunction Table Arena)
      → st.is_open ≡ true
      → connect_recurse opened_function index above o st ≡ ok (y, (below, st'))
      → Distinct (counted_goals y)
  connect_recurse-Separates = connect_recurse-Distinct opened_function opened_function-StaysOpen
