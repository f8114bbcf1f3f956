-- ===== src/Compile/Function.antt =====
-- src/compile.c and src/reshape.c: a function, from the line that opens it to the one that closes its body.
use volatile.Base.{
  ℕ, ◌≤◌, ◌≡◌, refl, ◌∙◌, true, false, Option, some, List, [], ◌∷◌, ◌++◌, Bytes, codes, ◌==◌,
  if◌then◌else◌, Result, ok, err, ◌>>=◌, enotrecoverable, arith, Result-cases, inl, inr,
}
use volatile.Sast.{SastKind, SastOperation, node, kind, body_close}
use volatile.Sast.Call.{allocated}
use volatile.Compile.{Context, Piece, text, Target, function_body}
use volatile.Compile.Emit.{shut_body, after_close, is_function, convert_label}
use volatile.Asm.{is_amd64}
use volatile.Compile.Line.{convert_indented, convert}
use volatile.Compile.Order.{write_all, write_all-append}
use volatile.Compile.Balance.{Balanced}
use volatile.Compile.Written.{IsWritable, write_all-Completes, then_write-ok}

-- What a function is made with: `varena_alloc`, `vht_create` and `nkht_set` on the table of functions.
pub record Making (Heap : Type 0) : Type 0 where
  pub alloc : Heap → Option Heap
  pub vht_create : Heap → Option Heap
  pub nkht_set : Bytes → Heap → Result Heap

module _ {Table Heap : Type 0} (env : Target Table Heap) (making : Making Heap) where
  -- The body and the function that `vltl_compile_convert` and `vltl_reshape_ast_tree_function` open, with
  -- `vltl_lang_function_init`, of a name that is not NULL.
  unfoldable pub open_function : Context Table Heap → Bytes → Result (Context Table Heap)
  unfolding allocated
  open_function ctx name =
      if ctx.indentation_level == 0
      then (env.nkht_init ctx.heap >>= λ p. allocated (making.alloc p.1) >>= λ heap₁.
          allocated (making.vht_create heap₁) >>= λ heap₂. making.nkht_set name heap₂ >>= λ heap₃.
          ok (record ctx {
            indentation_level = 1;
            body_kind = λ i. if i == 0 then function_body else ctx.body_kind i;
            local_variables = λ i. if i == 0 then p.0 else ctx.local_variables i;
            has_function = true;
            heap = heap₃;
          }))
      else err enotrecoverable

  -- That nothing that is made fails.
  pub record Succeeds : Type 0 where
    pub init : (heap : Heap) → (r : Table × Heap) × (env.nkht_init heap ≡ ok r)
    pub alloc : (heap : Heap) → (h : Heap) × (making.alloc heap ≡ some h)
    pub create : (heap : Heap) → (h : Heap) × (making.vht_create heap ≡ some h)
    pub set : (name : Bytes) (heap : Heap) → (h : Heap) × (making.nkht_set name heap ≡ ok h)

  pub record Opened (ctx : Context Table Heap) (name : Bytes) : Type 0 where
    pub opened : Context Table Heap
    pub opens : open_function ctx name ≡ ok opened
    pub level : opened.indentation_level ≡ 1
    pub body : opened.body_kind 0 ≡ function_body
    pub function : opened.has_function ≡ true

  open_function-Opened :
      (ctx : Context Table Heap) (name : Bytes)
      → Succeeds
      → ctx.indentation_level ≡ 0
      → Opened ctx name
  unfolding open_function
  open_function-Opened ctx name s z =
      let ((table, heap), a) = s.init ctx.heap in
      let (heap₁, b) = s.alloc heap in
      let (heap₂, c) = s.create heap₁ in
      let (heap₃, d) = s.set name heap₂ in
      record {
        opened = record ctx {
          indentation_level = 1;
          body_kind = λ i. if i == 0 then function_body else ctx.body_kind i;
          local_variables = λ i. if i == 0 then table else ctx.local_variables i;
          has_function = true;
          heap = heap₃;
        };
        opens = rw (z, a, b, c, d) refl;
        level = refl;
        body = refl;
        function = refl;
      }

  -- The body of a function closes.
  shut_function :
      (ctx : Context Table Heap) (p : Option SastKind)
      → ctx.indentation_level ≡ 1
      → ctx.body_kind 0 ≡ function_body
      → (out : List Piece) × (end : Context Table Heap) × (shut_body env ctx p ≡ ok (out, end))
        × (end.indentation_level ≡ 0)
        × (end.has_function ≡ false)
  unfolding shut_body after_close is_function
  shut_function ctx p l b = elim (Result-cases (shut_body env ctx p)) [
    | inl ((out, end), e) ↦ (out, end, e, ground arith, ground arith)
    | inr (inl (c, e)) ↦ absurd (ground arith)
    | inr (inr e) ↦ absurd (ground arith)
  ]

  shut_line :
      (ctx : Context Table Heap) (c : SastOperation)
      → is_amd64 env.isa ≡ true
      → kind c ≡ body_close
      → ctx.indentation_level ≡ 1
      → ctx.body_kind 0 ≡ function_body
      → (out : List Piece) × (end : Context Table Heap) × (convert_indented env ctx c
          ≡ ok (out, end))
        × (end.indentation_level ≡ 0)
        × (end.has_function ≡ false)
  unfolding convert_indented convert convert_label
  shut_line ctx (node body_close p xs bs cs e d) a h l b =
      let (zs, end, shut, level, ended) = shut_function ctx p l b in
      (text (codes "\t") ∷ zs, end, rw (a, shut) refl, level, ended)
  shut_line ctx (node k p xs bs cs e d) a h l b = cc

  -- What is written of a function, and the context in the end: no body and no function is open.
  pub record Compiled (ctx : Context Table Heap) (name : Bytes) (os : List SastOperation)
      (c : SastOperation) : Type 0 where
    pub opened : Context Table Heap
    pub opens : open_function ctx name ≡ ok opened
    pub body : List Piece
    pub inner : Context Table Heap
    pub within : write_all env opened os ≡ ok (body, inner)
    pub balanced : Balanced opened inner body
    pub out : List Piece
    pub end : Context Table Heap
    pub written : write_all env opened (os ++ (c ∷ [])) ≡ ok (out, end)
    pub level : end.indentation_level ≡ 0
    pub function : end.has_function ≡ false

  -- For AMD64, where the allocations and tables that a function needs succeed: when no body is open, a function can
  -- be opened; operations that close the bodies that they open, nest at most 255 of them, and can be
  -- written otherwise, are written in it and leave its body open; and the closing of the body ends the function,
  -- on which the loop over the lines of a function waits.
  pub write_function-Compiled :
      (ctx : Context Table Heap) (name : Bytes) {d : ℕ} {os : List SastOperation}
      (c : SastOperation)
      → is_amd64 env.isa ≡ true
      → Succeeds
      → ctx.indentation_level ≡ 0
      → d ≤ 255
      → IsWritable env d os
      → kind c ≡ body_close
      → Compiled ctx name os c
  unfolding write_all
  write_function-Compiled ctx name {d} {os} c amd64 s z b w h =
      let o = open_function-Opened ctx name s z in
      let (body, inner, e, balanced) =
        write_all-Completes env o.opened amd64 s.init (omega (arith, o.level))
          (omega (arith, o.level, b)) w in
      let (lines, last, f, level, ended) =
        shut_line inner c amd64 h (balanced.level ∙ o.level)
          (balanced.kinds 0 (omega (arith, o.level)) ∙ o.body) in
      record {
        opened = o.opened;
        opens = o.opens;
        body = body;
        inner = inner;
        within = e;
        balanced = balanced;
        out = body ++ (lines ++ []);
        end = last;
        written =
            write_all-append env o.opened os (c ∷ [])
            ∙ then_write-ok env (λ m. write_all env m (c ∷ [])) e
                (then_write-ok env (λ m. ok ([], m)) f refl);
        level = level;
        function = ended;
      }
