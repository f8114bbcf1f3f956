-- ===== src/Compile/Order.antt =====
-- src/compile.c: the order in which `vltl_compile_convert_recurse` writes the operations of a tree.
use volatile.Base.{
  Bool, ◌≡◌, refl, sym, ap, ◌∙◌, List, [], ◌∷◌, ◌++◌, Result, ok, err, fault, ◌>>=◌, if◌then◌else◌,
  append_assoc, append-nil, true, false, not,
}
use mathlib.Core.Path.{fun_ext, ap₂}
use volatile.Sast.{
  SastKind, unset, invalid, eof, eval, kind, SastOperation, Operations, nil, cons, node, kind_valid,
}
use volatile.Compile.{Context, Piece, Target}
use volatile.Compile.Line.{
  convert_indented, then_write, is_eval, recurse, recurse_arguments, recurse_all,
}

-- Values, which are no code of their own; and the kinds of operations that are not valid, whose arrays are not read.
unfoldable pub is_value : SastKind → Bool
is_value eval = true
is_value _ = false

unfoldable pub is_unread : SastKind → Bool
is_unread unset = true
is_unread invalid = true
is_unread eof = true
is_unread _ = false

-- The operations below a node in post-order: the arguments that are not values, what comes before, the
-- node, and what comes after.
unfoldable mutual
  unfolding is_value is_unread kind

  pub post_order : SastOperation → List SastOperation
  post_order (node k parent xs bs cs e d) =
      if is_unread k
      then node k parent xs bs cs e d ∷ []
      else post_order_arguments xs
        ++ (post_order_all bs ++ (node k parent xs bs cs e d ∷ post_order_all cs))

  pub post_order_arguments : Operations → List SastOperation
  post_order_arguments nil = []
  post_order_arguments (cons x xs) =
      if is_value (kind x) then post_order_arguments xs else post_order x ++ post_order_arguments xs

  pub post_order_all : Operations → List SastOperation
  post_order_all nil = []
  post_order_all (cons x xs) = post_order x ++ post_order_all xs

is_eval-is_value : (x : SastOperation) → is_eval x ≡ is_value (kind x)
unfolding is_eval is_value kind
is_eval-is_value (node eval p xs bs cs e d) = refl
is_eval-is_value (node _ p xs bs cs e d) = refl

kind_valid-is_unread : (k : SastKind) → kind_valid k ≡ not (is_unread k)
unfolding kind_valid is_unread
kind_valid-is_unread unset = refl
kind_valid-is_unread invalid = refl
kind_valid-is_unread eof = refl
kind_valid-is_unread _ = refl

module _ {Table Heap : Type 0} (env : Target Table Heap) where
  -- The code of one operation after another.
  unfoldable pub write_all :
      Context Table Heap → List SastOperation → Result (List Piece × Context Table Heap)
  unfolding then_write
  write_all ctx [] = ok ([], ctx)
  write_all ctx (o ∷ os) = then_write env (convert_indented env ctx o) λ c. write_all c os

  abbrev preceded :
      List Piece
      → Result (List Piece × Context Table Heap)
      → Result (List Piece × Context Table Heap)
  preceded out r = r >>= λ q. ok (out ++ q.0, q.1)

  preceded-preceded :
      (xs ys : List Piece) (r : Result (List Piece × Context Table Heap))
      → preceded (xs ++ ys) r ≡ preceded xs (preceded ys r)
  preceded-preceded xs ys fault = refl
  preceded-preceded xs ys (err c) = refl
  preceded-preceded xs ys (ok (zs, ctx)) = ap (λ l. ok (l, ctx)) (append_assoc xs ys zs)

  then_write-preceded :
      (xs : List Piece) (r : Result (List Piece × Context Table Heap))
      (g : Context Table Heap → Result (List Piece × Context Table Heap))
      → then_write env (preceded xs r) g ≡ preceded xs (then_write env r g)
  unfolding then_write
  then_write-preceded xs fault g = refl
  then_write-preceded xs (err c) g = refl
  then_write-preceded xs (ok (ys, ctx)) g = preceded-preceded xs ys (g ctx)

  pub then_write_assoc :
      (first : Result (List Piece × Context Table Heap))
      (f g : Context Table Heap → Result (List Piece × Context Table Heap))
      → then_write env (then_write env first f) g
        ≡ then_write env first (λ c. then_write env (f c) g)
  unfolding then_write
  then_write_assoc fault f g = refl
  then_write_assoc (err c) f g = refl
  then_write_assoc (ok (out, ctx)) f g = then_write-preceded out (f ctx) g

  pub then_write-nothing :
      (first : Result (List Piece × Context Table Heap))
      → then_write env first (λ c. ok ([], c)) ≡ first
  unfolding then_write
  then_write-nothing fault = refl
  then_write-nothing (err c) = refl
  then_write-nothing (ok (out, ctx)) = ap (λ l. ok (l, ctx)) (append-nil out)

  nothing-then_write : (r : Result (List Piece × Context Table Heap)) → preceded [] r ≡ r
  nothing-then_write fault = refl
  nothing-then_write (err c) = refl
  nothing-then_write (ok p) = refl

  -- The code of a list of operations is the code of its first part and then of the rest.
  pub write_all-append :
      (ctx : Context Table Heap) (xs ys : List SastOperation)
      → write_all ctx (xs ++ ys) ≡ then_write env (write_all ctx xs) (λ c. write_all c ys)
  unfolding write_all then_write
  write_all-append ctx [] ys = sym (nothing-then_write (write_all ctx ys))
  write_all-append ctx (x ∷ xs) ys =
      ap (then_write env (convert_indented env ctx x)) (fun_ext λ c. write_all-append c xs ys)
      ∙ sym (
          then_write_assoc (convert_indented env ctx x) (λ c. write_all c xs) (λ c. write_all c ys))

  then_write_cong :
      {first first' : Result (List Piece × Context Table Heap)}
      {next next' : Context Table Heap → Result (List Piece × Context Table Heap)}
      → first ≡ first'
      → ((c : Context Table Heap) → next c ≡ next' c)
      → then_write env first next ≡ then_write env first' next'
  then_write_cong p q = ap₂ (then_write env) p (fun_ext q)

  write_all-unless :
      (b c : Bool) (ctx : Context Table Heap) {x y : Result (List Piece × Context Table Heap)}
      (xs ys : List SastOperation)
      → b ≡ not c
      → x ≡ write_all ctx xs
      → y ≡ write_all ctx ys
      → (if b then x else y) ≡ write_all ctx (if c then ys else xs)
  write_all-unless b true ctx xs ys r p q = rw r q
  write_all-unless b false ctx xs ys r p q = rw r p

  write_all-if :
      (b c : Bool) (ctx : Context Table Heap) {x y : Result (List Piece × Context Table Heap)}
      (xs ys : List SastOperation)
      → b ≡ c
      → x ≡ write_all ctx xs
      → y ≡ write_all ctx ys
      → (if b then x else y) ≡ write_all ctx (if c then xs else ys)
  write_all-if b true ctx xs ys r p q = rw r p
  write_all-if b false ctx xs ys r p q = rw r q

  mutual
    unfolding recurse post_order write_all

    recurse_lem :
        (ctx : Context Table Heap) (o : SastOperation)
        → recurse env ctx o ≡ write_all ctx (post_order o)
    recurse_lem ctx (node k parent xs bs cs e d) =
        let o = node k parent xs bs cs e d in
        write_all-unless (kind_valid k) (is_unread k) ctx _ _ (kind_valid-is_unread k)
          (then_write_cong (recurse_arguments_lem ctx xs) (λ c₁.
              then_write_cong (recurse_all_lem c₁ bs)
                (λ c₂. then_write_cong refl (λ c₃. recurse_all_lem c₃ cs))
              ∙ sym (write_all-append c₁ (post_order_all bs) (o ∷ post_order_all cs)))
            ∙ sym (
                write_all-append ctx (post_order_arguments xs)
                  (post_order_all bs ++ (o ∷ post_order_all cs))))
          (sym (then_write-nothing (convert_indented env ctx o)))

    recurse_arguments_lem :
        (ctx : Context Table Heap) (xs : Operations)
        → recurse_arguments env ctx xs ≡ write_all ctx (post_order_arguments xs)
    recurse_arguments_lem ctx nil = refl
    recurse_arguments_lem ctx (cons x xs) =
        write_all-if (is_eval x) (is_value (kind x)) ctx _ _ (is_eval-is_value x)
          (recurse_arguments_lem ctx xs)
          (then_write_cong (recurse_lem ctx x) (λ c. recurse_arguments_lem c xs)
            ∙ sym (write_all-append ctx (post_order x) (post_order_arguments xs)))

    recurse_all_lem :
        (ctx : Context Table Heap) (xs : Operations)
        → recurse_all env ctx xs ≡ write_all ctx (post_order_all xs)
    recurse_all_lem ctx nil = refl
    recurse_all_lem ctx (cons x xs) =
        then_write_cong (recurse_lem ctx x) (λ c. recurse_all_lem c xs)
        ∙ sym (write_all-append ctx (post_order x) (post_order_all xs))

  -- The code of a tree is the code of its root and of those operations that are not values among arguments, one
  -- after another, each once, in post-order: an operation is written after all its arguments, and so the condition
  -- of a loop before the loop's label; arguments that are values, and all below them, are not written, nor is what
  -- stands below an operation that is not valid. An
  -- error or a fault of the one is an error or a fault of the other.
  pub recurse-post_order :
      (ctx : Context Table Heap) (o : SastOperation)
      → recurse env ctx o ≡ write_all ctx (post_order o)
  recurse-post_order ctx o = recurse_lem ctx o
