-- ===== src/Sast/Convert/Made.antt =====
-- src/sast.c: an operation that is converted, and the places for its arguments.
use volatile.Base.{
  ℕ, suc, ◌+◌, ◌<◌, ◌≡◌, refl, ap, Bool, true, false, Option, none, some, List, [], ◌∷◌, ◌==◌,
  ==_refl, replicate, ok, arith,
}
use volatile.Sast.Fold.{number}
use volatile.Sast.Connect.{register_operand}
use volatile.Asm.{rax, Operand, Isa, is_amd64}
use volatile.Ast
use volatile.Ast.{AstKind, expected_of}
use volatile.Sast.{
  SastKind, SastOperation, Operations, node, nil, cons, kind, kind_valid, arguments, count,
  args_argc, expected_argc, variable_argc, operation_valid, csv, indirection, call, lea, store, ret,
  div, load, load_src3,
}
use volatile.Sast.Call.{allocated}
use volatile.Sast.Source.{Meaning, Source, Sources, source, empty, arg, source_argc, source_valid}
use volatile.Sast.Convert.{
  Pointer, Converted, convert_operation, convert_plain, convert_indirection, bare_node, eval_below,
  supposed, written, function_operand,
}
use volatile.Sast.Convert.Paths.{find, modify, append_argument, snoc}
use volatile.Sast.Convert.Loop.{set_parent, is_full}
use volatile.Sast.Convert.Lower.{
  Lowers, LowersAll, simple_kind, cdecl_kind, value, declared, simple, listed, called, addressed,
  returned, divided, indexed, none_left, next,
}

-- Operations that are converted and inserted at pointers into an operation, one after the other.
pub data Fills : SastOperation → List Pointer → Sources → SastOperation → Type 0 where
  filled : {c : SastOperation} → Fills c [] empty c
  fill :
      {c o x c' : SastOperation} {p : Pointer} {ps : List Pointer} {s : Source} {ss : Sources}
      → find p c ≡ some o
      → is_full o ≡ false
      → operation_valid o ≡ true
      → Lowers (some (kind o)) s x
      → Fills (modify p (append_argument x) c) ps ss c'
      → Fills c (p ∷ ps) (arg s ss) c'

joined : Operations → Operations → Operations
joined nil xs = xs
joined (cons y ys) xs = cons y (joined ys xs)

joined-nil : (ys : Operations) → joined ys nil ≡ ys
unfolding joined
joined-nil nil = refl
joined-nil (cons y ys) = ap (cons y) (joined-nil ys)

joined-snoc :
    (ys : Operations) (x : SastOperation) (xs : Operations)
    → joined (snoc ys x) xs ≡ joined ys (cons x xs)
unfolding joined snoc
joined-snoc nil x xs = refl
joined-snoc (cons y ys) x xs = ap (cons y) (joined-snoc ys x xs)

count-snoc : (ys : Operations) (x : SastOperation) → count (snoc ys x) ≡ suc (count ys)
unfolding count snoc
count-snoc nil x = refl
count-snoc (cons y ys) x = ap suc (count-snoc ys x)

-- The arguments of an operation fill it in order, while it has room.
fill_in_order :
    (k : SastKind) (q : Option SastKind) (n : ℕ) (ys : Operations) {ss : Sources} {xs : Operations}
    → kind_valid k ≡ true
    → ((zs : Operations) → count zs < n → is_full (bare_node k q zs) ≡ false)
    → count ys + source_argc ss ≡ n
    → LowersAll (some k) ss xs
    → Fills (bare_node k q ys) (replicate (source_argc ss) []) ss (bare_node k q (joined ys xs))
unfolding source_argc find modify append_argument operation_valid kind joined
fill_in_order k q n ys v r e none_left = rw (joined-nil ys) filled
fill_in_order k q n ys v r e (next {ss = ss} {x = x} {xs = xs} l ls) =
    fill refl (r ys (omega (arith, e))) v l (
      rw (← joined-snoc ys x xs)
        (fill_in_order k q n (snoc ys x) v r (omega (arith, count-snoc ys x, e)) ls))

-- What is made of an operation.
pub record Made {Heap : Type 0} (varena_alloc : Heap → Option Heap) (isa : Isa)
    (q : Option SastKind) (k : AstKind) (m : Meaning) (l : Option AstKind) (ss : Sources)
    (x : SastOperation) (heap : Heap) : Type 0 where
  pub converted : Converted Heap
  pub converts : convert_operation varena_alloc isa (source k m true l ss) heap ≡ ok converted
  pub valid : operation_valid converted.equivalent ≡ true
  pub takes : (source_argc ss == expected_of k (source_argc ss)) ≡ true
  pub fills : Fills (set_parent q converted.equivalent) converted.pushed ss x

-- What a division and a return store in, and what an index becomes first.
abbrev rax_store : SastOperation
rax_store = bare_node store none (cons (eval_below none (register_operand rax)) nil)

abbrev index_node : SastOperation
index_node =
    node load_src3 none
      (cons (eval_below (some load_src3) Operand.tbd) (
        cons (bare_node load (some load_src3) (cons (eval_below (some load) Operand.tbd) nil))
          (cons (eval_below (some load_src3) (number 0)) nil)))
      nil nil Operand.unset Operand.tbd

-- What the simple kinds have in common.
record Simple {Heap : Type 0} (varena_alloc : Heap → Option Heap) (isa : Isa) (k : AstKind)
    (k' : SastKind) (n : ℕ) : Type 0 where
  makes :
      (m : Meaning) (l : Option AstKind) (ss : Sources) (heap heap' : Heap)
      → varena_alloc heap ≡ some heap'
      → convert_operation varena_alloc isa (source k m true l ss) heap
        ≡ ok (record { equivalent = bare_node k' none nil; pushed = replicate n []; heap = heap' })
  valid : kind_valid k' ≡ true
  takes : (n == expected_of k n) ≡ true
  room :
      (q : Option SastKind) (zs : Operations) → count zs < n → is_full (bare_node k' q zs) ≡ false

module _ {Heap : Type 0} (varena_alloc : Heap → Option Heap) (isa : Isa)
    (allocates : (heap : Heap) → (h : Heap) × (varena_alloc heap ≡ some h))
    (amd64 : is_amd64 isa ≡ true) where
  abbrev SimpleIf : AstKind → Option (SastKind × ℕ) → Type 0
  SimpleIf k none = k ≡ k
  SimpleIf k (some (k', n)) = Simple varena_alloc isa k k' n

  -- Both branches of an indirection do the same.
  convert_indirection_lem :
      (l : Option AstKind)
      → convert_indirection varena_alloc l ≡ convert_plain varena_alloc indirection 1
  unfolding convert_indirection
  convert_indirection_lem none = refl
  convert_indirection_lem (some AstKind.equals) = refl
  convert_indirection_lem (some _) = refl

  simple_kind-Simple : (k : AstKind) → SimpleIf k (simple_kind k)
  unfolding convert_operation allocated source_valid Ast.kind_valid is_full kind_valid variable_argc
      args_argc expected_argc operation_valid kind arguments count
  simple_kind-Simple AstKind.unset = refl
  simple_kind-Simple AstKind.invalid = refl
  simple_kind-Simple AstKind.eval = refl
  simple_kind-Simple AstKind.attribute = refl
  simple_kind-Simple AstKind.address = refl
  simple_kind-Simple AstKind.index_open = refl
  simple_kind-Simple AstKind.call = refl
  simple_kind-Simple AstKind.div = refl
  simple_kind-Simple AstKind.csv = refl
  simple_kind-Simple AstKind.return = refl
  simple_kind-Simple AstKind.cdecl0 = refl
  simple_kind-Simple AstKind.cdecl1 = refl
  simple_kind-Simple AstKind.cdecl2 = refl
  simple_kind-Simple AstKind.cdecl3 = refl
  simple_kind-Simple AstKind.cdecl4 = refl
  simple_kind-Simple AstKind.external = refl
  simple_kind-Simple AstKind.eof = refl
  simple_kind-Simple AstKind.indirection = record {
    makes = λ m l ss h h' a. rw (amd64, convert_indirection_lem l, a) refl;
    valid = refl;
    takes = refl;
    room = λ q zs c. ground arith;
  }
  simple_kind-Simple _ = record {
    makes = λ m l ss h h' a. rw (amd64, a) refl;
    valid = refl;
    takes = refl;
    room = λ q zs c. ground arith;
  }

  -- Of the simple kinds, with the number of arguments that they take.
  simple-Made :
      (q : Option SastKind) (k : AstKind) (m : Meaning) (l : Option AstKind) (ss : Sources)
      (xs : Operations) (k' : SastKind) (heap : Heap)
      → simple_kind k ≡ some (k', source_argc ss)
      → LowersAll (some k') ss xs
      → Made varena_alloc isa q k m l ss (bare_node k' q xs) heap
  unfolding set_parent operation_valid kind joined count
  simple-Made q k m l ss xs k' heap e ls =
      let s : SimpleIf k (some (k', source_argc ss)) = rw e at (simple_kind-Simple k) in
      let (heap', a) = allocates heap in
      record {
        converted = record {
          equivalent = bare_node k' none nil;
          pushed = replicate (source_argc ss) [];
          heap = heap';
        };
        converts = s.makes m l ss heap heap' a;
        valid = s.valid;
        takes = s.takes;
        fills = fill_in_order k' q (source_argc ss) nil s.valid (s.room q) (omega arith) ls;
      }

  abbrev DeclaredIf : AstKind → Option SastKind → Type 0
  DeclaredIf k none = k ≡ k
  DeclaredIf k (some k') =
      ((m : Meaning) (l : Option AstKind) (heap heap' : Heap) (e : Operand)
        → varena_alloc heap ≡ some heap'
        → function_operand m ≡ ok e
        → convert_operation varena_alloc isa (source k m true l empty) heap
          ≡ ok (record {
            equivalent = node k' none nil nil nil e Operand.unset;
            pushed = [];
            heap = heap';
          }))
      × (kind_valid k' ≡ true)
      × ((0 == expected_of k 0) ≡ true)

  cdecl_kind-declared : (k : AstKind) → DeclaredIf k (cdecl_kind k)
  unfolding convert_operation allocated source_valid Ast.kind_valid kind_valid
  cdecl_kind-declared AstKind.cdecl0 = (λ m l h h' e a f. rw (amd64, a, f) refl, refl, refl)
  cdecl_kind-declared AstKind.cdecl1 = (λ m l h h' e a f. rw (amd64, a, f) refl, refl, refl)
  cdecl_kind-declared AstKind.cdecl2 = (λ m l h h' e a f. rw (amd64, a, f) refl, refl, refl)
  cdecl_kind-declared AstKind.cdecl3 = (λ m l h h' e a f. rw (amd64, a, f) refl, refl, refl)
  cdecl_kind-declared AstKind.cdecl4 = (λ m l h h' e a f. rw (amd64, a, f) refl, refl, refl)
  cdecl_kind-declared _ = refl

  declared-Made :
      (q : Option SastKind) (k : AstKind) (m : Meaning) (l : Option AstKind) (k' : SastKind)
      (e : Operand) (heap : Heap)
      → cdecl_kind k ≡ some k'
      → function_operand m ≡ ok e
      → Made varena_alloc isa q k m l empty (node k' q nil nil nil e Operand.unset) heap
  unfolding set_parent operation_valid kind source_argc
  declared-Made q k m l k' e heap c f =
      let (makes, valid, takes) : DeclaredIf k (some k') = rw c at (cdecl_kind-declared k) in
      let (heap', a) = allocates heap in
      record {
        converted = record {
          equivalent = node k' none nil nil nil e Operand.unset;
          pushed = [];
          heap = heap';
        };
        converts = makes m l heap heap' e a f;
        valid = valid;
        takes = takes;
        fills = filled;
      }

  pub made :
      (q : Option SastKind) (k : AstKind) (m : Meaning) (t : Bool) (l : Option AstKind)
      (ss : Sources) (x : SastOperation) (heap : Heap)
      → Lowers q (source k m t l ss) x
      → (t ≡ true) × Made varena_alloc isa q k m l ss x heap
  unfolding convert_operation allocated supposed written source_valid Ast.kind_valid is_full
      kind_valid variable_argc args_argc expected_argc operation_valid kind arguments count
      set_parent find modify append_argument source_argc joined
  made q k m t l ss x heap (value e h) =
      let (heap₁, a) = allocates heap in
      (
        refl,
        record {
          converted = record { equivalent = eval_below none e; pushed = []; heap = heap₁ };
          converts = rw (amd64, a, h) refl;
          valid = refl;
          takes = refl;
          fills = filled;
        },
      )
  made q k m t l ss x heap (declared k' e c f) = (refl, declared-Made q k m l k' e heap c f)
  made q k m t l ss x heap (simple {xs = xs} k' e ls) =
      (refl, simple-Made q k m l ss xs k' heap e ls)
  made q k m t l ss x heap (listed {xs = xs} ls) =
      let (heap₁, a) = allocates heap in
      (
        refl,
        record {
          converted = record {
            equivalent = bare_node csv none nil;
            pushed = replicate (source_argc ss) [];
            heap = heap₁;
          };
          converts = rw (amd64, a) refl;
          valid = refl;
          takes = ==_refl (source_argc ss);
          fills = fill_in_order csv q (source_argc ss) nil refl (λ zs c. refl) (omega arith) ls;
        },
      )
  made q k m t l ss x heap (called e f s) =
      let (heap₁, a) = allocates heap in
      let (heap₂, b) = allocates heap₁ in
      (
        refl,
        record {
          converted = record {
            equivalent =
                node call none (cons (eval_below (some call) e) nil) nil nil Operand.unset
                  (register_operand rax);
            pushed = [] ∷ [];
            heap = heap₂;
          };
          converts = rw (amd64, a, b, f) refl;
          valid = refl;
          takes = refl;
          fills = fill refl refl refl s filled;
        },
      )
  made q k m t l ss x heap (addressed s) =
      let (heap₁, a) = allocates heap in
      let (heap₂, b) = allocates heap₁ in
      (
        refl,
        record {
          converted = record {
            equivalent = bare_node lea none (cons (eval_below (some lea) Operand.tbd) nil);
            pushed = [] ∷ [];
            heap = heap₂;
          };
          converts = rw (amd64, a, b) refl;
          valid = refl;
          takes = refl;
          fills = fill refl refl refl s filled;
        },
      )
  made q k m t l ss x heap (returned s) =
      let (heap₁, a) = allocates heap in
      let (heap₂, b) = allocates heap₁ in
      let (heap₃, c) = allocates heap₂ in
      (
        refl,
        record {
          converted = record {
            equivalent = bare_node ret none (cons rax_store nil);
            pushed = (0 ∷ []) ∷ [];
            heap = heap₃;
          };
          converts = rw (amd64, a, b, c) refl;
          valid = refl;
          takes = refl;
          fills = fill refl refl refl s filled;
        },
      )
  made q k m t l ss x heap (divided s r) =
      let (heap₁, a) = allocates heap in
      let (heap₂, b) = allocates heap₁ in
      let (heap₃, c) = allocates heap₂ in
      (
        refl,
        record {
          converted = record {
            equivalent =
                node div none (cons rax_store nil) nil nil Operand.unset (register_operand rax);
            pushed = (0 ∷ []) ∷ [] ∷ [];
            heap = heap₃;
          };
          converts = rw (amd64, a, b, c) refl;
          valid = refl;
          takes = refl;
          fills = fill refl refl refl s (fill refl refl refl r filled);
        },
      )
  made q k m t l ss x heap (indexed s r o) =
      let (heap₁, a) = allocates heap in
      let (heap₂, b) = allocates heap₁ in
      let (heap₃, c) = allocates heap₂ in
      let (heap₄, d) = allocates heap₃ in
      let (heap₅, e) = allocates heap₄ in
      (
        refl,
        record {
          converted = record {
            equivalent = index_node;
            pushed = (1 ∷ []) ∷ [] ∷ [] ∷ [];
            heap = heap₅;
          };
          converts = rw (amd64, a, b, c, d, e) refl;
          valid = refl;
          takes = refl;
          fills = fill refl refl refl s (fill refl refl refl r (fill refl refl refl o filled));
        },
      )
