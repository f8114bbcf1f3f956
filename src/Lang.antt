-- ===== src/Lang.antt =====
-- header/lang and src/lang: the operations, attributes and types of the language, and the tables of
-- src/global.c that the lexer finds them in by name.
pub mod Tables
use volatile.Base.{List, [], ◌∷◌, Bytes, codes, Bool, true, false}

-- `Vltl_lang_operation_kind`, without UNSET and INVALID, which no operation has. An operation of
-- src/lang/operation.c is known by its kind.
pub data LangOperation : Type 0 where
  comment equals address indirection add sub mul div test_equals comma typeas : LangOperation
  grouping_open grouping_close index_open index_close : LangOperation
  global constant external local function : LangOperation
  if_open elif_open else_open while_open body_open body_close return_value : LangOperation

-- The `name` of each operation.
unfoldable pub operation_name : LangOperation → Bytes
operation_name comment = codes "//"
operation_name equals = codes "="
operation_name address = codes "&"
operation_name indirection = codes "@"
operation_name add = codes "+"
operation_name sub = codes "-"
operation_name mul = codes "*"
operation_name div = codes "/"
operation_name test_equals = codes "=="
operation_name comma = codes ","
operation_name typeas = codes ":"
operation_name grouping_open = codes "("
operation_name grouping_close = codes ")"
operation_name index_open = codes "["
operation_name index_close = codes "]"
operation_name global = codes "global"
operation_name constant = codes "constant"
operation_name external = codes "external"
operation_name local = codes "local"
operation_name function = codes "function"
operation_name if_open = codes "if"
operation_name elif_open = codes "elif"
operation_name else_open = codes "else"
operation_name while_open = codes "while"
operation_name body_open = codes "{"
operation_name body_close = codes "}"
operation_name return_value = codes "return"

entry : LangOperation → Bytes × LangOperation
entry o = (operation_name o, o)

-- `vltl_global_table_operations_init`, in its order.
unfoldable pub operations : List (Bytes × LangOperation)
unfolding entry operation_name
operations =
    entry comment
    ∷ entry equals
    ∷ entry address
    ∷ entry indirection
    ∷ entry add
    ∷ entry sub
    ∷ entry mul
    ∷ entry div
    ∷ entry test_equals
    ∷ entry comma
    ∷ entry typeas
    ∷ entry grouping_open
    ∷ entry grouping_close
    ∷ entry index_open
    ∷ entry index_close
    ∷ entry global
    ∷ entry constant
    ∷ entry external
    ∷ entry local
    ∷ entry function
    ∷ entry if_open
    ∷ entry elif_open
    ∷ entry else_open
    ∷ entry while_open
    ∷ entry body_open
    ∷ entry body_close
    ∷ entry return_value
    ∷ []

-- `Vltl_lang_type_attribute_kind`, without UNSET and INVALID.
pub data TypeAttribute : Type 0 where
  atomic signed unsigned : TypeAttribute

-- `vltl_global_table_attributes_init`
unfoldable pub attributes : List (Bytes × TypeAttribute)
attributes = (codes "atomic", atomic) ∷ (codes "signed", signed) ∷ (codes "unsigned", unsigned) ∷ []

-- The types that src/lang/type.c defines.
pub data LangType : Type 0 where
  long int short char nullstr : LangType

-- `vltl_global_table_types_init`
unfoldable pub types : List (Bytes × LangType)
types =
    (codes "long", long)
    ∷ (codes "int", int)
    ∷ (codes "short", short)
    ∷ (codes "char", char)
    ∷ (codes "nullstr", nullstr)
    ∷ []
