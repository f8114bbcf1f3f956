-- ===== src/Lang/Tables.antt =====
-- The tables find what the program registers in them, under one name each.
use volatile.Base.{◌≡◌, refl, some, lookup, bytes_eq}
use volatile.Lang.{LangOperation, comment, operation_name, operations}

-- Every operation is found under its name: no later registration replaces an earlier one.
lookup-operation_name : (o : LangOperation) → lookup (operation_name o) operations ≡ some o
unfolding operations lookup bytes_eq
lookup-operation_name comment = refl
lookup-operation_name _ = refl
