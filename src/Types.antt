-- ===== src/Types.antt =====
-- The type ids of include/deai/object.h, the size of a value of each type and the table of their
-- names in object.c. Sizes are those of a 64-bit platform.
use deai.Common.{ℕ, Option, none, some}
use Prim.Native.String.{String}

pub data DiType : Type 0 where
  nil any empty_object bool nint nuint int uint float pointer object weak_object : DiType
  string string_literal array tuple variant last_type : DiType

pub DiType-discrete : Discrete DiType
DiType-discrete = hlevel

-- The number of a type in the enumeration, which both languages share.
unfoldable pub type_id : DiType → ℕ
type_id nil = 0
type_id any = 1
type_id empty_object = 2
type_id bool = 3
type_id nint = 4
type_id nuint = 5
type_id int = 6
type_id uint = 7
type_id float = 8
type_id pointer = 9
type_id object = 10
type_id weak_object = 11
type_id string = 12
type_id string_literal = 13
type_id array = 14
type_id tuple = 15
type_id variant = 16
type_id last_type = 17

-- `none` is abort ().
unfoldable pub di_sizeof_type : DiType → Option ℕ
di_sizeof_type nil = some 0
di_sizeof_type any = none
di_sizeof_type last_type = none
di_sizeof_type float = some 8
di_sizeof_type array = some 24
di_sizeof_type tuple = some 16
di_sizeof_type variant = some 16
di_sizeof_type uint = some 8
di_sizeof_type int = some 8
di_sizeof_type nuint = some 4
di_sizeof_type nint = some 4
di_sizeof_type string = some 16
di_sizeof_type string_literal = some 8
di_sizeof_type object = some 8
di_sizeof_type empty_object = some 8
di_sizeof_type pointer = some 8
di_sizeof_type weak_object = some 8
di_sizeof_type bool = some 1

unfoldable pub di_type_names : DiType → String
di_type_names nil = "nil"
di_type_names any = "any"
di_type_names empty_object = "empty_object"
di_type_names bool = "bool"
di_type_names nint = "nint"
di_type_names nuint = "nuint"
di_type_names int = "int"
di_type_names uint = "uint"
di_type_names float = "float"
di_type_names pointer = "pointer"
di_type_names object = "object"
di_type_names weak_object = "weak_object"
di_type_names string = "string"
di_type_names string_literal = "string_literal"
di_type_names array = "array"
di_type_names tuple = "tuple"
di_type_names variant = "variant"
di_type_names last_type = "invalid"
