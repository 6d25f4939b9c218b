-- ===== src/Value.antt =====
-- The values of include/deai/object.h: the tag of a `di_variant` with the field of the union
-- `di_value` that it selects. An object is the number of its heap cell. A float is its bit pattern.
use deai.Common.{ℕ, ◌+◌, Bool, true, false, ◌&&◌, List, ◌==◌, if◌then◌else◌}
use deai.Common.Int.{ℤ}
use deai.Types.{DiType, type_id}
use deai.Text.{Text}

mutual
  pub data Value : Type 0 where
    nil : Value
    any : Value
    last_type : Value
    bool : Bool → Value
    nint : ℤ → Value
    nuint : ℕ → Value
    int : ℤ → Value
    uint : ℕ → Value
    float : ℕ → Value
    pointer : ℕ → Value
    object : ℕ → Value
    empty_object : ℕ → Value
    weak_object : ℕ → Value
    string : Text → Value
    string_literal : List ℕ → Value
    array : DiType → Values → Value
    tuple : Values → Value
    variant : Value → Value

  -- The elements of an array, each with the array's element type as its tag, or of a tuple. No
  -- elements is the null pointer.
  pub data Values : Type 0 where
    end : Values
    item : Value → Values → Values

unfoldable pub type_of : Value → DiType
type_of nil = DiType.nil
type_of any = DiType.any
type_of last_type = DiType.last_type
type_of (bool b) = DiType.bool
type_of (nint i) = DiType.nint
type_of (nuint n) = DiType.nuint
type_of (int i) = DiType.int
type_of (uint n) = DiType.uint
type_of (float f) = DiType.float
type_of (pointer p) = DiType.pointer
type_of (object o) = DiType.object
type_of (empty_object o) = DiType.empty_object
type_of (weak_object o) = DiType.weak_object
type_of (string s) = DiType.string
type_of (string_literal s) = DiType.string_literal
type_of (array t vs) = DiType.array
type_of (tuple vs) = DiType.tuple
type_of (variant v) = DiType.variant

abbrev pub one_at : ℕ → ℕ → ℕ
one_at p q = if p == q then 1 else 0

-- How many strong references to object `q` a value owns.
unfoldable mutual
  pub strong : ℕ → Value → ℕ
  strong q (object p) = one_at p q
  strong q (empty_object p) = one_at p q
  strong q (array t vs) = strong_items q vs
  strong q (tuple vs) = strong_items q vs
  strong q (variant v) = strong q v
  strong q _ = 0

  pub strong_items : ℕ → Values → ℕ
  strong_items q end = 0
  strong_items q (item v vs) = strong q v + strong_items q vs

-- How many weak references to object `q` a value owns.
unfoldable mutual
  pub weak : ℕ → Value → ℕ
  weak q (weak_object p) = one_at p q
  weak q (array t vs) = weak_items q vs
  weak q (tuple vs) = weak_items q vs
  weak q (variant v) = weak q v
  weak q _ = 0

  pub weak_items : ℕ → Values → ℕ
  weak_items q end = 0
  weak_items q (item v vs) = weak q v + weak_items q vs

-- A type that array elements can have: it has values, and they take room.
abbrev pub has_elements : DiType → Bool
has_elements DiType.nil = false
has_elements DiType.any = false
has_elements DiType.last_type = false
has_elements _ = true

-- A value of the types that values have; the elements of an array are of its type.
unfoldable mutual
  unfolding type_id type_of

  pub sound : Value → Bool
  sound any = false
  sound last_type = false
  sound (array t end) = true
  sound (array t (item v vs)) = has_elements t && all_of t (item v vs) && sound_items (item v vs)
  sound (tuple vs) = sound_items vs
  sound (variant v) = sound v
  sound _ = true

  pub sound_items : Values → Bool
  sound_items end = true
  sound_items (item v vs) = sound v && sound_items vs

  pub all_of : DiType → Values → Bool
  all_of t end = true
  all_of t (item v vs) = type_id (type_of v) == type_id t && all_of t vs
