-- ===== src/Text.antt =====
-- The string values of the program: `di_string` and its inline functions, include/deai/object.h.
-- A `di_string` is a pointer that may be null and a length; a C string is the list of its bytes
-- before the terminator.
pub mod Join
pub mod Split
pub mod Slice
use deai.Common.{
  ℕ, suc, ◌+◌, ◌-◌, ◌*◌, ◌%◌, ◌^◌, Bool, true, false, ◌&&◌, List, [], ◌∷◌, ◌++◌, map, Option, none,
  some, ltb, leb, ◌==◌, if◌then◌else◌, length, take, drop, ◌>>=◌, ◌>>◌,
}
use mathlib.Core.Option
use deai.Common.Buffer.{Buffer, malloc, memcpy, read_all}

-- `null` is DI_STRING_INIT, the only value whose `data` is NULL.
pub data Text : Type 0 where
  null : Text
  chars : List ℕ → Text

-- What `data` points to, `length` bytes of it.
abbrev pub bytes : Text → List ℕ
bytes null = []
bytes (chars cs) = cs

-- The `length` field.
abbrev pub size : Text → ℕ
size s = length (bytes s)

-- strlen and the bytes that it counts: those before the first zero.
unfoldable pub c_str : List ℕ → List ℕ
c_str [] = []
c_str (c ∷ cs) = if c == 0 then [] else c ∷ c_str cs

-- memcmp (a, b, n) == 0, over lists that have n elements both
unfoldable pub same_bytes : List ℕ → List ℕ → Bool
same_bytes [] [] = true
same_bytes (a ∷ as') (b ∷ bs) = a == b && same_bytes as' bs
same_bytes _ _ = false

unfoldable pub di_string_dup : Option (List ℕ) → Text
unfolding c_str
di_string_dup none = null
di_string_dup (some str) = chars (c_str str)

-- malloc, also of no bytes, gives a pointer that is not null.
unfoldable pub di_string_ndup : List ℕ → ℕ → Text
di_string_ndup str len = chars (take len str)

unfoldable pub di_clone_string : Text → Text
unfolding di_string_ndup
di_clone_string other = di_string_ndup (bytes other) (size other)

unfoldable pub di_string_borrow : List ℕ → Text
unfolding c_str
di_string_borrow str = chars (c_str str)

-- The bytes with the terminator behind them, if the caller's buffer has room for both.
unfoldable pub di_string_to_chars : Text → ℕ → Option (List ℕ)
di_string_to_chars str capacity =
    if ltb capacity (size str + 1) then none else some (bytes str ++ 0 ∷ [])

unfoldable pub di_string_to_chars_alloc : Text → Option (List ℕ)
unfolding di_string_to_chars
di_string_to_chars_alloc str = if size str == 0 then none else di_string_to_chars str (size str + 1)

-- memchr: the index of the first `c`
unfoldable pub memchr : List ℕ → ℕ → Option ℕ
memchr [] c = none
memchr (x ∷ xs) c = if x == c then some 0 else Option.map suc (memchr xs c)

unfoldable pub split_at : Text → Option ℕ → Option (Text × Text)
split_at str none = none
split_at str (some pos) = some (chars (take pos (bytes str)), chars (drop (suc pos) (bytes str)))

unfoldable pub di_string_split_once : Text → ℕ → Option (Text × Text)
unfolding memchr split_at
di_string_split_once str sep = split_at str (memchr (bytes str) sep)

-- tolower of the C locale
unfoldable pub tolower : ℕ → ℕ
tolower c = if leb b'A' c && leb c b'Z' then c + 32 else c

unfoldable pub di_string_tolower : Text → Text
unfolding tolower
di_string_tolower str = chars (map tolower (bytes str))

-- strncmp stops at the end of `pat`, which holds no zero.
unfoldable pub di_string_starts_with : Text → List ℕ → Bool
unfolding c_str same_bytes
di_string_starts_with str pat =
    leb (length (c_str pat)) (size str)
    && same_bytes (take (length (c_str pat)) (bytes str)) (c_str pat)

unfoldable pub di_string_starts_with_string : Text → Text → Bool
unfolding same_bytes
di_string_starts_with_string str pat =
    if ltb (size str) (size pat)
    then false
    else same_bytes (take (size pat) (bytes str)) (bytes pat)

unfoldable pub di_string_eq : Text → Text → Bool
unfolding same_bytes
di_string_eq a b = if size a == size b then same_bytes (bytes a) (bytes b) else false

unfoldable pub di_suffix : Text → ℕ → Text
di_suffix str start = if leb (size str) start then null else chars (drop start (bytes str))

-- `start + len` is a size_t.
unfoldable pub di_substring : Text → ℕ → ℕ → Text
di_substring str start len =
    if leb (size str) start
    then null
    else if len == 0
    then null
    else if ltb (size str) ((start + len) % 2 ^ 64)
    then chars (take (size str - start) (drop start (bytes str)))
    else chars (take len (drop start (bytes str)))

-- Both parts are copied into a new buffer of just their size.
unfoldable pub di_string_concat : Text → Text → Option Text
di_string_concat a b = do
  one ← memcpy (malloc (size a + size b)) 0 (bytes a)
  two ← memcpy one (size a) (bytes b)
  cs ← read_all two
  some (chars cs)

-- The sum of the lengths, a size_t, behind `sum`
unfoldable pub total_len : ℕ → List Text → ℕ
total_len sum [] = sum
total_len sum (s ∷ ss) = total_len ((sum + size s) % 2 ^ 64) ss

-- The loop of `di_string_join`: a part at `pos`, and the separator behind each part but the last.
unfoldable pub join_loop : Buffer → ℕ → List Text → Text → Option Buffer
join_loop b pos [] sep = some b
join_loop b pos (s ∷ []) sep = memcpy b pos (bytes s)
join_loop b pos (s ∷ t ∷ ss) sep = do
  one ← memcpy b pos (bytes s)
  two ← (if ltb 0 (size sep) then memcpy one (pos + size s) (bytes sep) else some one)
  let pos' = if ltb 0 (size sep) then pos + size s + size sep else pos + size s
  join_loop two pos' (t ∷ ss) sep

-- `are_strings`: the array's element type is DI_TYPE_STRING, which the code asserts.
unfoldable pub di_string_join : Bool → List Text → Text → Option Text
unfolding total_len join_loop
di_string_join are_strings [] sep = some null
di_string_join false (s ∷ ss) sep = none
di_string_join true (s ∷ ss) sep = do
  let total = (total_len 0 (s ∷ ss) + size sep * (length (s ∷ ss) - 1) % 2 ^ 64) % 2 ^ 64
  b ← join_loop (malloc total) 0 (s ∷ ss) sep
  cs ← read_all b
  some (chars cs)
