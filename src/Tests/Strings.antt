-- ===== src/Tests/Strings.antt =====
-- Strings: the theorems at concrete texts.
use deai.Common.{ℕ, List, [], ◌∷◌, ◌++◌, map, true, some, ◌≡◌, ◌↔◌, refl, arith, take, drop}
use deai.Text.{
  Text, null, chars, bytes, di_string_join, di_string_split_once, di_string_starts_with, c_str,
  di_substring,
}
use deai.Text.Join.{intercalate, join-intercalate}
use deai.Text.Split.{Avoids, split_once-at, join-split_once}
use deai.Text.Slice.{starts_with_iff, bytes-substring}

abbrev words : List Text
words = chars (b'a' ∷ b'b' ∷ []) ∷ null ∷ chars (b'c' ∷ []) ∷ []

join-intercalate_example :
    di_string_join true (chars (b'z' ∷ []) ∷ words) (chars (b',' ∷ b' ' ∷ []))
    ≡ some (chars (intercalate (b',' ∷ b' ' ∷ []) (map bytes (chars (b'z' ∷ []) ∷ words))))
unfolding intercalate
join-intercalate_example =
    join-intercalate (chars (b'z' ∷ [])) words (chars (b',' ∷ b' ' ∷ [])) (omega arith)

-- "k=v=w" is split at the first sign.
abbrev pair : Text
pair = chars (b'k' ∷ b'=' ∷ b'v' ∷ b'=' ∷ b'w' ∷ [])

pair_splits :
    di_string_split_once pair b'=' ≡ some (chars (b'k' ∷ []), chars (b'v' ∷ b'=' ∷ b'w' ∷ []))
unfolding di_string_split_once
pair_splits = refl

join-split_once_example :
    Avoids b'=' (b'k' ∷ [])
    × (di_string_join true
          (chars (b'k' ∷ []) ∷ chars (b'v' ∷ b'=' ∷ b'w' ∷ []) ∷ [])
          (chars (b'=' ∷ []))
        ≡ some (chars (bytes pair)))
join-split_once_example =
    join-split_once pair (chars (b'k' ∷ [])) (chars (b'v' ∷ b'=' ∷ b'w' ∷ [])) b'=' (omega arith)
      pair_splits

split_once-at_example :
    di_string_split_once (chars ((b'k' ∷ []) ++ b'=' ∷ b'v' ∷ [])) b'='
    ≡ some (chars (b'k' ∷ []), chars (b'v' ∷ []))
split_once-at_example = split_once-at b'=' (b'k' ∷ []) (b'v' ∷ []) (omega arith)

starts_with_iff_example :
    (di_string_starts_with pair (b'k' ∷ b'=' ∷ []) ≡ true)
    ↔ ((rest : List ℕ) × (bytes pair ≡ c_str (b'k' ∷ b'=' ∷ []) ++ rest))
starts_with_iff_example = starts_with_iff pair (b'k' ∷ b'=' ∷ [])

bytes-substring_example : bytes (di_substring pair 2 100) ≡ take 100 (drop 2 (bytes pair))
bytes-substring_example = bytes-substring pair 2 100 (omega arith)
