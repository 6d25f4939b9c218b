-- ===== src/Text/Join.antt =====
-- `di_string_join` and `di_string_concat` against plain lists: the buffers are just long enough.
use deai.Common.{
  ℕ, ◌+◌, ◌-◌, ◌*◌, ◌%◌, ◌^◌, ◌<◌, ◌≡◌, refl, ap, true, List, [], ◌∷◌, ◌++◌, map, some, arith,
  length, length-append, append_assoc, append-nil, ltb, if◌then◌else◌, ◌∙◌,
}
use native.Mathlib.Nat.{mod-eq_of_lt}
use deai.Common.Buffer.{memcpy, filled, memcpy-filled, read_all-filled, malloc-filled}
use deai.Text.{Text, chars, bytes, size, di_string_concat, di_string_join, join_loop, total_len}

-- The parts with `sep` between each two of them.
unfoldable pub intercalate : List ℕ → List (List ℕ) → List ℕ
intercalate sep [] = []
intercalate sep (x ∷ []) = x
intercalate sep (x ∷ y ∷ ys) = x ++ (sep ++ intercalate sep (y ∷ ys))

memcpy-at :
    (xs ys : List ℕ) (n k pos : ℕ)
    → pos ≡ length xs
    → n ≡ length ys + k
    → memcpy (filled xs n) pos ys ≡ some (filled (xs ++ ys) k)
memcpy-at xs ys n k pos p e = rw p (memcpy-filled xs ys n k e)

-- The room that the parts and their separators take.
room : List Text → Text → ℕ
room [] sep = 0
room (s ∷ []) sep = size s
room (s ∷ t ∷ ss) sep = size s + size sep + room (t ∷ ss) sep

sizes : List Text → ℕ
sizes [] = 0
sizes (s ∷ ss) = size s + sizes ss

total-sizes : (n : ℕ) (ss : List Text) → n + sizes ss < 2 ^ 64 → total_len n ss ≡ n + sizes ss
unfolding total_len sizes
total-sizes n [] l = omega arith
total-sizes n (s ∷ ss) l =
    let low : (n + size s) % 2 ^ 64 ≡ n + size s = mod-eq_of_lt (omega arith) in
    rw low (total-sizes (n + size s) ss (omega arith) ∙ omega arith)

room-sizes :
    (s : Text) (ss : List Text) (sep : Text)
    → room (s ∷ ss) sep ≡ sizes (s ∷ ss) + size sep * length ss
unfolding room sizes
room-sizes s [] sep = omega arith
room-sizes s (t ∷ ss) sep = omega (arith, room-sizes t ss sep)

length-intercalate :
    (s : Text) (ss : List Text) (sep : Text)
    → length (intercalate (bytes sep) (map bytes (s ∷ ss))) ≡ room (s ∷ ss) sep
unfolding intercalate room
length-intercalate s [] sep = refl
length-intercalate s (t ∷ ss) sep =
    let rest = intercalate (bytes sep) (map bytes (t ∷ ss)) in
    omega (
      arith,
      length-append (bytes s) (bytes sep ++ rest),
      length-append (bytes sep) rest,
      length-intercalate t ss sep,
    )

copy_sep :
    (xs ys : List ℕ) (n k pos : ℕ)
    → pos ≡ length xs
    → n ≡ length ys + k
    → (if ltb 0 (length ys) then memcpy (filled xs n) pos ys else some (filled xs n))
      ≡ some (filled (xs ++ ys) k)
copy_sep xs [] n k pos p e = rw (append-nil xs) (ap (λ m. some (filled xs m)) (omega arith))
copy_sep xs (y ∷ ys) n k pos p e = ground (arith, memcpy-at xs (y ∷ ys) n k pos p e)

next_pos : (a b : ℕ) → (if ltb 0 b then a + b else a) ≡ a + b
next_pos a b = ground arith

join_loop-filled :
    (xs : List ℕ) (n pos : ℕ) (s : Text) (ss : List Text) (sep : Text)
    → pos ≡ length xs
    → n ≡ room (s ∷ ss) sep
    → join_loop (filled xs n) pos (s ∷ ss) sep
      ≡ some (filled (xs ++ intercalate (bytes sep) (map bytes (s ∷ ss))) 0)
unfolding join_loop room intercalate
join_loop-filled xs n pos s [] sep p e = memcpy-at xs (bytes s) n 0 pos p (omega arith)
join_loop-filled xs n pos s (t ∷ ss) sep p e =
    let k = room (t ∷ ss) sep in
    rw
      (
        memcpy-at xs (bytes s) n (size sep + k) pos p (omega arith),
        copy_sep (xs ++ bytes s) (bytes sep) (size sep + k) k (pos + size s)
            (omega (arith, length-append xs (bytes s))) refl,
        next_pos (pos + size s) (size sep),
        join_loop-filled ((xs ++ bytes s) ++ bytes sep) k (pos + size s + size sep) t ss sep
            (omega (arith, length-append (xs ++ bytes s) (bytes sep), length-append xs (bytes s)))
            refl,
      )
      (ap (λ zs. some (filled zs 0)) (simp append_assoc))

join_room :
    (s : Text) (ss : List Text) (sep : Text)
    → room (s ∷ ss) sep < 2 ^ 64
    → (total_len 0 (s ∷ ss) + size sep * (length (s ∷ ss) - 1) % 2 ^ 64) % 2 ^ 64
      ≡ room (s ∷ ss) sep
join_room s ss sep l =
    let whole = room-sizes s ss sep in
    let m : size sep * (length (s ∷ ss) - 1) ≡ size sep * length ss =
      ap (λ k. size sep * k) (omega arith) in
    let summed = total-sizes 0 (s ∷ ss) (omega (arith, whole)) in
    let small : size sep * (length (s ∷ ss) - 1) % 2 ^ 64 ≡ size sep * (length (s ∷ ss) - 1) =
      mod-eq_of_lt (omega (arith, whole, m)) in
    let same : total_len 0 (s ∷ ss) + size sep * (length (s ∷ ss) - 1) % 2 ^ 64
        ≡ room (s ∷ ss) sep =
      omega (arith, whole, m, summed, small) in
    rw same (mod-eq_of_lt l)

-- Of an array of strings whose lengths, with the separators between them, add up to less than 2^64,
-- `di_string_join` allocates a buffer into which every copy fits and that the copies fill to the last
-- byte, and returns the strings with the separator between each two of them.
pub join-intercalate :
    (s : Text) (ss : List Text) (sep : Text)
    → length (intercalate (bytes sep) (map bytes (s ∷ ss))) < 2 ^ 64
    → di_string_join true (s ∷ ss) sep ≡ some (chars (intercalate (bytes sep) (map bytes (s ∷ ss))))
unfolding di_string_join
join-intercalate s ss sep l =
    let total = (total_len 0 (s ∷ ss) + size sep * (length (s ∷ ss) - 1) % 2 ^ 64) % 2 ^ 64 in
    rw (
      malloc-filled total,
      join_loop-filled [] total 0 s ss sep refl
          (join_room s ss sep (omega (arith, length-intercalate s ss sep))),
      read_all-filled (intercalate (bytes sep) (map bytes (s ∷ ss))),
    )

concat-append : (a b : Text) → di_string_concat a b ≡ some (chars (bytes a ++ bytes b))
unfolding di_string_concat
concat-append a b = rw (
  malloc-filled (size a + size b),
  memcpy-at [] (bytes a) (size a + size b) (size b) 0 refl refl,
  memcpy-at (bytes a) (bytes b) (size b) 0 (size a) refl (omega arith),
  read_all-filled (bytes a ++ bytes b),
)
