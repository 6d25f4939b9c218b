-- ===== src/Common/Buffer.antt =====
-- Memory from malloc, as the source fills it: a byte that was never written is `none`, and a copy
-- that does not fit is refused.
use deai.Common.{
  ℕ, zero, suc, ◌+◌, ◌<◌, ◌≡◌, refl, ap, Option, none, some, List, [], ◌∷◌, ◌++◌, arith, map,
  length, replicate,
}
use mathlib.Core.Option

abbrev pub Buffer : Type 0
Buffer = List (Option ℕ)

-- malloc
unfoldable pub malloc : ℕ → Buffer
malloc n = replicate n none

-- Overwrites the front; `none` if the source is longer than what is left.
unfoldable pub overlay : Buffer → List ℕ → Option Buffer
overlay b [] = some b
overlay [] (x ∷ xs) = none
overlay (c ∷ b) (x ∷ xs) = Option.map (λ r. some x ∷ r) (overlay b xs)

-- memcpy (buf + pos, src, length src)
unfoldable pub memcpy : Buffer → ℕ → List ℕ → Option Buffer
unfolding overlay
memcpy b zero xs = overlay b xs
memcpy [] (suc p) [] = none
memcpy [] (suc p) (x ∷ xs) = none
memcpy (c ∷ b) (suc p) xs = Option.map (λ r. c ∷ r) (memcpy b p xs)

-- The bytes of a buffer, if each was written.
unfoldable pub read_all : Buffer → Option (List ℕ)
read_all [] = some []
read_all (none ∷ b) = none
read_all (some x ∷ b) = Option.map (λ r. x ∷ r) (read_all b)

-- What is written, then what is not: the state of a buffer that is filled from the left.
unfoldable pub filled : List ℕ → ℕ → Buffer
unfolding malloc
filled xs n = map some xs ++ malloc n

overlay-malloc :
    (n k : ℕ) (xs : List ℕ) → n ≡ length xs + k → overlay (malloc n) xs ≡ some (filled xs k)
unfolding overlay filled
overlay-malloc n k [] e = ap (λ m. some (malloc m)) (omega arith)
overlay-malloc zero k (x ∷ xs) e = absurd (omega arith)
overlay-malloc (suc n) k (x ∷ xs) e = rw (overlay-malloc n k xs (omega arith))

-- The next copy into a buffer that is filled from the left, at the place where the last one ended.
pub memcpy-filled :
    (xs ys : List ℕ) (n k : ℕ)
    → n ≡ length ys + k
    → memcpy (filled xs n) (length xs) ys ≡ some (filled (xs ++ ys) k)
unfolding memcpy filled overlay
memcpy-filled [] ys n k e = overlay-malloc n k ys e
memcpy-filled (x ∷ xs) ys n k e = rw (memcpy-filled xs ys n k e)

pub malloc-filled : (n : ℕ) → malloc n ≡ filled [] n
unfolding filled
malloc-filled n = refl

-- A buffer that is full holds what was written.
pub read_all-filled : (xs : List ℕ) → read_all (filled xs 0) ≡ some xs
unfolding read_all filled malloc
read_all-filled [] = refl
read_all-filled (x ∷ xs) = rw (read_all-filled xs)

-- A copy past the end is refused.
pub memcpy_overflow :
    (xs ys : List ℕ) (n : ℕ) → n < length ys → memcpy (filled xs n) (length xs) ys ≡ none
unfolding memcpy filled overlay malloc
memcpy_overflow [] [] n h = absurd (omega arith)
memcpy_overflow [] (y ∷ ys) zero h = refl
memcpy_overflow [] (y ∷ ys) (suc n) h = rw (memcpy_overflow [] ys n (omega arith))
memcpy_overflow (x ∷ xs) ys n h = rw (memcpy_overflow xs ys n h)
