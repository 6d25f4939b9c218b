-- ===== src/Text/Slice.antt =====
-- Slices, copies and comparisons of strings against plain lists.
use deai.Common.{
  ℕ, zero, suc, ◌+◌, ◌-◌, ◌%◌, ◌^◌, ◌≤◌, ◌<◌, ◌≡◌, ◌↔◌, refl, ap, true, ◌&&◌, List, [], ◌∷◌, ◌++◌,
  arith, length, take, drop, leb, length-drop,
}
use deai.Text.{
  Text, bytes, size, c_str, same_bytes, di_clone_string, di_string_eq, di_suffix, di_substring,
  di_string_starts_with,
}

pub take_all {ℓ} : {A : Type ℓ} (xs : List A) → take (length xs) xs ≡ xs
take_all [] = refl
take_all (x ∷ xs) = ap (λ r. x ∷ r) (take_all xs)

drop_past {ℓ} : {A : Type ℓ} (n : ℕ) (xs : List A) → length xs ≤ n → drop n xs ≡ []
drop_past zero [] h = refl
drop_past (suc n) [] h = refl
drop_past zero (x ∷ xs) h = absurd (omega arith)
drop_past (suc n) (x ∷ xs) h = drop_past n xs (omega arith)

take_past {ℓ} : {A : Type ℓ} (n : ℕ) (xs : List A) → length xs ≤ n → take n xs ≡ xs
take_past zero [] h = refl
take_past (suc n) [] h = refl
take_past zero (x ∷ xs) h = absurd (omega arith)
take_past (suc n) (x ∷ xs) h = ap (λ r. x ∷ r) (take_past n xs (omega arith))

-- A clone holds the same bytes.
pub bytes-clone : (s : Text) → bytes (di_clone_string s) ≡ bytes s
unfolding di_clone_string
bytes-clone s = take_all (bytes s)

pub same_bytes_iff : (xs ys : List ℕ) → (same_bytes xs ys ≡ true) ↔ (xs ≡ ys)
unfolding same_bytes
same_bytes_iff [] [] = (λ _. refl, λ _. refl)
same_bytes_iff [] (y ∷ ys) = (λ h. cc, λ h. cc)
same_bytes_iff (x ∷ xs) [] = (λ h. cc, λ h. cc)
same_bytes_iff (x ∷ xs) (y ∷ ys) =
    (λ h. ground (arith, (same_bytes_iff xs ys).0), λ h. ground (arith, (same_bytes_iff xs ys).1))

-- Two strings are equal exactly when they hold the same bytes.
pub string_eq_iff : (a b : Text) → (di_string_eq a b ≡ true) ↔ (bytes a ≡ bytes b)
unfolding di_string_eq
string_eq_iff a b = (
  λ h. ground (arith, (same_bytes_iff (bytes a) (bytes b)).0),
  λ h. ground (arith, (same_bytes_iff (bytes a) (bytes b)).1, ap length h),
)

-- A suffix is what follows the first `start` bytes, and a substring of it the first `len` bytes of
-- that, cut off at the string's end; both are empty past the end.
pub bytes-suffix : (s : Text) (start : ℕ) → bytes (di_suffix s start) ≡ drop start (bytes s)
unfolding di_suffix
bytes-suffix s start = ground (arith, drop_past start (bytes s))

wrap_fits : (a b : ℕ) → a + b < 2 ^ 64 → (a + b) % 2 ^ 64 ≡ a + b
wrap_fits a b h = omega arith

take_nil : (n : ℕ) → ◌≡◌ {A = List ℕ} (take n []) []
take_nil zero = refl
take_nil (suc n) = refl

take-zero : (n : ℕ) (xs : List ℕ) → n ≡ 0 → take n xs ≡ []
take-zero zero xs e = refl
take-zero (suc n) xs e = absurd (omega arith)

-- A substring holds the wanted bytes of the string, cut off at its end, where start + len does
-- not wrap.
pub bytes-substring :
    (s : Text) (start len : ℕ)
    → start + len < 2 ^ 64
    → bytes (di_substring s start len) ≡ take len (drop start (bytes s))
unfolding di_substring
bytes-substring s start len fits = rw (wrap_fits start len fits) (
    ground (
      arith,
      drop_past start (bytes s),
      take_past len (drop start (bytes s)),
      take_past (size s - start) (drop start (bytes s)),
      length-drop start (bytes s),
      take-zero len (drop start (bytes s)),
      take_nil len,
    ))

prefix-to :
    (xs ps : List ℕ)
    → leb (length ps) (length xs) ≡ true
    → same_bytes (take (length ps) xs) ps ≡ true
    → (rest : List ℕ) × (xs ≡ ps ++ rest)
unfolding same_bytes
prefix-to xs [] l h = (xs, refl)
prefix-to [] (p ∷ ps) l h = absurd (ground arith)
prefix-to (x ∷ xs) (p ∷ ps) l h =
    let (rest, e) = prefix-to xs ps (ground arith) (ground arith) in (rest, ground arith)

prefix-from :
    (xs ps rest : List ℕ)
    → xs ≡ ps ++ rest
    → (leb (length ps) (length xs) && same_bytes (take (length ps) xs) ps) ≡ true
unfolding same_bytes
prefix-from xs [] rest e = ground arith
prefix-from [] (p ∷ ps) rest e = cc
prefix-from (x ∷ xs) (p ∷ ps) rest e = ground (arith, prefix-from xs ps rest)

-- The prefix test holds exactly of the strings that continue the pattern.
pub starts_with_iff :
    (s : Text) (pat : List ℕ)
    → (di_string_starts_with s pat ≡ true) ↔ ((rest : List ℕ) × (bytes s ≡ c_str pat ++ rest))
unfolding di_string_starts_with
starts_with_iff s pat = (
  λ h. prefix-to (bytes s) (c_str pat) (ground arith) (ground arith),
  λ h. prefix-from (bytes s) (c_str pat) h.0 h.1,
)
