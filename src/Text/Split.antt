-- ===== src/Text/Split.antt =====
-- `di_string_split_once` finds the first separator, and joining what it returns is the identity.
use deai.Common.{
  ℕ, zero, suc, ◌<◌, ◌^◌, ap, sym, ◌∙◌, ◌≡◌, ◌≢◌, refl, true, List, [], ◌∷◌, ◌++◌, Option, some,
  none, arith, length, take, drop,
}
use deai.Text.{Text, size, chars, bytes, di_string_join, di_string_split_once, memchr, split_at}
use deai.Text.Join.{intercalate, join-intercalate}

-- No byte of the list is `c`.
abbrev pub Avoids : ℕ → List ℕ → Type 0
Avoids c [] = Unit {0}
Avoids c (x ∷ xs) = (x ≢ c) × Avoids c xs

pub memchr-Avoids : (c : ℕ) (h r : List ℕ) → Avoids c h → memchr (h ++ c ∷ r) c ≡ some (length h)
unfolding memchr
memchr-Avoids c [] r a = ground arith
memchr-Avoids c (x ∷ h) r a = ground (arith, memchr-Avoids c h r a.1)

pub memchr-none : (c : ℕ) (xs : List ℕ) → memchr xs c ≡ none → Avoids c xs
unfolding memchr
memchr-none c [] e = tt
memchr-none c (x ∷ xs) e = ground (arith, memchr-none c xs)

pub memchr-some :
    (c : ℕ) (xs : List ℕ) (i : ℕ)
    → memchr xs c ≡ some i
    → Avoids c (take i xs) × (xs ≡ take i xs ++ c ∷ drop (suc i) xs)
unfolding memchr
memchr-some c [] i e = cc
memchr-some c (x ∷ xs) zero e = ground arith
memchr-some c (x ∷ xs) (suc i) e = ground (arith, memchr-some c xs i)

take-append {ℓ} : {A : Type ℓ} (xs ys : List A) → take (length xs) (xs ++ ys) ≡ xs
take-append [] ys = refl
take-append (x ∷ xs) ys = rw (take-append xs ys)

drop-append {ℓ} :
    {A : Type ℓ} (xs : List A) (y : A) (ys : List A) → drop (suc (length xs)) (xs ++ y ∷ ys) ≡ ys
drop-append [] y ys = refl
drop-append (x ∷ xs) y ys = drop-append xs y ys

-- A text is split at its first separator: where the part before a separator holds none, the two
-- parts are returned, the separator dropped.
pub split_once-at :
    (sep : ℕ) (h r : List ℕ)
    → Avoids sep h
    → di_string_split_once (chars (h ++ sep ∷ r)) sep ≡ some (chars h, chars r)
unfolding di_string_split_once
split_once-at sep h r a = rw (memchr-Avoids sep h r a, take-append h (sep ∷ r), drop-append h sep r)

-- What a failed split says: the separator does not occur.
pub split_once-none :
    (s : Text) (sep : ℕ) → di_string_split_once s sep ≡ none → Avoids sep (bytes s)
unfolding di_string_split_once
split_once-none s sep e = memchr-none sep (bytes s) (ground arith)

split_at-parts :
    (s h r : Text) (sep : ℕ) (o : Option ℕ)
    → memchr (bytes s) sep ≡ o
    → split_at s o ≡ some (h, r)
    → Avoids sep (bytes h) × (bytes s ≡ bytes h ++ sep ∷ bytes r)
unfolding split_at
split_at-parts s h r sep none m e = cc
split_at-parts s h r sep (some i) m e = ground (arith, memchr-some sep (bytes s) i m)

join_two :
    (h r : Text) (sep : ℕ)
    → length (bytes h ++ sep ∷ bytes r) < 2 ^ 64
    → di_string_join true (h ∷ r ∷ []) (chars (sep ∷ [])) ≡ some (chars (bytes h ++ sep ∷ bytes r))
unfolding intercalate
join_two h r sep l = join-intercalate h (r ∷ []) (chars (sep ∷ [])) l

-- When a text, whose length is a size_t, is split, the first part does not hold the separator, and
-- joining the two parts with the separator gives the text back.
pub join-split_once :
    (s h r : Text) (sep : ℕ)
    → size s < 2 ^ 64
    → di_string_split_once s sep ≡ some (h, r)
    → Avoids sep (bytes h)
      × (di_string_join true (h ∷ r ∷ []) (chars (sep ∷ [])) ≡ some (chars (bytes s)))
unfolding di_string_split_once
join-split_once s h r sep l e =
    let (first, whole) = split_at-parts s h r sep (memchr (bytes s) sep) refl e in
    (
      first,
      join_two h r sep (omega (arith, ap length whole)) ∙ ap (λ cs. some (chars cs)) (sym whole),
    )
