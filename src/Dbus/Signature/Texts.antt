-- ===== src/Dbus/Signature/Texts.antt =====
-- Slices of the texts that the parser of plugins/dbus/signature.c takes apart.
use deai.Common.{
  ℕ, suc, ◌<◌, ◌^◌, List, [], ◌∷◌, ◌++◌, ◌≡◌, refl, ap, arith, length, take, length-append,
  append-nil,
}
use deai.Text.{Text, null, chars, size, di_suffix, di_substring}
use deai.Text.Slice.{take_all}
use deai.Dbus.Signature.{current}
use deai.Dbus.Signature.Grammar.{
  DbusType, DbusTypes, basic, variant, array, struct, next, print, print_all, tree,
}

-- A text as the string functions cut it off: without bytes it has no data.
unfoldable pub text : List ℕ → Text
text [] = null
text (c ∷ cs) = chars (c ∷ cs)

pub take-front : (p r : List ℕ) → take (length p) (p ++ r) ≡ p
take-front [] r = refl
take-front (x ∷ p) r = ap (λ q. x ∷ q) (take-front p r)

pub suffix-one : (c : ℕ) (r : List ℕ) → di_suffix (chars (c ∷ r)) 1 ≡ text r
unfolding di_suffix text
suffix-one c [] = refl
suffix-one c (d ∷ r) = ground arith

pub substring-front :
    (c : ℕ) (p r : List ℕ)
    → length (c ∷ p ++ r) < 2 ^ 64
    → di_substring (text (c ∷ p ++ r)) 0 (suc (length p)) ≡ chars (c ∷ p)
unfolding di_substring text
substring-front c p r h = ground (arith, take-front p r, length-append p r)

pub text-whole : (xs : List ℕ) → 0 < length xs → text (xs ++ []) ≡ chars xs
unfolding text
text-whole [] h = absurd (omega arith)
text-whole (x ∷ xs) h = rw (append-nil xs)

pub substring-whole :
    (xs : List ℕ)
    → 0 < length xs
    → length xs < 2 ^ 64
    → di_substring (chars xs) 0 (length xs) ≡ chars xs
unfolding di_substring
substring-whole [] h b = absurd (omega arith)
substring-whole (x ∷ xs) h b = ground (arith, take_all xs)

pub print-nonempty : (t : DbusType) → 0 < length (print t)
unfolding print
print-nonempty (basic c) = omega arith
print-nonempty variant = omega arith
print-nonempty (array t) = omega arith
print-nonempty (struct ts) = omega arith

pub printed-nonempty : (t : DbusType) (ts : DbusTypes) → 0 < length (print_all (next t ts))
unfolding print
printed-nonempty t ts = omega (arith, length-append (print t) (print_all ts), print-nonempty t)

pub size-tree : (t : DbusType) → size (current (tree t)) ≡ length (print t)
unfolding tree print current
size-tree (basic c) = refl
size-tree variant = refl
size-tree (array t) = refl
size-tree (struct ts) = refl
