-- ===== src/Dbus/Signature/Parse.antt =====
-- The parser reads back what the grammar prints: plugins/dbus/signature.c.
use deai.Common.{
  ℕ, zero, suc, ◌+◌, ◌≤◌, ◌<◌, ◌%◌, ◌^◌, ltb, Bool, true, false, ◌&&◌, ◌||◌, List, [], ◌∷◌, ◌++◌,
  some, ◌≡◌, ◌≢◌, refl, ap, ◌∙◌, ◌==◌, arith, length, append_assoc, length-append, and_left,
  and_right, append-nil,
}
use native.Mathlib.Nat.{mod-eq_of_lt}
use deai.Errors.{Result, ok}
use deai.Text.{Text, null, chars, size, di_substring}
use deai.Dbus.Signature.{
  Signature, Signatures, sig, done, child, first_byte, of_array, of_struct, kind, goes_on,
  parse_dbus_signature_one, parse_loop, parse_dbus_signaure_sequence, finish, parse_dbus_signature,
  close_array, close_struct, close_sequence, push_child, int_to_size,
}
use deai.Dbus.Signature.Grammar.{
  DbusType, DbusTypes, basic, variant, array, struct, next, print, print_all, tree, trees, known,
  all_known, Codes,
}
use deai.Dbus.Signature.Texts.{
  text, take-front, suffix-one, substring-front, text-whole, substring-whole, print-nonempty,
  printed-nonempty, size-tree,
}

size_fits : {n : ℕ} → n < 2147483648 → n < 2 ^ 64
size_fits l = omega arith

int_to_size-small : (n : ℕ) → n < 2147483648 → int_to_size n ≡ n
unfolding int_to_size
int_to_size-small n l =
    let same : n % 4294967296 ≡ n = mod-eq_of_lt (omega arith) in rw same (ground (arith, l))

module _ (is_valid is_basic : ℕ → Bool) (codes : Codes is_valid is_basic) where
  kind-array : kind is_valid is_basic b'a' ≡ of_array
  unfolding kind
  kind-array = ground (arith, codes.no_array)

  kind-struct : kind is_valid is_basic b'(' ≡ of_struct
  unfolding kind
  kind-struct = ground (arith, codes.no_struct)

  -- A byte that ends sequences, and begins no type.
  record Ender (e : ℕ) : Type 0 where
    no_basic : is_basic e ≡ false
    no_variant : e ≢ b'v'
    no_array : e ≢ b'a'
    no_struct : e ≢ b'('

  goes_on-print :
      (t : DbusType) (r : List ℕ) (e : ℕ)
      → known is_valid is_basic t ≡ true
      → Ender e
      → goes_on is_valid is_basic (text (print t ++ r)) e ≡ some true
  unfolding goes_on first_byte text print known
  goes_on-print (basic c) r e k i =
      ground (arith, i.no_basic, and_right (is_valid c) (is_basic c) k)
  goes_on-print variant r e k i = ground (arith, i.no_variant)
  goes_on-print (array t) r e k i = ground (arith, i.no_array)
  goes_on-print (struct ts) r e k i = ground (arith, i.no_struct)

  -- The bytes `r` end a sequence that `e` ends.
  abbrev Ended : ℕ → List ℕ → Type 0
  Ended e r = goes_on is_valid is_basic (text r) e ≡ some false

  array_step :
      (n : ℕ) (xs : List ℕ) (res : Result (Signature × Text))
      → parse_dbus_signature_one is_valid is_basic n (text xs) ≡ some res
      → parse_dbus_signature_one is_valid is_basic (suc n) (text (b'a' ∷ xs))
        ≡ some (close_array (text (b'a' ∷ xs)) res)
  unfolding parse_dbus_signature_one first_byte text
  array_step n xs res h = ground (arith, kind-array, suffix-one b'a' xs, h)

  struct_step :
      (n : ℕ) (xs : List ℕ) (cs : Signatures) (p : ℕ) (r : List ℕ)
      → parse_loop is_valid is_basic n 0 (text xs) b')'
        ≡ some (ok (record { children = cs; length = p; rest = text (b')' ∷ r) }))
      → p < 2147483648
      → parse_dbus_signature_one is_valid is_basic (suc n) (text (b'(' ∷ xs))
        ≡ some (
            ok (
              sig (di_substring (text (b'(' ∷ xs)) 0 (size (di_substring (text xs) 0 p) + 2)) cs,
              text r,
            ))
  unfolding parse_dbus_signature_one first_byte text close_struct close_sequence
  struct_step n xs cs p r h small =
      ground
        (arith, kind-struct, suffix-one b'(' xs, h, suffix-one b')' r, int_to_size-small p small)

  loop_step :
      (n k : ℕ) (xs ys : List ℕ) (e : ℕ) (s : Signature) (p : Result _)
      → k < 2147483647
      → goes_on is_valid is_basic (text xs) e ≡ some true
      → parse_dbus_signature_one is_valid is_basic n (text xs) ≡ some (ok (s, text ys))
      → parse_loop is_valid is_basic n (k + 1) (text ys) e ≡ some p
      → parse_loop is_valid is_basic (suc n) k (text xs) e ≡ some (push_child s p)
  unfolding parse_dbus_signature_one parse_loop
  loop_step n k xs ys e s p small g h l =
      let fits : ltb k 2147483647 ≡ true = ground (arith, small) in rw (g, fits, h, l)

  leaf_step :
      (n c : ℕ) (r : List ℕ)
      → (is_valid c && is_basic c || c == b'v') ≡ true
      → length (c ∷ r) < 2147483648
      → parse_dbus_signature_one is_valid is_basic (suc n) (text (c ∷ r))
        ≡ some (ok (sig (chars (c ∷ [])) done, text r))
  unfolding parse_dbus_signature_one first_byte text kind
  leaf_step n c r h b = ground (arith, h, suffix-one c r, substring-front c [] r (size_fits b))

  size-children :
      (ts : DbusTypes) (r : List ℕ)
      → length (print_all ts ++ r) < 2147483648
      → size (di_substring (text (print_all ts ++ r)) 0 (length (print_all ts)))
        ≡ length (print_all ts)
  unfolding di_substring text
  size-children ts r h = ground (arith, take-front (print_all ts) r, length-append (print_all ts) r)

  close_end : Ender b')'
  close_end = record {
    no_basic = codes.no_end;
    no_variant = omega arith;
    no_array = omega arith;
    no_struct = omega arith;
  }

  close-Ended : (r : List ℕ) → Ended b')' (b')' ∷ r)
  unfolding goes_on first_byte text
  close-Ended r = ground arith

  loop_end :
      (n k : ℕ) (r : List ℕ) (e : ℕ)
      → Ended e r
      → parse_loop is_valid is_basic (suc n) k (text r) e
        ≡ some (ok (record { children = done; length = 0; rest = text r }))
  unfolding parse_loop
  loop_end n k r e h = rw h

  array-print :
      (t : DbusType) (n : ℕ) (r : List ℕ)
      → parse_dbus_signature_one is_valid is_basic n (text (print t ++ r))
        ≡ some (ok (tree t, text r))
      → length (print (array t) ++ r) < 2147483648
      → parse_dbus_signature_one is_valid is_basic (suc n) (text (print (array t) ++ r))
        ≡ some (ok (tree (array t), text r))
  unfolding tree print close_array
  array-print t n r h b =
      array_step n (print t ++ r) (ok (tree t, text r)) h
      ∙ ap (λ s. some (ok (sig s (child (tree t) done), text r)))
          (ap (di_substring (text (b'a' ∷ print t ++ r)) 0) (rw (size-tree t) (omega arith))
            ∙ substring-front b'a' (print t) r (size_fits b))

  struct-text :
      (ts : DbusTypes) (r : List ℕ)
      → length (b'(' ∷ (print_all ts ++ (b')' ∷ r))) < 2147483648
      → di_substring
          (text (b'(' ∷ (print_all ts ++ (b')' ∷ r))))
          0
          (size (di_substring (text (print_all ts ++ (b')' ∷ r))) 0 (length (print_all ts))) + 2)
        ≡ chars (print (struct ts))
  unfolding print
  struct-text ts r b =
      let xs = print_all ts in
      rw (size-children ts (b')' ∷ r) (omega arith)) (
        ap (di_substring (text (b'(' ∷ (xs ++ (b')' ∷ r)))) 0) {y = suc (length (xs ++ b')' ∷ []))}
          (omega (arith, length-append xs (b')' ∷ [])))
        ∙ rw (← append_assoc xs (b')' ∷ []) r) (
            substring-front b'(' (xs ++ b')' ∷ []) r
              (size_fits (rw (append_assoc xs (b')' ∷ []) r) b))))

  struct-print :
      (ts : DbusTypes) (n : ℕ) (r : List ℕ)
      → parse_loop is_valid is_basic n 0 (text (print_all ts ++ (b')' ∷ r))) b')'
        ≡ some (
            ok (record {
              children = trees ts;
              length = length (print_all ts);
              rest = text (b')' ∷ r);
            }))
      → length (print (struct ts) ++ r) < 2147483648
      → parse_dbus_signature_one is_valid is_basic (suc n) (text (print (struct ts) ++ r))
        ≡ some (ok (tree (struct ts), text r))
  unfolding tree print
  struct-print ts n r h b =
      let assoc = append_assoc (print_all ts) (b')' ∷ []) r in
      rw assoc (
        struct_step n (print_all ts ++ (b')' ∷ r)) (trees ts) (length (print_all ts)) r h (
          omega (
            arith,
            length-append (print_all ts) (b')' ∷ []),
            length-append (print_all ts ++ b')' ∷ []) r,
          ))
        ∙ ap (λ s. some (ok (sig s (trees ts), text r))) (struct-text ts r (rw (← assoc) b)))

  loop-next :
      (t : DbusType) (ts : DbusTypes) (n m : ℕ) (r : List ℕ) (e : ℕ)
      → m < 2147483647
      → known is_valid is_basic t ≡ true
      → Ender e
      → parse_dbus_signature_one is_valid is_basic n (text (print t ++ (print_all ts ++ r)))
        ≡ some (ok (tree t, text (print_all ts ++ r)))
      → parse_loop is_valid is_basic n (m + 1) (text (print_all ts ++ r)) e
        ≡ some (ok (record { children = trees ts; length = length (print_all ts); rest = text r }))
      → parse_loop is_valid is_basic (suc n) m (text (print_all (next t ts) ++ r)) e
        ≡ some (
            ok (record {
              children = trees (next t ts);
              length = length (print_all (next t ts));
              rest = text r;
            }))
  unfolding tree print push_child
  loop-next t ts n m r e few k i h l =
      let assoc = append_assoc (print t) (print_all ts) r in
      rw (assoc, length-append (print t) (print_all ts))
        (loop_step n m (print t ++ (print_all ts ++ r)) (print_all ts ++ r) e (tree t) _ few
            (goes_on-print t (print_all ts ++ r) e k i) h l
          ∙ rw (size-tree t))

  mutual
    unfolding tree print known

    parse-print :
        (t : DbusType) (n : ℕ) (r : List ℕ)
        → known is_valid is_basic t ≡ true
        → length (print t) ≤ n
        → length (print t ++ r) < 2147483648
        → parse_dbus_signature_one is_valid is_basic n (text (print t ++ r))
          ≡ some (ok (tree t, text r))
    parse-print t zero r k l b = absurd (omega (arith, print-nonempty t))
    parse-print (basic c) (suc n) r k l b = leaf_step n c r (ground (arith, k)) b
    parse-print variant (suc n) r k l b = leaf_step n b'v' r (ground arith) b
    parse-print (array t) (suc n) r k l b =
        array-print t n r (parse-print t n r k (omega arith) (omega arith)) b
    parse-print (struct ts) (suc n) r k l b =
        struct-print ts n r
          (loop-print ts n 0 (b')' ∷ r) b')' k close_end (close-Ended r)
            (omega (arith, length-append (print_all ts) (b')' ∷ [])))
            (omega (
              arith,
              length-append (print_all ts) (b')' ∷ []),
              length-append (print_all ts ++ b')' ∷ []) r,
            ))
            (omega (
              arith,
              length-append (print_all ts) (b')' ∷ []),
              length-append (print_all ts) (b')' ∷ r),
              length-append (print_all ts ++ b')' ∷ []) r,
            )))
          b

    loop-print :
        (ts : DbusTypes) (n m : ℕ) (r : List ℕ) (e : ℕ)
        → all_known is_valid is_basic ts ≡ true
        → Ender e
        → Ended e r
        → length (print_all ts) + 1 ≤ n
        → m + length (print_all ts) < 2147483648
        → length (print_all ts ++ r) < 2147483648
        → parse_loop is_valid is_basic n m (text (print_all ts ++ r)) e
          ≡ some
              (ok (record { children = trees ts; length = length (print_all ts); rest = text r }))
    loop-print ts zero m r e k i end l few b = absurd (omega arith)
    loop-print DbusTypes.none (suc n) m r e k i end l few b = loop_end n m r e end
    loop-print (next t ts) (suc n) m r e k i end l few b =
        loop-next t ts n m r e
          (omega (arith, length-append (print t) (print_all ts), print-nonempty t)) (and_left _ _ k)
          i
          (parse-print t n (print_all ts ++ r) (and_left _ _ k)
            (omega (arith, length-append (print t) (print_all ts)))
            (rw (← append_assoc (print t) (print_all ts) r) b))
          (loop-print ts n (m + 1) r e (and_right _ _ k) i end
            (omega (arith, length-append (print t) (print_all ts), print-nonempty t))
            (omega (arith, length-append (print t) (print_all ts), print-nonempty t))
            (omega (
              arith,
              length-append (print t ++ print_all ts) r,
              length-append (print t) (print_all ts),
              length-append (print_all ts) r,
            )))

  nul_end : Ender 0
  nul_end = record {
    no_basic = codes.no_nul;
    no_variant = omega arith;
    no_array = omega arith;
    no_struct = omega arith;
  }

  parse-loop_all :
      (t : DbusType) (ts : DbusTypes)
      → all_known is_valid is_basic (next t ts) ≡ true
      → length (print_all (next t ts)) < 2147483648
      → parse_loop is_valid is_basic
          (length (print_all (next t ts)) + 1)
          0
          (chars (print_all (next t ts)))
          0
        ≡ some (
            ok (record {
              children = trees (next t ts);
              length = length (print_all (next t ts));
              rest = null;
            }))
  unfolding text goes_on
  parse-loop_all t ts k b =
      let xs = print_all (next t ts) in
      rw (← text-whole xs (printed-nonempty t ts)) (
        loop-print (next t ts) (length xs + 1) 0 [] 0 k nul_end refl (omega arith) (omega arith)
          (rw (append-nil xs) b))

-- The parser reads any sequence of one or more complete types without dict entries, as the grammar
-- prints it, into the tree of these types, each with its own part of the text: it reads nothing past
-- the end, no int overflows and no assertion fails, and the fuel that it starts with is enough. The
-- length of the text fits an int, the basic types are those of libdbus, and libdbus takes no code of a
-- container for a basic type.
pub parse-print_all :
    (is_valid is_basic : ℕ → Bool) (t : DbusType) (ts : DbusTypes)
    → Codes is_valid is_basic
    → all_known is_valid is_basic (next t ts) ≡ true
    → length (print_all (next t ts)) < 2147483648
    → parse_dbus_signature is_valid is_basic (chars (print_all (next t ts)))
      ≡ some (ok (sig (chars (print_all (next t ts))) (trees (next t ts))))
unfolding parse_dbus_signature parse_dbus_signaure_sequence finish close_sequence trees
parse-print_all is_valid is_basic t ts codes k b = rw (
  parse-loop_all is_valid is_basic codes t ts k b,
  int_to_size-small (length (print_all (next t ts))) b,
  substring-whole (print_all (next t ts)) (printed-nonempty t ts) (size_fits b),
)
