-- ===== src/Dbus/Signature/Grammar.antt =====
-- The types of D-Bus, their signatures and the trees that stand for them: what the parser of
-- plugins/dbus/signature.c is measured by.
use deai.Common.{ℕ, Bool, true, false, ◌&&◌, List, [], ◌∷◌, ◌++◌, ◌≡◌}
use deai.Text.{chars}
use deai.Dbus.Signature.{Signature, Signatures, sig, done, child}

mutual
  pub data DbusType : Type 0 where
    basic : ℕ → DbusType
    variant : DbusType
    array : DbusType → DbusType
    struct : DbusTypes → DbusType

  pub data DbusTypes : Type 0 where
    none : DbusTypes
    next : DbusType → DbusTypes → DbusTypes

unfoldable mutual
  pub print : DbusType → List ℕ
  print (basic c) = c ∷ []
  print variant = b'v' ∷ []
  print (array t) = b'a' ∷ print t
  print (struct ts) = b'(' ∷ (print_all ts ++ b')' ∷ [])

  pub print_all : DbusTypes → List ℕ
  print_all none = []
  print_all (next t ts) = print t ++ print_all ts

unfoldable mutual
  unfolding print

  pub tree : DbusType → Signature
  tree (array t) = sig (chars (print (array t))) (child (tree t) done)
  tree (struct ts) = sig (chars (print (struct ts))) (trees ts)
  tree t = sig (chars (print t)) done

  pub trees : DbusTypes → Signatures
  trees none = done
  trees (next t ts) = child (tree t) (trees ts)

module _ (is_valid is_basic : ℕ → Bool) where
  -- Each basic type has a code that libdbus knows as that of a basic type.
  unfoldable mutual
    pub known : DbusType → Bool
    known (basic c) = is_valid c && is_basic c
    known variant = true
    known (array t) = known t
    known (struct ts) = all_known ts

    pub all_known : DbusTypes → Bool
    all_known none = true
    all_known (next t ts) = known t && all_known ts

  -- What is documented of the codes that are no basic types: the containers, the end of a struct,
  -- and the end of a text.
  pub record Codes : Type 0 where
    pub no_array : is_basic b'a' ≡ false
    pub no_struct : is_basic b'(' ≡ false
    pub no_end : is_basic b')' ≡ false
    pub no_nul : is_basic 0 ≡ false
