-- ===== src/Base/Sets.antt =====
-- A set of numbers (`unordered_set`) as a list without repetition, the newest element last.
use Prim.Native.Nat.{ℕ}
use mathlib.Core.Path.{◌≡◌, refl}
use mathlib.Core.Bool.{Bool, true, false, ◌||◌}
use mathlib.Core.List.{List, [], ◌∷◌, ◌++◌}
use native.Mathlib.Omega.{arith}
use fisslock_bmv2_java.Base.Tests.{◌==◌, if◌then◌else◌}

unfoldable pub contains : ℕ → List ℕ → Bool
contains a [] = false
contains a (x ∷ xs) = (x == a) || contains a xs

unfoldable pub insert : ℕ → List ℕ → List ℕ
insert a xs = if contains a xs then xs else xs ++ a ∷ []

unfoldable pub erase : ℕ → List ℕ → List ℕ
erase a [] = []
erase a (x ∷ xs) = let rest = erase a xs in if x == a then rest else x ∷ rest

abbrev pub is_empty {ℓ} : {A : Type ℓ} → List A → Bool
is_empty [] = true
is_empty (x ∷ xs) = false

contains-append_one :
    (a b : ℕ) (xs : List ℕ) → contains b (xs ++ a ∷ []) ≡ ((a == b) || contains b xs)
unfolding contains
contains-append_one a b [] = refl
contains-append_one a b (x ∷ xs) = ground (arith, contains-append_one a b xs)

pub contains-insert :
    (a b : ℕ) (xs : List ℕ) → contains b (insert a xs) ≡ ((a == b) || contains b xs)
unfolding insert
contains-insert a b xs = ground (arith, contains-append_one a b xs)

pub contains-erase :
    (a b : ℕ) (xs : List ℕ) → contains b (erase a xs) ≡ (if a == b then false else contains b xs)
unfolding contains erase
contains-erase a b [] = ground arith
contains-erase a b (x ∷ xs) = ground (arith, contains-erase a b xs)

pub erase-eq_of_not_contains : (a : ℕ) (xs : List ℕ) → contains a xs ≡ false → erase a xs ≡ xs
unfolding contains erase
erase-eq_of_not_contains a [] h = refl
erase-eq_of_not_contains a (x ∷ xs) h = ground (arith, erase-eq_of_not_contains a xs)
