-- ===== src/Base/Table.antt =====
-- Fixed arrays of slots: the first slot that passes a test, and a write to it.

use mathlib.Core.Path.{◌≡◌, refl}
use mathlib.Core.Bool.{Bool, true}
use mathlib.Core.Option.{Option, none, some}
use mathlib.Core.List.{List, [], ◌∷◌}
use native.Mathlib.Omega.{arith}
use lin_de_x.Base.Tests.{if◌then◌else◌}
use lin_de_x.Base.Lists.{length}

module _ {ℓ} {A : Type ℓ} where
  unfoldable pub find_first : (A → Bool) → List A → Option A
  find_first test [] = none
  find_first test (x ∷ xs) = if test x then some x else find_first test xs

  -- A write through the pointer that the search returned.
  unfoldable pub update_first : (A → Bool) → (A → A) → List A → List A
  update_first test f [] = []
  update_first test f (x ∷ xs) = if test x then f x ∷ xs else x ∷ update_first test f xs

  pub length-update_first :
      (test : A → Bool) (f : A → A) (xs : List A) → length (update_first test f xs) ≡ length xs
  unfolding update_first
  length-update_first test f [] = refl
  length-update_first test f (x ∷ xs) = ground (arith, length-update_first test f xs)

  pub find_first-passes :
      (test : A → Bool) (xs : List A) (x : A) → find_first test xs ≡ some x → test x ≡ true
  unfolding find_first
  find_first-passes test [] x e = ground arith
  find_first-passes test (y ∷ ys) x e = ground (arith, find_first-passes test ys x)
