-- ===== src/Base/Dict/Size.antt =====
-- Distinct keys, and the number of entries of a map.
use tarunner.Base.Tests.{◌==◌, string_eq, if◌then◌else◌}
use tarunner.Base.Lists.{length}
use tarunner.Base.Dict.{Dict, lookup, insert, erase, lookup-insert, lookup-erase}
use Prim.Native.Nat.{suc, ◌≤◌}
use Prim.Native.String.{String}
use mathlib.Core.Path.{◌≡◌, refl}
use mathlib.Core.Logic.{◌≢◌, ◌⊎◌}
use mathlib.Core.Bool.{Bool, true, false, ◌||◌}
use mathlib.Core.Option.{none}
use mathlib.Core.List.{List, [], ◌∷◌, ◌++◌}
use native.Mathlib.Omega.{arith}
use text.Mathlib.TextEquality.{eq_iff}

-- The test whether a text is in a list.
unfoldable pub contains : String → List String → Bool
contains k [] = false
contains k (j ∷ keys) = j == k || contains k keys

pub contains-append :
    (k : String) (xs ys : List String) → contains k (xs ++ ys) ≡ (contains k xs || contains k ys)
unfolding contains
contains-append k [] ys = refl
contains-append k (x ∷ xs) ys = ground (arith, contains-append k xs ys)

pub contains-append_cases :
    (k : String) (xs ys : List String)
    → contains k (xs ++ ys) ≡ true
    → (contains k xs ≡ true) ⊎ (contains k ys ≡ true)
contains-append_cases k xs ys h = ground (arith, contains-append k xs ys)

pub contains-append_left :
    (k : String) (xs ys : List String) → contains k xs ≡ true → contains k (xs ++ ys) ≡ true
contains-append_left k xs ys h = ground (arith, contains-append k xs ys)

pub contains-append_right :
    (k : String) (xs ys : List String) → contains k ys ≡ true → contains k (xs ++ ys) ≡ true
contains-append_right k xs ys h = ground (arith, contains-append k xs ys)

pub contains-cons :
    (j k : String) (keys : List String)
    → contains k (j ∷ keys) ≡ true
    → (j ≡ k) ⊎ (contains k keys ≡ true)
unfolding contains
contains-cons j k keys h = ground (arith, eq_iff j k)

-- The list without the first occurrence of a text.
remove : String → List String → List String
remove k [] = []
remove k (j ∷ keys) = let rest = remove k keys in if j == k then keys else j ∷ rest

length-remove :
    (k : String) (keys : List String)
    → contains k keys ≡ true
    → suc (length (remove k keys)) ≡ length keys
unfolding contains remove
length-remove k [] h = cc
length-remove k (j ∷ keys) h = ground (arith, length-remove k keys)

contains-remove :
    (j k : String) (keys : List String)
    → k ≢ j
    → contains j keys ≡ true
    → contains j (remove k keys) ≡ true
unfolding contains remove
contains-remove j k [] d h = h
contains-remove j k (i ∷ keys) d h =
    ground (arith, contains-remove j k keys d, eq_iff i k, eq_iff i j, eq_iff k j)

module _ {ℓ} {V : Type ℓ} where
  abbrev pub NodupKeys : Dict V → Type ℓ
  NodupKeys [] = Unit
  NodupKeys ((k, v) ∷ m) = (lookup k m ≡ none) × NodupKeys m

  pub insert-NodupKeys : (k : String) (v : V) (m : Dict V) → NodupKeys m → NodupKeys (insert k v m)
  unfolding insert lookup
  insert-NodupKeys k v [] d = (refl, tt)
  insert-NodupKeys k v ((j, w) ∷ m) (fresh, d) =
      ground (arith, insert-NodupKeys k v m d, lookup-insert j k v m, eq_iff j k, eq_iff k j)

  pub erase-NodupKeys : (k : String) (m : Dict V) → NodupKeys m → NodupKeys (erase k m)
  unfolding erase
  erase-NodupKeys k [] d = tt
  erase-NodupKeys k ((j, w) ∷ m) (fresh, d) =
      ground (arith, erase-NodupKeys k m d, lookup-erase j k m)

  -- A map whose keys are all in a list has at most as many entries as the list has elements.
  pub length-le_of_contains :
      (m : Dict V) (keys : List String)
      → NodupKeys m
      → ((k : String) → lookup k m ≢ none → contains k keys ≡ true)
      → length m ≤ length keys
  unfolding lookup
  length-le_of_contains [] keys d h = omega arith
  length-le_of_contains ((k, v) ∷ m) keys (fresh, d) h =
      let listed : contains k keys ≡ true = h k (ground (arith, eq_iff k k)) in
      let rest : length m ≤ length (remove k keys) =
        length-le_of_contains m (remove k keys) d λ j found.
          contains-remove j k keys (ground (arith, eq_iff k j))
            (h j (ground (arith, eq_iff k j))) in
      omega (arith, length-remove k keys listed)
