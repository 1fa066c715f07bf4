-- ===== src/Common/Maps.antt =====
-- A hash map with text keys, as an association list in which a write replaces.
use Prim.Native.String.{String}
use mathlib.Core.Path.{◌≡◌, refl}
use mathlib.Core.Bool.{Bool}
use mathlib.Core.List.{List, [], ◌∷◌}
use mathlib.Core.Option.{Option, none, some}
use native.Mathlib.Omega.{arith}
use correctness_bench.Common.Tests.{str_eq, str_eq_iff, if◌then◌else◌, if_cases}

module _ {V : Type 0} where
  unfoldable pub lookup : String → List (String × V) → Option V
  lookup k [] = none
  lookup k ((j, v) ∷ m) = if str_eq j k then some v else lookup k m

  unfoldable pub insert : String → V → List (String × V) → List (String × V)
  insert k v [] = (k, v) ∷ []
  insert k v ((j, w) ∷ m) = if str_eq j k then (k, v) ∷ m else (j, w) ∷ insert k v m

  unfoldable pub remove : String → List (String × V) → List (String × V)
  remove k [] = []
  remove k ((j, v) ∷ m) = if str_eq j k then remove k m else (j, v) ∷ remove k m

  -- the entries that pass a test
  unfoldable pub retain : (V → Bool) → List (String × V) → List (String × V)
  retain p [] = []
  retain p ((j, v) ∷ m) = if p v then (j, v) ∷ retain p m else retain p m

  pub lookup-insert :
      (k j : String) (v : V) (m : List (String × V))
      → lookup j (insert k v m) ≡ (if str_eq k j then some v else lookup j m)
  unfolding lookup insert
  lookup-insert k j v [] = refl
  lookup-insert k j v ((i, w) ∷ m) =
      ground (arith, str_eq_iff k j, str_eq_iff i k, str_eq_iff i j, lookup-insert k j v m)

  pub lookup-remove :
      (k j : String) (m : List (String × V))
      → lookup j (remove k m) ≡ (if str_eq k j then none else lookup j m)
  unfolding lookup remove
  lookup-remove k j [] = ground arith
  lookup-remove k j ((i, w) ∷ m) =
      ground (arith, str_eq_iff k j, str_eq_iff i k, str_eq_iff i j, lookup-remove k j m)

  -- No key stands twice.
  abbrev pub Unique : List (String × V) → Type 0
  Unique [] = Unit
  Unique ((j, v) ∷ m) = (lookup j m ≡ none) × Unique m

  pub insert-Unique :
      (k : String) (v : V) (m : List (String × V)) → Unique m → Unique (insert k v m)
  unfolding insert
  insert-Unique k v [] u = (unfold lookup in refl, tt)
  insert-Unique k v ((i, w) ∷ m) (fresh, u) =
      if_cases Unique (str_eq i k) _ _ (λ e. (ground (arith, str_eq_iff i k), u))
        (λ e. (
          ground (arith, str_eq_iff i k, str_eq_iff k i, lookup-insert k i v m),
          insert-Unique k v m u,
        ))

  pub remove-Unique : (k : String) (m : List (String × V)) → Unique m → Unique (remove k m)
  unfolding remove
  remove-Unique k [] u = tt
  remove-Unique k ((i, w) ∷ m) (fresh, u) =
      if_cases Unique (str_eq i k) _ _ (λ e. remove-Unique k m u)
        (λ e. (ground (arith, lookup-remove k i m), remove-Unique k m u))

  lookup-retain-none :
      (p : V → Bool) (j : String) (m : List (String × V))
      → lookup j m ≡ none
      → lookup j (retain p m) ≡ none
  unfolding lookup retain
  lookup-retain-none p j [] e = refl
  lookup-retain-none p j ((i, w) ∷ m) e = ground (arith, lookup-retain-none p j m)

  abbrev pub keep : (V → Bool) → Option V → Option V
  keep p none = none
  keep p (some v) = if p v then some v else none

  -- An entry stays just when it passes the test.
  pub lookup-retain :
      (p : V → Bool) (j : String) (m : List (String × V))
      → Unique m
      → lookup j (retain p m) ≡ keep p (lookup j m)
  unfolding lookup retain
  lookup-retain p j [] u = refl
  lookup-retain p j ((i, w) ∷ m) (fresh, u) =
      ground (arith, str_eq_iff i j, lookup-retain p j m u, lookup-retain-none p j m)

  pub retain-Unique : (p : V → Bool) (m : List (String × V)) → Unique m → Unique (retain p m)
  unfolding retain
  retain-Unique p [] u = tt
  retain-Unique p ((i, w) ∷ m) (fresh, u) =
      if_cases Unique (p w) _ _ (λ e. (lookup-retain-none p i m fresh, retain-Unique p m u))
        (λ e. retain-Unique p m u)
