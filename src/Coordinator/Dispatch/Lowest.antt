-- ===== src/Coordinator/Dispatch/Lowest.antt =====
-- The lowest of some onsets, of which any may be missing (coordinator/dispatch.rs).
use correctness_bench.Common.{
  ◌≡◌, refl, sym, ◌⊎◌, inl, inr, Bool-cases, Option, none, some, List, [], ◌∷◌, ◌++◌, map, arith,
  All,
}
use correctness_bench.Float.{Float, IsIeee, ◌≼◌}
use correctness_bench.Coordinator.Dispatch.{lower_onset}

module _ {F : Type 0} ⦃f : Float F⦄ where
  -- An onset, if there is one, is a number.
  abbrev pub IsDefined : Option F → Type 0
  IsDefined none = Unit
  IsDefined (some x) = x ≼ x

  abbrev pub Below : F → Option F → Type 0
  Below x none = Unit
  Below x (some y) = x ≼ y

  abbrev pub Among : F → List (Option F) → Type 0
  Among x [] = ⊥
  Among x (o ∷ os) = (o ≡ some x) ⊎ Among x os

  -- the lowest of the onsets, if there is any
  abbrev pub IsLowest : Option F → List (Option F) → Type 0
  IsLowest none os = All (λ o. o ≡ none) os
  IsLowest (some x) os = Among x os × All (Below x) os

  -- the onsets of all, each with its own
  abbrev pub together : {A : Type 0} → (A → List (Option F)) → List A → List (Option F)
  together each [] = []
  together each (a ∷ xs) = each a ++ together each xs

  -- the onsets taken one by one
  abbrev pub lowest : Option F → List (Option F) → Option F
  lowest so_far [] = so_far
  lowest so_far (o ∷ os) = lowest (lower_onset so_far o) os

  Among-append-left : (x : F) (os ps : List (Option F)) → Among x os → Among x (os ++ ps)
  Among-append-left x [] ps a = elim a [ ]
  Among-append-left x (o ∷ os) ps (inl e) = inl e
  Among-append-left x (o ∷ os) ps (inr a) = inr (Among-append-left x os ps a)

  Among-append-right : (x : F) (os ps : List (Option F)) → Among x ps → Among x (os ++ ps)
  Among-append-right x [] ps a = a
  Among-append-right x (o ∷ os) ps a = inr (Among-append-right x os ps a)

  All-append :
      (P : Option F → Type 0) (os ps : List (Option F)) → All P os → All P ps → All P (os ++ ps)
  All-append P [] ps all more = more
  All-append P (o ∷ os) ps (p, all) more = (p, All-append P os ps all more)

module _ {F : Type 0} ⦃f : Float F⦄ (laws : IsIeee F) where
  lower_onset-IsDefined :
      (so_far o : Option F) → IsDefined so_far → IsDefined o → IsDefined (lower_onset so_far o)
  unfolding lower_onset
  lower_onset-IsDefined so_far none d e = d
  lower_onset-IsDefined none (some y) d e = e
  lower_onset-IsDefined (some x) (some y) d e = ground arith

  some_ne_none : {x : F} → some x ≡ none → ⊥
  some_ne_none e = ground (arith, e)

  later :
      (x y : F) (o : Option F) (os : List (Option F))
      → Among x (some y ∷ os)
      → Among x (some y ∷ o ∷ os)
  later x y o os (inl e) = inl e
  later x y o os (inr a) = inr (inr a)

  -- The lowest of a list stays it when two of its onsets are replaced for the lower one.
  spread :
      (r so_far o : Option F) (os : List (Option F))
      → IsDefined so_far
      → IsDefined o
      → IsLowest r (lower_onset so_far o ∷ os)
      → IsLowest r (so_far ∷ o ∷ os)
  unfolding lower_onset
  spread none none none os d e l = (refl, l)
  spread none none (some y) os d e l = (refl, l)
  spread none (some x) none os d e (gone, l) = (gone, (refl, l))
  spread none (some x) (some y) os d e (gone, l) = absurd (some_ne_none gone)
  spread (some x) none none os d e (among, all) = (inr among, (tt, all))
  spread (some x) none (some y) os d e (among, all) = (inr among, (tt, all))
  spread (some x) (some y) none os d e (among, (le, all)) =
      (later x y none os among, (le, (tt, all)))
  spread (some x) (some y) (some z) os d e l = elim (Bool-cases (f.lt z y)) [
    | inl lower ↦
        let (among, (le, all)) = rw lower at l in
        (inr among, (laws.le_trans x z y le (laws.le_of_lt z y lower), (le, all)))
    | inr not_lower ↦
        let (among, (le, all)) = rw not_lower at l in
        let up = laws.le_of_not_lt y z d e not_lower in
        (later x y (some z) os among, (le, (laws.le_trans x y z le up, all)))
  ]

  lowest-IsLowest :
      (so_far : Option F) (os : List (Option F))
      → IsDefined so_far
      → All IsDefined os
      → IsLowest (lowest so_far os) (so_far ∷ os)
  lowest-IsLowest none [] d all = (refl, tt)
  lowest-IsLowest (some x) [] d all = (inl refl, (d, tt))
  lowest-IsLowest so_far (o ∷ os) d (e, all) =
      let lower = lower_onset so_far o in
      spread (lowest lower os) so_far o os d e
        (lowest-IsLowest lower os (lower_onset-IsDefined so_far o d e) all)

  pub lowest-IsDefined :
      (so_far : Option F) (os : List (Option F))
      → IsDefined so_far
      → All IsDefined os
      → IsDefined (lowest so_far os)
  lowest-IsDefined so_far [] d all = d
  lowest-IsDefined so_far (o ∷ os) d (e, all) =
      lowest-IsDefined (lower_onset so_far o) os (lower_onset-IsDefined so_far o d e) all

  without_none : (r : Option F) (os : List (Option F)) → IsLowest r (none ∷ os) → IsLowest r os
  without_none none os (e, all) = all
  without_none (some x) os (inl e, all) = absurd (some_ne_none (sym e))
  without_none (some x) os (inr among, (below, all)) = (among, all)

  pub lowest-none : (os : List (Option F)) → All IsDefined os → IsLowest (lowest none os) os
  lowest-none os all = without_none (lowest none os) os (lowest-IsLowest none os tt all)

  Below-Below : (x y : F) (os : List (Option F)) → x ≼ y → All (Below y) os → All (Below x) os
  Below-Below x y [] le all = tt
  Below-Below x y (none ∷ os) le (below, all) = (tt, Below-Below x y os le all)
  Below-Below x y (some z ∷ os) le (below, all) =
      (laws.le_trans x y z le below, Below-Below x y os le all)

  none-Below : (x : F) (os : List (Option F)) → All (λ o. o ≡ none) os → All (Below x) os
  none-Below x [] all = tt
  none-Below x (o ∷ os) (e, all) = (rw e tt, none-Below x os all)

  lowest-Below :
      (x : F) (r : Option F) (os : List (Option F)) → Below x r → IsLowest r os → All (Below x) os
  lowest-Below x none os below l = none-Below x os l
  lowest-Below x (some y) os below (among, all) = Below-Below x y os below all

  module _ {A : Type 0} (one : A → Option F) (each : A → List (Option F))
      (low : (a : A) → IsLowest (one a) (each a)) where
    together-none :
        (xs : List A) → All (λ o. o ≡ none) (map one xs) → All (λ o. o ≡ none) (together each xs)
    together-none [] all = tt
    together-none (a ∷ xs) (e, all) =
        All-append (λ o. o ≡ none) (each a) (together each xs) (rw e at (low a))
          (together-none xs all)

    together-Among : (x : F) (xs : List A) → Among x (map one xs) → Among x (together each xs)
    together-Among x [] among = elim among [ ]
    together-Among x (a ∷ xs) (inl e) =
        Among-append-left x (each a) (together each xs) (rw e at (low a)).0
    together-Among x (a ∷ xs) (inr among) =
        Among-append-right x (each a) (together each xs) (together-Among x xs among)

    together-Below :
        (x : F) (xs : List A) → All (Below x) (map one xs) → All (Below x) (together each xs)
    together-Below x [] all = tt
    together-Below x (a ∷ xs) (below, all) =
        All-append (Below x) (each a) (together each xs)
          (lowest-Below x (one a) (each a) below (low a)) (together-Below x xs all)

    pub IsLowest-together :
        (r : Option F) (xs : List A) → IsLowest r (map one xs) → IsLowest r (together each xs)
    IsLowest-together none xs l = together-none xs l
    IsLowest-together (some x) xs (among, all) =
        (together-Among x xs among, together-Below x xs all)
