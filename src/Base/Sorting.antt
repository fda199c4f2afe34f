-- ===== src/Base/Sorting.antt =====
-- Python's `sorted` and `max` with a numeric key.
use Prim.Native.Nat.{ℕ, ◌+◌}
use mathlib.Core.Path.{◌≡◌}
use mathlib.Core.List.{List, [], ◌∷◌}
use native.Mathlib.Omega.{arith}
use multi_agent_orchestratio.Base.Tests.{leb, ltb, if◌then◌else◌, Bool-cases}
use multi_agent_orchestratio.Base.Lists.{All}
use mathlib.Core.Logic.{inl, inr}

-- `sum(f(x) for x in xs)`.
abbrev pub sum_by {ℓ} : {A : Type ℓ} → (A → ℕ) → List A → ℕ
sum_by f [] = 0
sum_by f (x ∷ xs) = f x + sum_by f xs

module _ {ℓ} {A : Type ℓ} (key : A → ℕ) where
  -- Before the first element whose key is not below.
  unfoldable pub insert_ascending : A → List A → List A
  insert_ascending x [] = x ∷ []
  insert_ascending x (y ∷ ys) =
      if leb (key x) (key y) then x ∷ y ∷ ys else y ∷ insert_ascending x ys

  -- `sorted(xs, key=key)`, which is stable.
  unfoldable pub sort_ascending : List A → List A
  unfolding insert_ascending
  sort_ascending [] = []
  sort_ascending (x ∷ xs) = insert_ascending x (sort_ascending xs)

  unfoldable pub insert_descending : A → List A → List A
  insert_descending x [] = x ∷ []
  insert_descending x (y ∷ ys) =
      if leb (key y) (key x) then x ∷ y ∷ ys else y ∷ insert_descending x ys

  -- `sorted(xs, key=key, reverse=True)`, which is stable as well.
  unfoldable pub sort_descending : List A → List A
  unfolding insert_descending
  sort_descending [] = []
  sort_descending (x ∷ xs) = insert_descending x (sort_descending xs)

  -- `max(x, *xs, key=key)`: the first of the greatest.
  unfoldable pub max_by : A → List A → A
  max_by x [] = x
  max_by x (y ∷ ys) = max_by (if ltb (key x) (key y) then y else x) ys

  insert_ascending-sum :
      (f : A → ℕ) (x : A) (xs : List A) → sum_by f (insert_ascending x xs) ≡ f x + sum_by f xs
  unfolding insert_ascending
  insert_ascending-sum f x [] = omega arith
  insert_ascending-sum f x (y ∷ ys) = ground (arith, insert_ascending-sum f x ys)

  pub sort_ascending-sum : (f : A → ℕ) (xs : List A) → sum_by f (sort_ascending xs) ≡ sum_by f xs
  unfolding sort_ascending
  sort_ascending-sum f [] = omega arith
  sort_ascending-sum f (x ∷ xs) =
      omega (arith, insert_ascending-sum f x (sort_ascending xs), sort_ascending-sum f xs)

  module _ {κ} (P : A → Type κ) where
    insert_ascending-All : (x : A) (xs : List A) → P x → All P xs → All P (insert_ascending x xs)
    unfolding insert_ascending
    insert_ascending-All x [] p ps = (p, tt)
    insert_ascending-All x (y ∷ ys) p ps = elim (Bool-cases (leb (key x) (key y))) [
      | inl le ↦ rw le (p, ps)
      | inr gt ↦ rw gt (ps.0, insert_ascending-All x ys p ps.1)
    ]

    pub sort_ascending-All : (xs : List A) → All P xs → All P (sort_ascending xs)
    unfolding sort_ascending
    sort_ascending-All [] ps = tt
    sort_ascending-All (x ∷ xs) ps =
        insert_ascending-All x (sort_ascending xs) ps.0 (sort_ascending-All xs ps.1)

    insert_descending-All : (x : A) (xs : List A) → P x → All P xs → All P (insert_descending x xs)
    unfolding insert_descending
    insert_descending-All x [] p ps = (p, tt)
    insert_descending-All x (y ∷ ys) p ps = elim (Bool-cases (leb (key y) (key x))) [
      | inl le ↦ rw le (p, ps)
      | inr gt ↦ rw gt (ps.0, insert_descending-All x ys p ps.1)
    ]

    pub sort_descending-All : (xs : List A) → All P xs → All P (sort_descending xs)
    unfolding sort_descending
    sort_descending-All [] ps = tt
    sort_descending-All (x ∷ xs) ps =
        insert_descending-All x (sort_descending xs) ps.0 (sort_descending-All xs ps.1)

    pub max_by-All : (x : A) (xs : List A) → P x → All P xs → P (max_by x xs)
    unfolding max_by
    max_by-All x [] p ps = p
    max_by-All x (y ∷ ys) p ps = elim (Bool-cases (ltb (key x) (key y))) [
      | inl lt ↦ rw (max_by, lt) (max_by-All y ys ps.0 ps.1)
      | inr ge ↦ rw (max_by, ge) (max_by-All x ys p ps.1)
    ]
