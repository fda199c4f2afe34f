-- ===== src/Base/Dict.antt =====
-- Python's `dict` with text keys, in insertion order.
use Prim.Native.String.{String}
use text.Mathlib.Text.{◌==◌}
use text.Mathlib.TextEquality.{eq_iff}
use text.Mathlib.TextPositions.{eq_refl}
use mathlib.Core.Path.{◌≡◌, refl}
use mathlib.Core.Logic.{inl, inr}
use mathlib.Core.Bool.{Bool, false, ◌||◌}
use mathlib.Core.Option.{Option, none, some}
use mathlib.Core.List.{List, [], ◌∷◌}
use native.Mathlib.Omega.{arith}
use multi_agent_orchestratio.Base.Tests.{if◌then◌else◌, is_some, Bool-cases}

abbrev pub Dict {ℓ} : Type ℓ → Type ℓ
Dict V = List (String × V)

-- `a if a is not None else b`, on looked-up values.
abbrev pub or_else {ℓ} : {A : Type ℓ} → Option A → Option A → Option A
or_else (some a) b = some a
or_else none b = b

module _ {ℓ} {V : Type ℓ} where
  -- `d.get(k)`.
  unfoldable pub lookup : String → Dict V → Option V
  lookup k [] = none
  lookup k ((j, v) ∷ d) = if j == k then some v else lookup k d

  -- `d.get(k, default)`.
  abbrev pub get_or : String → V → Dict V → V
  get_or k default d = elim (lookup k d) [ none ↦ default | some v ↦ v ]

  -- `k in d`.
  abbrev pub contains : String → Dict V → Bool
  contains k d = is_some (lookup k d)

  -- `d[k] = v`: a key that is there keeps its place.
  unfoldable pub insert : String → V → Dict V → Dict V
  insert k v [] = (k, v) ∷ []
  insert k v ((j, w) ∷ d) = if j == k then (k, v) ∷ d else (j, w) ∷ insert k v d

  -- `d.update(u)`.
  unfoldable pub update : Dict V → Dict V → Dict V
  update d [] = d
  update d ((k, v) ∷ u) = update (insert k v d) u

  -- `d.pop(k, None)`.
  unfoldable pub erase : String → Dict V → Dict V
  erase k [] = []
  erase k ((j, w) ∷ d) = let rest = erase k d in if j == k then rest else (j, w) ∷ rest

  abbrev pub keys : Dict V → List String
  keys [] = []
  keys ((k, v) ∷ d) = k ∷ keys d

  -- A Python dict never holds a key twice.
  abbrev pub HasDistinctKeys : Dict V → Type 0
  HasDistinctKeys [] = Unit
  HasDistinctKeys ((k, v) ∷ d) = (contains k d ≡ false) × HasDistinctKeys d

  pub lookup-insert :
      (k j : String) (v : V) (d : Dict V)
      → lookup j (insert k v d) ≡ (if k == j then some v else lookup j d)
  unfolding lookup insert
  lookup-insert k j v [] = refl
  lookup-insert k j v ((i, w) ∷ d) =
      ground (arith, eq_iff k j, eq_iff i k, eq_iff i j, lookup-insert k j v d)

  pub lookup-insert_self : (k : String) (v : V) (d : Dict V) → lookup k (insert k v d) ≡ some v
  lookup-insert_self k v d = simp (lookup-insert, eq_refl)

  pub get_or-insert_self :
      (k : String) (default v : V) (d : Dict V) → get_or k default (insert k v d) ≡ v
  get_or-insert_self k default v d = rw (lookup-insert_self k v d, get_or)

  pub get_or-cons :
      (k j : String) (default v : V) (d : Dict V)
      → get_or k default ((j, v) ∷ d) ≡ (if j == k then v else get_or k default d)
  unfolding lookup
  get_or-cons k j default v d = elim (Bool-cases (j == k)) [
    | inl same ↦ rw (same, get_or, lookup) refl
    | inr other ↦ rw (other, get_or, lookup) refl
  ]

  pub lookup-insert_ne :
      (k j : String) (v : V) (d : Dict V) → (k == j) ≡ false → lookup j (insert k v d) ≡ lookup j d
  lookup-insert_ne k j v d h = rw lookup-insert (rw h refl)

  pub contains-insert :
      (k j : String) (v : V) (d : Dict V) → contains j (insert k v d) ≡ (k == j || contains j d)
  contains-insert k j v d = rw lookup-insert (ground arith)

  pub lookup-erase :
      (k j : String) (d : Dict V) → lookup j (erase k d) ≡ (if k == j then none else lookup j d)
  unfolding lookup erase
  lookup-erase k j [] = ground arith
  lookup-erase k j ((i, w) ∷ d) =
      ground (arith, eq_iff k j, eq_iff i k, eq_iff i j, lookup-erase k j d)

  -- The new value of a key is the one of `u`, and the old one where `u` has none.
  pub lookup-update :
      (j : String) (d u : Dict V)
      → HasDistinctKeys u
      → lookup j (update d u) ≡ or_else (lookup j u) (lookup j d)
  unfolding lookup update
  lookup-update j d [] h = refl
  lookup-update j d ((k, v) ∷ u) (absent, h) =
      let ih = lookup-update j (insert k v d) u h in
      let step = lookup-insert k j v d in ground (arith, eq_iff k j)

  pub HasDistinctKeys-insert :
      (k : String) (v : V) (d : Dict V) → HasDistinctKeys d → HasDistinctKeys (insert k v d)
  unfolding lookup insert
  HasDistinctKeys-insert k v [] h = (refl, tt)
  HasDistinctKeys-insert k v ((j, w) ∷ d) h = elim (Bool-cases (j == k)) [
    | inl same ↦ let e : j ≡ k = (eq_iff j k).0 same in rw same (rw (← e) h)
    | inr other ↦ rw other (
      rw (lookup-insert k j v d) (ground (arith, eq_iff j k, eq_iff k j)),
      HasDistinctKeys-insert k v d h.1,
    )
  ]

  pub HasDistinctKeys-update : (d u : Dict V) → HasDistinctKeys d → HasDistinctKeys (update d u)
  unfolding update
  HasDistinctKeys-update d [] h = h
  HasDistinctKeys-update d ((k, v) ∷ u) h =
      HasDistinctKeys-update (insert k v d) u (HasDistinctKeys-insert k v d h)

pub ruleset dict_laws = (lookup-insert, lookup-erase)
