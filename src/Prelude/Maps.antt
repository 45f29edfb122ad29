-- ===== src/Prelude/Maps.antt =====
-- `std::map<std::string, V>`: an association list in the order of its keys.
use svisual.Prelude.Tests.{if◌then◌else◌, Bool-cases}
use svisual.Prelude.Lists.{All}
use svisual.Prelude.Bytes.{Bytes, str_eq, str_lt, str_eq_iff, str_eq_refl}
use mathlib.Core.Path.{◌≡◌, refl, subst, ◌∙◌}
use mathlib.Core.Logic.{inl, inr}
use mathlib.Core.Bool.{Bool, true, false, ◌||◌}
use mathlib.Core.Option.{Option, none, some}
use mathlib.Core.List.{List, [], ◌∷◌}
use native.Mathlib.Omega.{arith}

abbrev pub Map {ℓ} : Type ℓ → Type ℓ
Map V = List (Bytes × V)

module _ {ℓ} {V : Type ℓ} where
  -- `m.find(k)`
  unfoldable pub lookup : Bytes → Map V → Option V
  lookup k [] = none
  lookup k ((j, v) ∷ m) = if str_eq j k then some v else lookup k m

  -- `m.find(k) != m.end()`, `m.count(k)`
  unfoldable pub has : Bytes → Map V → Bool
  unfolding lookup
  has k m = elim (lookup k m) [ none ↦ false | some _ ↦ true ]

  -- `m[k] = v`
  unfoldable pub insert : Bytes → V → Map V → Map V
  insert k v [] = (k, v) ∷ []
  insert k v ((j, w) ∷ m) =
      if str_eq j k
      then (k, v) ∷ m
      else if str_lt k j
      then (k, v) ∷ (j, w) ∷ m
      else (j, w) ∷ insert k v m

  pub lookup-insert :
      (k j : Bytes) (v : V) (m : Map V)
      → lookup j (insert k v m) ≡ (if str_eq k j then some v else lookup j m)
  unfolding lookup insert
  lookup-insert k j v [] = refl
  lookup-insert k j v ((i, w) ∷ m) =
      ground (
        arith,
        str_eq_iff k j,
        str_eq_iff i k,
        str_eq_iff i j,
        str_eq_refl k,
        lookup-insert k j v m,
      )

  pub lookup-insert_self : (k : Bytes) (v : V) (m : Map V) → lookup k (insert k v m) ≡ some v
  lookup-insert_self k v m = rw (lookup-insert k k v m, str_eq_refl k)

  -- What holds of every value holds after an insertion of a value of which it holds.
  pub All-insert {κ} :
      (P : Bytes × V → Type κ) (k : Bytes) (v : V) (m : Map V)
      → P (k, v)
      → All P m
      → All P (insert k v m)
  unfolding insert
  All-insert P k v [] h a = (h, tt)
  All-insert P k v ((j, w) ∷ m) h a = ground (arith, All-insert P k v m h a.1)

  -- A value that is found satisfies, with its key, what holds of every entry.
  pub lookup-All {κ} :
      (P : Bytes → V → Type κ) (k : Bytes) {v : V} (m : Map V)
      → All (λ e. P (e.0) (e.1)) m
      → lookup k m ≡ some v
      → P k v
  unfolding lookup
  lookup-All P k [] a e = cc
  lookup-All P k {v} ((j, w) ∷ m) a e = elim (Bool-cases (str_eq j k)) [
    | inl hit ↦ subst (λ i. P i v) ((str_eq_iff j k).0 hit) (subst (P j) (ground arith) a.0)
    | inr miss ↦ lookup-All P k m a.1 (ground arith)
  ]

  -- `for (auto& e : m) e.second = f(e.second)`
  unfoldable pub map_values : (V → V) → Map V → Map V
  map_values f [] = []
  map_values f ((k, v) ∷ m) = (k, f v) ∷ map_values f m

  pub lookup-map_values :
      (f : V → V) (k : Bytes) (m : Map V)
      → lookup k (map_values f m) ≡ elim (lookup k m) [ none ↦ none | some v ↦ some (f v) ]
  unfolding lookup map_values
  lookup-map_values f k [] = refl
  lookup-map_values f k ((j, v) ∷ m) = ground (arith, lookup-map_values f k m)

  pub All-map_values {κ} :
      (P Q : V → Type κ) (f : V → V) (m : Map V)
      → ((v : V) → P v → Q (f v))
      → All (λ e. P (e.1)) m
      → All (λ e. Q (e.1)) (map_values f m)
  unfolding map_values
  All-map_values P Q f [] h a = tt
  All-map_values P Q f ((k, v) ∷ m) h a = (h v a.0, All-map_values P Q f m h a.1)

  -- `m[k] = f(m[k])` for a key that is there; one that is not there is left out.
  unfoldable pub adjust : Bytes → (V → V) → Map V → Map V
  adjust k f [] = []
  adjust k f ((j, v) ∷ m) = if str_eq j k then (j, f v) ∷ m else (j, v) ∷ adjust k f m

  pub lookup-adjust :
      (k i : Bytes) (f : V → V) (m : Map V)
      → lookup i (adjust k f m) ≡ (
          if str_eq k i
          then elim (lookup i m) [ none ↦ none | some v ↦ some (f v) ]
          else lookup i m)
  unfolding lookup adjust
  lookup-adjust k i f [] = ground arith
  lookup-adjust k i f ((j, v) ∷ m) =
      ground (
        arith,
        str_eq_iff k i,
        str_eq_iff j k,
        str_eq_iff j i,
        str_eq_refl k,
        lookup-adjust k i f m,
      )

  -- No key stands twice.
  abbrev pub Distinct : Map V → Type 0
  Distinct [] = Unit {0}
  Distinct ((k, v) ∷ m) = (has k m ≡ false) × Distinct m

  pub has-adjust : (k i : Bytes) (f : V → V) (m : Map V) → has i (adjust k f m) ≡ has i m
  unfolding has
  has-adjust k i f m = ground (arith, lookup-adjust k i f m)

  pub adjust-Distinct : (k : Bytes) (f : V → V) (m : Map V) → Distinct m → Distinct (adjust k f m)
  unfolding adjust
  adjust-Distinct k f [] d = tt
  adjust-Distinct k f ((j, v) ∷ m) d = ground (arith, has-adjust k j f m, adjust-Distinct k f m d.1)

  pub has-insert :
      (k i : Bytes) (v : V) (m : Map V) → has i (insert k v m) ≡ (str_eq k i || has i m)
  unfolding has
  has-insert k i v m = ground (arith, lookup-insert k i v m)

  -- A key that a map does not have is neither its first nor in the rest.
  pub has_cons :
      (k j : Bytes) (w : V) (m : Map V)
      → has k ((j, w) ∷ m) ≡ false
      → (str_eq j k ≡ false) × (has k m ≡ false)
  unfolding has lookup
  has_cons k j w m h = (ground arith, ground arith)

  pub insert-Distinct :
      (k : Bytes) (v : V) (m : Map V) → has k m ≡ false → Distinct m → Distinct (insert k v m)
  unfolding insert
  insert-Distinct k v [] h d = (h, tt)
  insert-Distinct k v ((j, w) ∷ m) h d = ground (
    arith,
    has-insert k j v m,
    (has_cons k j w m h).1,
    str_eq_iff k j,
    str_eq_iff j k,
    str_eq_refl k,
    insert-Distinct k v m (has_cons k j w m h).1 d.1,
  )

  pub has-map_values : (f : V → V) (k : Bytes) (m : Map V) → has k (map_values f m) ≡ has k m
  unfolding has
  has-map_values f k m = ground (arith, lookup-map_values f k m)

  pub map_values-Distinct : (f : V → V) (m : Map V) → Distinct m → Distinct (map_values f m)
  unfolding map_values
  map_values-Distinct f [] d = tt
  map_values-Distinct f ((k, v) ∷ m) d = (has-map_values f k m ∙ d.0, map_values-Distinct f m d.1)

  -- What holds of every value holds after a change that keeps it at the value found.
  pub All-adjust {κ} :
      (Q : V → Type κ) (k : Bytes) (f : V → V) (m : Map V)
      → All (λ e. Q (e.1)) m
      → ((v : V) → lookup k m ≡ some v → Q (f v))
      → All (λ e. Q (e.1)) (adjust k f m)
  unfolding adjust lookup
  All-adjust Q k f [] a h = tt
  All-adjust Q k f ((j, v) ∷ m) a h = elim (Bool-cases (str_eq j k)) [
    | inl hit ↦ rw hit (h v (rw hit refl), a.1)
    | inr miss ↦ rw miss (a.0, All-adjust Q k f m a.1 (λ w e. h w (rw miss e)))
  ]

  -- What holds of every key holds after a change of values.
  pub All-adjust_keys {κ} :
      (P : Bytes → Type κ) (k : Bytes) (f : V → V) (m : Map V)
      → All (λ e. P (e.0)) m
      → All (λ e. P (e.0)) (adjust k f m)
  unfolding adjust
  All-adjust_keys P k f [] a = tt
  All-adjust_keys P k f ((j, v) ∷ m) a = ground (arith, All-adjust_keys P k f m a.1)
