-- ===== src/Prelude/Assoc.antt =====
-- A `map[string]V`: an association list. `range` over a map visits the entries in the list's order.
use Prim.Native.String.{String}
use mathlib.Core.Path.{◌≡◌, refl, subst}
use mathlib.Core.Bool.{Bool, false}
use mathlib.Core.Logic.{inl, inr}
use mathlib.Core.Option.{Option, none, some}
use mathlib.Core.List.{List, [], ◌∷◌}
use native.Mathlib.Omega.{arith}
use text.Mathlib.Text.{◌==◌}
use text.Mathlib.TextEquality.{eq_iff}
use text.Mathlib.TextPositions.{eq_refl}
use codex_auto_retry.Prelude.Tests.{if◌then◌else◌, is_some, All, Bool-cases}

abbrev pub Table {ℓ} : Type ℓ → Type ℓ
Table V = List (String × V)

module _ {ℓ} {V : Type ℓ} where
  -- `m[key]`
  unfoldable pub entry : Table V → String → Option V
  entry [] key = none
  entry ((name, v) ∷ rest) key = if key == name then some v else entry rest key

  -- `m[key] = v`
  unfoldable pub assign : Table V → String → V → Table V
  assign [] key v = (key, v) ∷ []
  assign ((name, w) ∷ rest) key v =
      if key == name then (name, v) ∷ rest else (name, w) ∷ assign rest key v

  -- `delete(m, key)`
  unfoldable pub delete : Table V → String → Table V
  delete [] key = []
  delete ((name, w) ∷ rest) key =
      if key == name then delete rest key else (name, w) ∷ delete rest key

  -- `_, found := m[key]`
  abbrev pub has_entry : Table V → String → Bool
  has_entry m key = is_some (entry m key)

  pub entry-assign :
      (m : Table V) (k j : String) (v : V)
      → entry (assign m k v) j ≡ (if j == k then some v else entry m j)
  unfolding entry assign
  entry-assign [] k j v = refl
  entry-assign ((i, w) ∷ rest) k j v =
      ground (arith, eq_iff j k, eq_iff k i, eq_iff j i, entry-assign rest k j v)

  pub entry-delete :
      (m : Table V) (k j : String) → entry (delete m k) j ≡ (if j == k then none else entry m j)
  unfolding entry delete
  entry-delete [] k j = ground arith
  entry-delete ((i, w) ∷ rest) k j =
      ground (arith, eq_iff j k, eq_iff k i, eq_iff j i, entry-delete rest k j)

  pub assign-All {κ} :
      (P : V → Type κ) (m : Table V) (k : String) (v : V)
      → All (λ e. P e.1) m
      → P v
      → All (λ e. P e.1) (assign m k v)
  unfolding assign
  assign-All P [] k v h p = (p, tt)
  assign-All P ((i, w) ∷ rest) k v h p = ground (arith, assign-All P rest k v h.1 p)

  pub entry-All {κ} :
      (P : V → Type κ) (m : Table V) (k : String) (v : V)
      → All (λ e. P e.1) m
      → entry m k ≡ some v
      → P v
  unfolding entry
  entry-All P [] k v h e = absurd (cc)
  entry-All P ((i, w) ∷ rest) k v h e = elim (Bool-cases (k == i)) [
    | inl hit ↦ let same : some w ≡ some v = rw hit at e in let q : w ≡ v = cc in subst P q h.0
    | inr miss ↦ entry-All P rest k v h.1 (rw miss at e)
  ]

  -- No entry has that key.
  abbrev pub Fresh : String → Table V → Type 0
  Fresh key [] = Unit
  Fresh key ((name, v) ∷ rest) = ((key == name) ≡ false) × Fresh key rest

  -- No key stands twice, as in a map.
  abbrev pub UniqueKeys : Table V → Type 0
  UniqueKeys [] = Unit
  UniqueKeys ((name, v) ∷ rest) = Fresh name rest × UniqueKeys rest

  assign-Fresh :
      (m : Table V) (k j : String) (v : V) → (j == k) ≡ false → Fresh j m → Fresh j (assign m k v)
  unfolding assign
  assign-Fresh [] k j v e f = (e, tt)
  assign-Fresh ((i, w) ∷ rest) k j v e f = ground (arith, assign-Fresh rest k j v e f.1)

  pub assign-UniqueKeys :
      (m : Table V) (k : String) (v : V) → UniqueKeys m → UniqueKeys (assign m k v)
  unfolding assign
  assign-UniqueKeys [] k v u = (tt, tt)
  assign-UniqueKeys ((i, w) ∷ rest) k v u =
      ground
        (arith, eq_iff k i, eq_iff i k, assign-UniqueKeys rest k v u.1, assign-Fresh rest k i v)

  pub delete-All {κ} :
      (P : V → Type κ) (m : Table V) (k : String)
      → All (λ e. P e.1) m
      → All (λ e. P e.1) (delete m k)
  unfolding delete
  delete-All P [] k h = tt
  delete-All P ((i, w) ∷ rest) k h = ground (arith, delete-All P rest k h.1)

  pub delete-Fresh : (m : Table V) (k j : String) → Fresh j m → Fresh j (delete m k)
  unfolding delete
  delete-Fresh [] k j f = tt
  delete-Fresh ((i, w) ∷ rest) k j f = ground (arith, delete-Fresh rest k j f.1)

  pub delete-UniqueKeys : (m : Table V) (k : String) → UniqueKeys m → UniqueKeys (delete m k)
  unfolding delete
  delete-UniqueKeys [] k u = tt
  delete-UniqueKeys ((i, w) ∷ rest) k u =
      ground (arith, delete-UniqueKeys rest k u.1, delete-Fresh rest k i u.0)

  -- Every entry of `part` is what a lookup of its key in `m` finds.
  abbrev pub Found : Table V → Table V → Type ℓ
  Found m part = All (λ e. entry m e.0 ≡ some e.1) part

  Found-cons :
      (m part : Table V) (i : String) (w : V)
      → Fresh i part
      → Found m part
      → Found ((i, w) ∷ m) part
  unfolding entry
  Found-cons m [] i w f h = tt
  Found-cons m ((j, v) ∷ rest) i w f h =
      ground (arith, eq_iff i j, eq_iff j i, Found-cons m rest i w f.1 h.1)

  pub UniqueKeys-Found : (m : Table V) → UniqueKeys m → Found m m
  unfolding entry
  UniqueKeys-Found [] u = tt
  UniqueKeys-Found ((i, w) ∷ rest) u =
      ground (arith, eq_refl i, Found-cons rest rest i w u.0 (UniqueKeys-Found rest u.1))
