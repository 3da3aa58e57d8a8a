-- ===== src/Daemon/SortedDue.antt =====
-- The order of what is due in `dispatchDueLocked` of scripts/source/daemon.go.
use mathlib.Core.List.{Perm}
use mathlib.Core.List.Perm
use codex_auto_retry.Prelude.{◌≤◌, arith, List, [], ◌∷◌, All, before, Bool-cases, inl, inr, Time}
use codex_auto_retry.Daemon.Dispatch.{Due, insert_due, sort_due}

module _ {ℓ} {A : Type ℓ} (due_at : A → Time) where
  -- No later item stands before an earlier one.
  abbrev pub DueInOrder : List (Due A) → Type 0
  DueInOrder [] = Unit
  DueInOrder (x ∷ rest) = All (λ y. due_at x.item ≤ due_at y.item) rest × DueInOrder rest

  pub insert_due-All {κ} :
      (P : Due A → Type κ) (x : Due A) (items : List (Due A))
      → P x
      → All P items
      → All P (insert_due due_at x items)
  unfolding insert_due
  insert_due-All P x [] p h = (p, tt)
  insert_due-All P x (y ∷ rest) p h = ground (arith, insert_due-All P x rest p h.1)

  All-later :
      (s t : Time) (items : List (Due A))
      → s ≤ t
      → All (λ y. t ≤ due_at y.item) items
      → All (λ y. s ≤ due_at y.item) items
  All-later s t [] h k = tt
  All-later s t (y ∷ rest) h k = (omega (arith, h, k.0), All-later s t rest h k.1)

  insert_due-DueInOrder :
      (x : Due A) (items : List (Due A)) → DueInOrder items → DueInOrder (insert_due due_at x items)
  unfolding insert_due
  insert_due-DueInOrder x [] o = (tt, tt)
  insert_due-DueInOrder x (y ∷ rest) o = ground (
    arith,
    insert_due-DueInOrder x rest o.1,
    λ (h : due_at y.item ≤ due_at x.item).
        insert_due-All (λ z. due_at y.item ≤ due_at z.item) x rest h o.0,
    λ (h : due_at x.item ≤ due_at y.item). All-later (due_at x.item) (due_at y.item) rest h o.0,
  )

  insert_due-Perm :
      (x : Due A) (items : List (Due A)) → Perm (x ∷ items) (insert_due due_at x items)
  unfolding insert_due
  insert_due-Perm x [] = Perm.refl (x ∷ [])
  insert_due-Perm x (y ∷ rest) = elim (Bool-cases (before (due_at y.item) (due_at x.item))) [
    | inl e ↦ rw e (Perm.trans (Perm.swap y x rest) (Perm.cons y (insert_due-Perm x rest)))
    | inr e ↦ rw e (Perm.refl (x ∷ y ∷ rest))
  ]

  pub sort_due-DueInOrder :
      (items : List (Due A))
      → DueInOrder (sort_due due_at items) × Perm items (sort_due due_at items)
  unfolding sort_due
  sort_due-DueInOrder [] = (tt, Perm.refl [])
  sort_due-DueInOrder (x ∷ rest) =
      let (o, p) = sort_due-DueInOrder rest in
      (
        insert_due-DueInOrder x (sort_due due_at rest) o,
        Perm.trans (Perm.cons x p) (insert_due-Perm x (sort_due due_at rest)),
      )

  pub sort_due-All {κ} :
      (P : Due A → Type κ) (items : List (Due A)) → All P items → All P (sort_due due_at items)
  unfolding sort_due
  sort_due-All P [] h = tt
  sort_due-All P (x ∷ rest) h =
      insert_due-All P x (sort_due due_at rest) h.0 (sort_due-All P rest h.1)
