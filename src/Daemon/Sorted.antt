-- ===== src/Daemon/Sorted.antt =====
-- The order in which a tick of scripts/source/daemon.go handles the scanned events.
use mathlib.Core.List.{Perm}
use mathlib.Core.List.Perm
use codex_auto_retry.Prelude.{◌≤◌, arith, List, [], ◌∷◌, All, before, Bool-cases, inl, inr, Time}
use codex_auto_retry.Thread.{ScannedEvent}
use codex_auto_retry.Daemon.Handle.{insert_event, sort_events}

abbrev pub at : ScannedEvent → Time
at item = item.event.timestamp

-- No later event stands before an earlier one.
abbrev pub InOrder : List ScannedEvent → Type 0
InOrder [] = Unit
InOrder (x ∷ rest) = All (λ y. at x ≤ at y) rest × InOrder rest

insert_event-All :
    (t : Time) (x : ScannedEvent) (items : List ScannedEvent)
    → t ≤ at x
    → All (λ y. t ≤ at y) items
    → All (λ y. t ≤ at y) (insert_event x items)
unfolding insert_event
insert_event-All t x [] h k = (h, tt)
insert_event-All t x (y ∷ rest) h k = ground (arith, insert_event-All t x rest h k.1)

All-later :
    (s t : Time) (items : List ScannedEvent)
    → s ≤ t
    → All (λ y. t ≤ at y) items
    → All (λ y. s ≤ at y) items
All-later s t [] h k = tt
All-later s t (y ∷ rest) h k = (omega (arith, h, k.0), All-later s t rest h k.1)

insert_event-InOrder :
    (x : ScannedEvent) (items : List ScannedEvent) → InOrder items → InOrder (insert_event x items)
unfolding insert_event
insert_event-InOrder x [] o = (tt, tt)
insert_event-InOrder x (y ∷ rest) o = ground (
  arith,
  insert_event-InOrder x rest o.1,
  λ (h : at y ≤ at x). insert_event-All (at y) x rest h o.0,
  λ (h : at x ≤ at y). All-later (at x) (at y) rest h o.0,
)

insert_event-Perm :
    (x : ScannedEvent) (items : List ScannedEvent) → Perm (x ∷ items) (insert_event x items)
unfolding insert_event
insert_event-Perm x [] = Perm.refl (x ∷ [])
insert_event-Perm x (y ∷ rest) = elim (Bool-cases (before (at y) (at x))) [
  | inl e ↦ rw e (Perm.trans (Perm.swap y x rest) (Perm.cons y (insert_event-Perm x rest)))
  | inr e ↦ rw e (Perm.refl (x ∷ y ∷ rest))
]

-- The events are handled in the order of their timestamps, and each of them exactly as often as it was
-- scanned.
pub sort_events-InOrder :
    (items : List ScannedEvent) → InOrder (sort_events items) × Perm items (sort_events items)
unfolding sort_events
sort_events-InOrder [] = (tt, Perm.refl [])
sort_events-InOrder (x ∷ rest) =
    let (o, p) = sort_events-InOrder rest in
    (
      insert_event-InOrder x (sort_events rest) o,
      Perm.trans (Perm.cons x p) (insert_event-Perm x (sort_events rest)),
    )
