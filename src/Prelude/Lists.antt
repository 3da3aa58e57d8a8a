-- ===== src/Prelude/Lists.antt =====
-- Prefixes and positions of a list, over the native numbers.
use Prim.Native.Nat.{ℕ, zero, suc, ◌+◌, ◌-◌, ◌≤◌, ◌<◌}
use mathlib.Core.Path.{◌≡◌, refl}
use mathlib.Core.List.{List, [], ◌∷◌, ◌++◌}
use native.Mathlib.Omega.{arith}
use codex_auto_retry.Prelude.Tests.{length}

module _ {ℓ} {A : Type ℓ} where
  abbrev pub take : ℕ → List A → List A
  take zero xs = []
  take (suc n) [] = []
  take (suc n) (x ∷ xs) = x ∷ take n xs

  abbrev pub drop : ℕ → List A → List A
  drop zero xs = xs
  drop (suc n) [] = []
  drop (suc n) (x ∷ xs) = drop n xs

  abbrev pub get_or : List A → ℕ → A → A
  get_or [] n d = d
  get_or (x ∷ xs) zero d = x
  get_or (x ∷ xs) (suc n) d = get_or xs n d

  -- The items from `start` on, up to `end`.
  abbrev pub slice : ℕ → ℕ → List A → List A
  slice start end xs = take (end - start) (drop start xs)

  pub drop-step :
      (n : ℕ) (xs : List A) (d : A) → n < length xs → drop n xs ≡ get_or xs n d ∷ drop (suc n) xs
  drop-step zero [] d h = absurd (omega arith)
  drop-step zero (x ∷ xs) d h = refl
  drop-step (suc n) [] d h = absurd (omega arith)
  drop-step (suc n) (x ∷ xs) d h = drop-step n xs d (omega arith)

  pub take-length : (xs : List A) → take (length xs) xs ≡ xs
  take-length [] = refl
  take-length (x ∷ xs) = rw (take-length xs) refl

  take-nil : (n : ℕ) → take n [] ≡ []
  take-nil zero = refl
  take-nil (suc n) = refl

  pub take-append : (m n : ℕ) (xs : List A) → take (m + n) xs ≡ take m xs ++ take n (drop m xs)
  take-append zero n xs = let e : 0 + n ≡ n = omega arith in rw e refl
  take-append (suc m) n [] =
      let e : suc m + n ≡ suc (m + n) = omega arith in rw (e, take-nil n) refl
  take-append (suc m) n (x ∷ xs) =
      let e : suc m + n ≡ suc (m + n) = omega arith in rw (e, take-append m n xs) refl

  pub take-take_le : (m n : ℕ) (xs : List A) → m ≤ n → take m (take n xs) ≡ take m xs
  take-take_le zero n xs h = refl
  take-take_le (suc m) zero xs h = absurd (omega arith)
  take-take_le (suc m) (suc n) [] h = refl
  take-take_le (suc m) (suc n) (x ∷ xs) h = rw (take-take_le m n xs (omega arith)) refl

  pub take-take_ge : (m n : ℕ) (xs : List A) → n ≤ m → take m (take n xs) ≡ take n xs
  take-take_ge m zero xs h = take-nil m
  take-take_ge zero (suc n) xs h = absurd (omega arith)
  take-take_ge (suc m) (suc n) [] h = refl
  take-take_ge (suc m) (suc n) (x ∷ xs) h = rw (take-take_ge m n xs (omega arith)) refl

  pub length-take : (n : ℕ) (xs : List A) → n ≤ length xs → length (take n xs) ≡ n
  length-take zero xs h = refl
  length-take (suc n) [] h = absurd (omega arith)
  length-take (suc n) (x ∷ xs) h = omega (arith, length-take n xs (omega arith))

  pub length-drop : (n : ℕ) (xs : List A) → length (drop n xs) ≡ length xs - n
  length-drop zero xs = omega arith
  length-drop (suc n) [] = omega arith
  length-drop (suc n) (x ∷ xs) = omega (arith, length-drop n xs)
