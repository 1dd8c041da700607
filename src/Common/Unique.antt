-- ===== src/Common/Unique.antt =====
-- Columns without repetitions.
use mathlib.Core.Path.{◌≡◌, sym, ◌∙◌}
use mathlib.Core.Logic.{◌≢◌, inl, inr}
use mathlib.Core.Bool.{Bool}
use mathlib.Core.List.{List, [], ◌∷◌, ◌++◌, map}
use v_m_io.Common.Tests.{Bool-cases}
use v_m_io.Common.Lists.{All, All-map, All-append, All-keep_map, keep}

-- No two rows agree on the column.
abbrev pub Unique {ℓ κ} : {A : Type ℓ} {B : Type κ} → (A → B) → List A → Type κ
Unique f [] = Unit
Unique f (x ∷ xs) = All (λ y. f x ≢ f y) xs × Unique f xs

module _ {ℓ κ} {A : Type ℓ} {B : Type κ} (f : A → B) where
  pub Unique-keep : (p : A → Bool) (xs : List A) → Unique f xs → Unique f (keep p xs)
  Unique-keep p [] u = tt
  Unique-keep p (x ∷ xs) u = elim (Bool-cases (p x)) [
    | inl e ↦ rw e (All-keep_map _ _ p xs (λ y _ h. h) u.0, Unique-keep p xs u.1)
    | inr e ↦ rw e (Unique-keep p xs u.1)
  ]

  pub Unique-snoc :
      (xs : List A) (x : A) → Unique f xs → All (λ y. f y ≢ f x) xs → Unique f (xs ++ (x ∷ []))
  Unique-snoc [] x u h = (tt, tt)
  Unique-snoc (y ∷ xs) x u h = (All-append _ xs (x ∷ []) u.0 (h.0, tt), Unique-snoc xs x u.1 h.1)

  All-map_fun :
      (g : A → A) (b : B) (xs : List A)
      → ((y : A) → f (g y) ≡ f y)
      → All (λ y. b ≢ f y) xs
      → All (λ y. b ≢ f y) (map g xs)
  All-map_fun g b [] e h = tt
  All-map_fun g b (x ∷ xs) e h = (λ p. h.0 (p ∙ e x), All-map_fun g b xs e h.1)

  -- a change that leaves the column alone
  pub Unique-map :
      (g : A → A) (xs : List A) → ((y : A) → f (g y) ≡ f y) → Unique f xs → Unique f (map g xs)
  Unique-map g [] e u = tt
  Unique-map g (x ∷ xs) e u = (
    All-map_fun g _ xs e (All-map _ _ xs (λ y h p. h (sym (e x) ∙ p)) u.0),
    Unique-map g xs e u.1,
  )
