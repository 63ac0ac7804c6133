-- ===== src/Prelude/Arrays.antt =====
-- Addresses, and arrays as functions of the index.
use Prim.Native.Nat.{ℕ, zero, suc, ◌+◌, ◌≤◌, ◌<◌}
use mathlib.Core.Path.{◌≡◌, refl, ap, ap₂, ◌∙◌}
use mathlib.Core.Logic.{◌≢◌}
use mathlib.Core.List.{List, [], ◌∷◌, ◌++◌}
use native.Mathlib.Omega.{arith}
use allocator.Prelude.Tests.{◌==◌, if◌then◌else◌}
use allocator.Prelude.Lists.{length}

-- An address; `nullptr` is 0.
abbrev pub Ptr : Type 0
Ptr = ℕ

abbrev pub null : Ptr
null = 0

-- An array after a write to one cell.
abbrev pub update {ℓ} : {A : Type ℓ} → (ℕ → A) → ℕ → A → ℕ → A
update f i v j = if i == j then v else f j

module _ {ℓ} {A : Type ℓ} where
  -- `memcpy` into an array, at `base`
  unfoldable pub copy_in : (ℕ → A) → (base : ℕ) → List A → ℕ → A
  copy_in f base [] = f
  copy_in f base (x ∷ xs) = copy_in (update f base x) (base + 1) xs

  -- `memcpy` out of an array: the `n` cells from `base` on
  unfoldable pub copy_out : (ℕ → A) → (base n : ℕ) → List A
  copy_out f base zero = []
  copy_out f base (suc n) = f base ∷ copy_out f (base + 1) n

module _ {ℓ} {A : Type ℓ} where
  pub copy_in-below : (xs : List A) (f : ℕ → A) (base i : ℕ) → i < base → copy_in f base xs i ≡ f i
  unfolding copy_in
  copy_in-below [] f base i h = refl
  copy_in-below (x ∷ xs) f base i h =
      copy_in-below xs (update f base x) (base + 1) i (omega arith) ∙ ground arith

  pub length-copy_out : (f : ℕ → A) (base n : ℕ) → length (copy_out f base n) ≡ n
  unfolding copy_out
  length-copy_out f base zero = refl
  length-copy_out f base (suc n) = ap suc (length-copy_out f (base + 1) n)

  pub copy_out-add :
      (f : ℕ → A) (base m n : ℕ)
      → copy_out f base (m + n) ≡ copy_out f base m ++ copy_out f (base + m) n
  unfolding copy_out
  copy_out-add f base zero n = ap₂ (λ (b k : ℕ). copy_out f b k) (omega arith) (omega arith)
  copy_out-add f base (suc m) n =
      let e : suc m + n ≡ suc (m + n) = omega arith in
      let e' : base + 1 + m ≡ base + suc m = omega arith in
      ap (copy_out f base) e
      ∙ ap (λ xs. f base ∷ xs)
          (copy_out-add f (base + 1) m n ∙ ap (λ b. copy_out f (base + 1) m ++ copy_out f b n) e')

  pub copy_out_ext :
      (f g : ℕ → A) (base n : ℕ)
      → ((i : ℕ) → base ≤ i → i < base + n → f i ≡ g i)
      → copy_out f base n ≡ copy_out g base n
  unfolding copy_out
  copy_out_ext f g base zero h = refl
  copy_out_ext f g base (suc n) h =
      ap₂ ◌∷◌ (h base (omega arith) (omega arith))
        (copy_out_ext f g (base + 1) n λ i p q. h i (omega arith) (omega arith))

  -- What was copied in is copied out.
  pub copy_out-copy_in :
      (xs : List A) (f : ℕ → A) (base : ℕ) → copy_out (copy_in f base xs) base (length xs) ≡ xs
  unfolding copy_in copy_out
  copy_out-copy_in [] f base = refl
  copy_out-copy_in (x ∷ xs) f base =
      ap₂ ◌∷◌ (copy_in-below xs (update f base x) (base + 1) base (omega arith) ∙ ground arith)
        (copy_out-copy_in xs (update f base x) (base + 1))

module _ {ℓ} {A : Type ℓ} (f : ℕ → A) (k : ℕ) (v : A) where
  pub update_self : update f k v k ≡ v
  update_self = ground arith

  pub update-ne : (a : ℕ) → k ≢ a → update f k v a ≡ f a
  update-ne a ne = ground arith
