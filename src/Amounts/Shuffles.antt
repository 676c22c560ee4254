-- ===== src/Amounts/Shuffles.antt =====
-- Sums, tests and steps under a permutation.
use mathlib.Core.List.{Permᴰ}
use bewallet.Common.{ℕ, ◌≡◌, refl, ◌∙◌, subst, Bool, List, [], ◌∷◌, any, arith}
use bewallet.Outcome.{Outcome, ok, traverse, traverse-cons}
use bewallet.Amounts.{total}

pub total-Permᴰ : (a : ℕ) {xs ys : List (ℕ × ℕ)} → Permᴰ xs ys → total a xs ≡ total a ys
unfolding total
total-Permᴰ a Permᴰ.nil = refl
total-Permᴰ a (Permᴰ.cons {a = x} {b = y} {l₁ = xs} {l₂ = ys} e p) = rw (e, total-Permᴰ a p) refl
total-Permᴰ a (Permᴰ.swap {a = x} {b = y} {a' = z} {b' = w} {l = l} e f) = rw (e, f) (omega arith)
total-Permᴰ a (Permᴰ.trans p q) = total-Permᴰ a p ∙ total-Permᴰ a q

module _ {A : Type 0} where
  pub any-Permᴰ : (f : A → Bool) {xs ys : List A} → Permᴰ xs ys → any f xs ≡ any f ys
  any-Permᴰ f Permᴰ.nil = refl
  any-Permᴰ f (Permᴰ.cons e p) = rw (e, any-Permᴰ f p) refl
  any-Permᴰ f (Permᴰ.swap {a' = z} {b' = w} e g) = rw (e, g) (ground (arith))
  any-Permᴰ f (Permᴰ.trans p q) = any-Permᴰ f p ∙ any-Permᴰ f q

  pub traverse-Permᴰ :
      {B : Type 0} (f : A → Outcome B) {xs ys : List A} {zs : List B}
      → Permᴰ xs ys
      → traverse f xs ≡ ok zs
      → (ws : List B) × (traverse f ys ≡ ok ws) × Permᴰ zs ws
  traverse-Permᴰ f {zs = zs} Permᴰ.nil h =
      let e : [] ≡ zs = cc in ([], refl, subst (λ l. Permᴰ l []) e Permᴰ.nil)
  traverse-Permᴰ f {zs = zs} (Permᴰ.cons {a = x} {b = y} {l₁ = xs} e p) h =
      let (z, us, fx, run, same) = traverse-cons f x xs h in
      let (ws, run', p') = traverse-Permᴰ f p run in
      (z ∷ ws, rw (← e, fx, run') refl, rw same (Permᴰ.cons refl p'))
  traverse-Permᴰ f {zs = zs} (Permᴰ.swap {a = x} {b = y} {l = xs} e g) h =
      let (z, us, fx, run, same) = traverse-cons f x (y ∷ xs) h in
      let (w, vs, fy, run', same') = traverse-cons f y xs run in
      (w ∷ z ∷ vs, rw (← g, ← e, fy, fx, run') refl, rw (same, same') (Permᴰ.swap refl refl))
  traverse-Permᴰ f (Permᴰ.trans p q) h =
      let (us, run, p') = traverse-Permᴰ f p h in
      let (ws, run', q') = traverse-Permᴰ f q run in (ws, run', Permᴰ.trans p' q')
