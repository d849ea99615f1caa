-- ===== src/Prelude/Perms.antt =====
-- Lists up to the order of their elements, and what does not depend on it.
use mathlib.Core.Path.{◌≡◌, refl, ap, ◌∙◌, subst, sym}
use mathlib.Core.Logic.{∥∥₁_elim, ∥∥₁_map}
use mathlib.Core.Bool.{Bool, true, false}
use mathlib.Core.List.{List, [], ◌∷◌, map, Permᴰ}
use mathlib.Core.List.Permᴰ
use Prim.Native.Nat.{ℕ}
use native.Mathlib.Nat.{ℕ_set}
use native.Mathlib.Omega.{arith}
use blueprint.Prelude.Tests.{if◌then◌else◌}
use blueprint.Prelude.Lists.{length, total}
use blueprint.Prelude.Strings.{keep}
pub use mathlib.Core.List.{Perm}

module _ {A : Type 0} where
  -- A sum does not depend on the order, and a length is a sum.
  sum_same : (f : A → ℕ) {us vs : List A} → Permᴰ us vs → total f us ≡ total f vs
  sum_same f Permᴰ.nil = refl
  sum_same f (Permᴰ.trans first second) = sum_same f first ∙ sum_same f second
  sum_same f (Permᴰ.swap {l = rest} e d) =
      let left = ap f e in let right = ap f d in omega (arith, left, right)
  sum_same f (Permᴰ.cons e tails) = let heads = ap f e in omega (arith, heads, sum_same f tails)

  length-total : (us : List A) → length us ≡ total (λ u. 1) us
  length-total [] = refl
  length-total (u ∷ us) = omega (arith, length-total us)

  pub length-perm : {us vs : List A} → Perm us vs → length us ≡ length vs
  length-perm {us} {vs} h =
      length-total us ∙ ∥∥₁_elim h (ℕ_set _ _) (sum_same (λ u. 1)) ∙ sym (length-total vs)

  abbrev push : Bool → A → List A → List A
  push b x xs = if b then x ∷ xs else xs

  push-push :
      (s t : Bool) (a b : A) (xs : List A) → Permᴰ (push s a (push t b xs)) (push t b (push s a xs))
  push-push true true a b xs = Permᴰ.swap refl refl
  push-push true false a b xs = Permᴰ.refl _
  push-push false true a b xs = Permᴰ.refl _
  push-push false false a b xs = Permᴰ.refl _

  push-Permᴰ : (s : Bool) (a : A) {xs ys : List A} → Permᴰ xs ys → Permᴰ (push s a xs) (push s a ys)
  push-Permᴰ true a h = Permᴰ.cons refl h
  push-Permᴰ false a h = h

  Permᴰ-keep : (p : A → Bool) {xs ys : List A} → Permᴰ xs ys → Permᴰ (keep p xs) (keep p ys)
  unfolding keep
  Permᴰ-keep p Permᴰ.nil = Permᴰ.nil
  Permᴰ-keep p (Permᴰ.cons {a = a} {l₁ = l} {l₂ = m} e h) =
      subst (λ c. Permᴰ (push (p a) a (keep p l)) (push (p c) c (keep p m))) e
        (push-Permᴰ (p a) a (Permᴰ-keep p h))
  Permᴰ-keep p (Permᴰ.swap {a = a} {b = b} {a' = a'} {b' = b'} {l = l} e f) =
      subst
        (λ c.
          Permᴰ (push (p a) a (push (p b) b (keep p l))) (push (p c) c (push (p b') b' (keep p l))))
        f
        (subst
          (λ d.
            Permᴰ (push (p a) a (push (p b) b (keep p l))) (push (p b) b (push (p d) d (keep p l))))
          e (push-push (p a) (p b) a b (keep p l)))
  Permᴰ-keep p (Permᴰ.trans g h) = Permᴰ.trans (Permᴰ-keep p g) (Permᴰ-keep p h)

  pub keep-perm : (p : A → Bool) {xs ys : List A} → Perm xs ys → Perm (keep p xs) (keep p ys)
  keep-perm p {xs} {ys} h = ∥∥₁_map {B = Permᴰ (keep p xs) (keep p ys)} h (Permᴰ-keep p)

  pub map-perm : {B : Type 0} (f : A → B) {xs ys : List A} → Perm xs ys → Perm (map f xs) (map f ys)
  map-perm f {xs} {ys} h = ∥∥₁_map {B = Permᴰ (map f xs) (map f ys)} h (Permᴰ.map f)
