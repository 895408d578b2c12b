-- ===== src/Driver/Loads.antt =====
-- linux/v4v.c: what a read through a pointer, and what follows it, gives when the pointer is good.
use legacy_v4v.Prelude.{
  ℕ, ◌≡◌, refl, sym, ap, subst, ◌∙◌, Option, none, some, List, [], ◌∷◌, ◌==◌, if◌then◌else◌,
  Bool-cases, inl, inr,
}
use mathlib.Core.Option.{some-injective}
use legacy_v4v.Driver.{
  Private, Ring, Driver, M, ◌>>=◌, load_private, load_ring, or_fault, lookup, replace,
}

module _ {B : Type 0} where
  pub load_private-bind :
      (a : ℕ) (f : Private → M B) (d : Driver) (p : Private)
      → d.privates a ≡ some p
      → (load_private a >>= f) d ≡ f p d
  load_private-bind a f d p e = ap (λ (o : Option Private). (or_fault o >>= f) d) e

  pub load_ring-bind :
      (a : ℕ) (f : Ring → M B) (d : Driver) (r : Ring)
      → lookup a d.ring_list ≡ some r
      → (load_ring a >>= f) d ≡ f r d
  load_ring-bind a f d r e = ap (λ (o : Option Ring). (or_fault o >>= f) d) e

pub bind_lem :
    {A B : Type 0} (m : M A) (f : A → M B) (d d' : Driver) (x : A)
    → m d ≡ some (x, d')
    → (m >>= f) d ≡ f x d'
bind_lem {A} {B} m f d d' x e =
    ap (λ (o : Option (A × Driver)). elim o [ none ↦ none | some (a, c) ↦ f a c ]) e

abbrev IsNone : Option Ring → Type 0
IsNone none = Unit
IsNone (some r) = ⊥

-- Rings by address.
pub lookup-replace :
    (a : ℕ) (s : Ring) (l : List (ℕ × Ring)) (r : Ring)
    → lookup a l ≡ some r
    → lookup a (replace a s l) ≡ some s
lookup-replace a s [] r e = absurd (subst IsNone e tt)
lookup-replace a s ((b, t) ∷ l) r e = elim (Bool-cases (b == a)) [
  | inl h ↦ rw h (rw h refl)
  | inr h ↦
      let e' : lookup a l ≡ some r = sym (ap (λ c. if c then some t else lookup a l) h) ∙ e in
      rw h (rw h (lookup-replace a s l r e'))
]

pub replace-lookup :
    (a : ℕ) (l : List (ℕ × Ring)) (r : Ring) → lookup a l ≡ some r → replace a r l ≡ l
replace-lookup a [] r e = refl
replace-lookup a ((b, t) ∷ l) r e = elim (Bool-cases (b == a)) [
  | inl h ↦
      let e' : some t ≡ some r = sym (ap (λ c. if c then some t else lookup a l) h) ∙ e in
      rw h (ap (λ x. (b, x) ∷ l) (sym (some-injective t r e')))
  | inr h ↦
      let e' : lookup a l ≡ some r = sym (ap (λ c. if c then some t else lookup a l) h) ∙ e in
      rw h (ap (◌∷◌ (b, t)) (replace-lookup a l r e'))
]

pub replace-replace :
    (a : ℕ) (r s : Ring) (l : List (ℕ × Ring)) → replace a r (replace a s l) ≡ replace a r l
replace-replace a r s [] = refl
replace-replace a r s ((b, t) ∷ l) = elim (Bool-cases (b == a)) [
  | inl h ↦ rw h (rw h refl)
  | inr h ↦ rw h (rw h (ap (◌∷◌ (b, t)) (replace-replace a r s l)))
]
