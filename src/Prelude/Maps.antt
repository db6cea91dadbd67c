-- ===== src/Prelude/Maps.antt =====
-- Go maps as association lists with one entry for a key, over any key with a test for equality.
use Prim.Native.String.{String}
use Prim.Native.Nat.{suc, ◌≤◌}
use text.Mathlib.Text.{◌==◌}
use text.Mathlib.TextEquality.{eq_iff}
use mathlib.Core.Path.{◌≡◌, refl, sym, ◌∙◌, ap}
use mathlib.Core.Logic.{◌↔◌, inl, inr}
use mathlib.Core.Bool.{Bool, true, false}
use mathlib.Core.Option.{Option, none, some}
use mathlib.Core.List.{List, [], ◌∷◌}
use native.Mathlib.Omega.{arith}
use hexmagnet.Prelude.Lists.{length}
use hexmagnet.Prelude.Tests.{if◌then◌else◌, Bool-cases}

pub record Eq {ℓ} (A : Type ℓ) : Type ℓ where
  pub beq : A → A → Bool
  pub beq_iff : (a b : A) → (beq a b ≡ true) ↔ (a ≡ b)

instance abbrev pub string_eq : Eq String
string_eq = record { beq = ◌==◌; beq_iff = eq_iff }

module _ {ℓ} {K : Type ℓ} ⦃e : Eq K⦄ where
  pub beq_self : (a : K) → e.beq a a ≡ true
  beq_self a = (e.beq_iff a a).1 refl

  -- Tests with a key that equals another.
  pub beq_same : (a b c : K) → e.beq a b ≡ true → e.beq a c ≡ e.beq b c
  beq_same a b c h = ap (λ x. e.beq x c) ((e.beq_iff a b).0 h)

  pub beq_sym : (a b : K) → e.beq a b ≡ e.beq b a
  beq_sym a b = elim (Bool-cases (e.beq a b)) [
    | inl h ↦ h ∙ sym ((e.beq_iff b a).1 (sym ((e.beq_iff a b).0 h)))
    | inr h ↦ elim (Bool-cases (e.beq b a)) [
      | inr k ↦ h ∙ sym k
      | inl k ↦ absurd (clash h ((e.beq_iff a b).1 (sym ((e.beq_iff b a).0 k))))
    ]
  ]
    where
      clash : {b : Bool} → b ≡ false → b ≡ true → ⊥
      clash p q = cc

module _ {ℓ κ} {K : Type ℓ} {V : Type κ} ⦃e : Eq K⦄ where
  unfoldable pub lookup : K → List (K × V) → Option V
  lookup k [] = none
  lookup k ((j, v) ∷ m) = if e.beq j k then some v else lookup k m

  unfoldable pub insert : K → V → List (K × V) → List (K × V)
  insert k v [] = (k, v) ∷ []
  insert k v ((j, w) ∷ m) = if e.beq j k then (j, v) ∷ m else (j, w) ∷ insert k v m

  unfoldable pub delete : K → List (K × V) → List (K × V)
  delete k [] = []
  delete k ((j, w) ∷ m) = let rest = delete k m in if e.beq j k then rest else (j, w) ∷ rest

  pub lookup-insert :
      (k j : K) (v : V) (m : List (K × V))
      → lookup j (insert k v m) ≡ (if e.beq k j then some v else lookup j m)
  unfolding lookup insert
  lookup-insert k j v [] = refl
  lookup-insert k j v ((i, w) ∷ m) = elim (Bool-cases (e.beq i k)) [
    | inl h ↦ rw (h, beq_same i k j h) (ground arith)
    | inr h ↦ rw h (
        rw (lookup-insert k j v m) (elim (Bool-cases (e.beq i j)) [
          | inr g ↦ rw g
          | inl g ↦ rw (g, beq_sym k j, sym (beq_same i j k g), h)
        ]))
  ]

  pub lookup-delete :
      (k j : K) (m : List (K × V))
      → lookup j (delete k m) ≡ (if e.beq k j then none else lookup j m)
  unfolding lookup delete
  lookup-delete k j [] = ground arith
  lookup-delete k j ((i, w) ∷ m) = elim (Bool-cases (e.beq i k)) [
    | inl h ↦ rw (h, beq_same i k j h) (rw (lookup-delete k j m) (ground arith))
    | inr h ↦ rw h (
        rw (lookup-delete k j m) (elim (Bool-cases (e.beq i j)) [
          | inr g ↦ rw g
          | inl g ↦ rw (g, beq_sym k j, sym (beq_same i j k g), h)
        ]))
  ]

  -- Deleting a key that is there makes the map smaller.
  pub length-delete :
      (k : K) (v : V) (m : List (K × V))
      → lookup k m ≡ some v
      → suc (length (delete k m)) ≤ length m
  unfolding lookup delete
  length-delete k v [] h = cc
  length-delete k v ((i, w) ∷ m) h = elim (Bool-cases (e.beq i k)) [
    | inl g ↦ rw g (omega (arith, length-delete_le k m))
    | inr g ↦ rw g (omega (arith, length-delete k v m (rw g at h)))
  ]
    where
      length-delete_le : (k : K) (m : List (K × V)) → length (delete k m) ≤ length m
      length-delete_le k [] = omega arith
      length-delete_le k ((i, w) ∷ m) = ground (arith, length-delete_le k m)

  -- Each key has one entry.
  abbrev pub Distinct : List (K × V) → Type κ
  Distinct [] = Unit
  Distinct ((k, v) ∷ m) = (lookup k m ≡ none) × Distinct m

  -- `order` lists each entry of `m` once: what Go promises of an iteration over a map.
  pub record Visits (order m : List (K × V)) : Type (ℓ ⊔ κ) where
    pub distinct : Distinct order
    pub number : length order ≡ length m
    pub same : (k : K) → lookup k order ≡ lookup k m

  -- A new key makes the map longer.
  pub length-insert :
      (k : K) (v : V) (m : List (K × V))
      → lookup k m ≡ none
      → length (insert k v m) ≡ suc (length m)
  unfolding lookup insert
  length-insert k v [] h = refl
  length-insert k v ((i, w) ∷ m) h = elim (Bool-cases (e.beq i k)) [
    | inl g ↦ absurd (clash (rw g at h))
    | inr g ↦ rw g (ap suc (length-insert k v m (rw g at h)))
  ]
    where
      clash : some w ≡ none → ⊥
      clash p = cc

  pub insert-Distinct : (k : K) (v : V) (m : List (K × V)) → Distinct m → Distinct (insert k v m)
  unfolding lookup insert
  insert-Distinct k v [] d = (refl, tt)
  insert-Distinct k v ((i, w) ∷ m) d = elim (Bool-cases (e.beq i k)) [
    | inl g ↦ rw g (d.0, d.1)
    | inr g ↦ rw g (lookup-insert k i v m ∙ rw (beq_sym k i, g) d.0, insert-Distinct k v m d.1)
  ]

  pub delete-Distinct : (k : K) (m : List (K × V)) → Distinct m → Distinct (delete k m)
  unfolding lookup delete
  delete-Distinct k [] d = tt
  delete-Distinct k ((i, w) ∷ m) d = elim (Bool-cases (e.beq i k)) [
    | inl g ↦ rw g (delete-Distinct k m d.1)
    | inr g ↦ rw g (lookup-delete k i m ∙ rw (beq_sym k i, g) d.0, delete-Distinct k m d.1)
  ]
