-- ===== src/Classifier/Source/Lookups.antt =====
-- internal/classifier: what is found in a map after the loops of a merge.
use Prim.Native.String.{String}
use hexmagnet.Prelude.{
  ◌≡◌, refl, sym, subst, eq_iff, ap, true, if◌then◌else◌, Bool-cases, Option-cases, inl, inr, List,
  [], ◌∷◌, Option, none, some, lookup, insert, lookup-insert, Distinct, string_eq, str_eq,
}
use hexmagnet.Classifier.{or_else}
use hexmagnet.Classifier.Source.{add_missing, set_all, extend, map_option}

abbrev pub joined : Option (List String) → Option (List String) → Option (List String)
joined none b = b
joined (some a) b = some (extend b a)

module _ {A : Type 0} where
  pub moved :
      (k j : String) (m : List (String × A)) (o : Option A)
      → str_eq k j ≡ true
      → lookup k m ≡ o
      → lookup j m ≡ o
  moved k j m o h e = subst (λ x. lookup x m ≡ o) ((eq_iff k j).0 h) e

  pub lookup-add_missing :
      (j : String) (result m : List (String × A))
      → lookup j (add_missing result m) ≡ or_else (lookup j result) (lookup j m)
  unfolding add_missing lookup
  lookup-add_missing j result [] = sym (or_else-none (lookup j result))
    where
      or_else-none : (o : Option A) → or_else o none ≡ o
      or_else-none none = refl
      or_else-none (some a) = refl
  lookup-add_missing j result ((k, v) ∷ m) = elim (Option-cases (lookup k result)) [
    | inl e ↦ rw e (
        rw (lookup-add_missing j (insert k v result) m) (rw (lookup-insert k j v result) (fresh e)))
    | inr (w, e) ↦ rw e (rw (lookup-add_missing j result m) (there w e))
  ]
    where
      fresh :
          lookup k result ≡ none
          → or_else (if str_eq k j then some v else lookup j result) (lookup j m)
            ≡ or_else (lookup j result) (if str_eq k j then some v else lookup j m)
      fresh e = elim (Bool-cases (str_eq k j)) [
        | inl h ↦ rw h (rw (moved k j result none h e) refl)
        | inr h ↦ rw h refl
      ]

      there :
          (w : A)
          → lookup k result ≡ some w
          → or_else (lookup j result) (lookup j m)
            ≡ or_else (lookup j result) (if str_eq k j then some v else lookup j m)
      there w e = elim (Bool-cases (str_eq k j)) [
        | inl h ↦ rw h (rw (moved k j result (some w) h e) refl)
        | inr h ↦ rw h refl
      ]

  pub lookup-set_all :
      (f : String → A → A) (j : String) (result m : List (String × A))
      → Distinct m
      → lookup j (set_all f result m) ≡ or_else (map_option (f j) (lookup j m)) (lookup j result)
  unfolding set_all lookup
  lookup-set_all f j result [] d = refl
  lookup-set_all f j result ((k, v) ∷ m) d =
      rw (lookup-set_all f j (insert k (f k v) result) m d.1) (
        rw (lookup-insert k j (f k v) result) (elim (Bool-cases (str_eq k j)) [
          | inl h ↦ rw h (rw (moved k j m none h d.0) (ap (λ x. some (f x v)) ((eq_iff k j).0 h)))
          | inr h ↦ rw h refl
        ]))
