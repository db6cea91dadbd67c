-- ===== src/Classifier/Source/Loop.antt =====
-- internal/classifier: what is found in a map after a loop that may fail.
use Prim.Native.String.{String}
use hexmagnet.Prelude.{
  ◌⊎◌, ◌≡◌, refl, sym, subst, ◌∙◌, eq_iff, Bool, true, false, Bool-cases, inl, inr, List, [], ◌∷◌,
  Option, none, some, lookup, insert, lookup-insert, Distinct, string_eq, str_eq, beq_self,
}
use hexmagnet.Classifier.{
  FlagValue, flag_bool, flag_string, flag_int, flag_strings, flag_content_types, Flags,
}
use hexmagnet.Classifier.Source.{
  FlagType, bool_flag, string_flag, int_flag, string_list_flag, content_type_list_flag, set_each,
}

abbrev pub has_type : FlagType → FlagValue → Bool
has_type bool_flag (flag_bool b) = true
has_type string_flag (flag_string s) = true
has_type int_flag (flag_int i) = true
has_type string_list_flag (flag_strings ss) = true
has_type content_type_list_flag (flag_content_types ns) = true
has_type _ _ = false

module _ {D : Type 0} (g : String → D → Option FlagValue) where
  -- What the loop has set for a key.
  pub record IsFilled (m : List (String × D)) (result f : Flags) : Type 0 where
    pub set :
        (k : String) (d : D)
        → lookup k m ≡ some d
        → (v : FlagValue) × (g k d ≡ some v) × (lookup k f ≡ some v)
    pub unset : (k : String) → lookup k m ≡ none → lookup k f ≡ lookup k result

  pub record Fails (m : List (String × D)) : Type 0 where
    pub flag : String
    pub definition : D
    pub found : lookup flag m ≡ some definition
    pub fails : g flag definition ≡ none

  pub set_each_lem :
      (result : Flags) (m : List (String × D))
      → Distinct m
      → ((f : Flags) × (set_each g result m ≡ some f) × IsFilled m result f)
        ⊎ ((set_each g result m ≡ none) × Fails m)
  unfolding set_each lookup
  set_each_lem result [] u = inl (result, refl, record { set = λ k d h. cc; unset = λ k h. refl })
  set_each_lem result ((k, d) ∷ m) u =
      by_case (g k d) refl (λ v. set_each_lem (insert k v result) m u.1)
    where
      moved : (j : String) → str_eq k j ≡ true → lookup j m ≡ none
      moved j p = subst (λ x. lookup x m ≡ none) ((eq_iff k j).0 p) u.0

      clash : {A : Type 0} (a : A) → some a ≡ none → ⊥
      clash a q = cc

      more :
          (v : FlagValue) (f : Flags)
          → g k d ≡ some v
          → IsFilled m (insert k v result) f
          → IsFilled ((k, d) ∷ m) result f
      more v f e s = record {
        set = λ j d' h. elim (Bool-cases (str_eq k j)) [
          | inl p ↦ (
            v,
            same j d' p (rw p at h) e,
            s.unset j (moved j p) ∙ (lookup-insert k j v result ∙ rw p refl),
          )
          | inr p ↦ s.set j d' (rw p at h)
        ];
        unset = λ j h. elim (Bool-cases (str_eq k j)) [
          | inl p ↦ absurd (clash d (rw p at h))
          | inr p ↦ s.unset j (rw p at h) ∙ (lookup-insert k j v result ∙ rw p refl)
        ];
      }
        where
          same :
              (j : String) (d' : D)
              → str_eq k j ≡ true
              → some d ≡ some d'
              → g k d ≡ some v
              → g j d' ≡ some v
          same j d' p q e = let r : k ≡ j = (eq_iff k j).0 p in let r' : d ≡ d' = cc in cc

      later : Fails m → Fails ((k, d) ∷ m)
      later w = record {
        flag = w.flag;
        definition = w.definition;
        found = elim (Bool-cases (str_eq k w.flag)) [
          | inl p ↦ absurd (clash w.definition (sym (w.found) ∙ moved w.flag p))
          | inr p ↦ rw p w.found
        ];
        fails = w.fails;
      }

      ended :
          (v : FlagValue)
          → g k d ≡ some v
          → ((f : Flags) × (set_each g (insert k v result) m ≡ some f)
              × IsFilled m (insert k v result) f)
            ⊎ ((set_each g (insert k v result) m ≡ none) × Fails m)
          → ((f : Flags) × (set_each g (insert k v result) m ≡ some f)
              × IsFilled ((k, d) ∷ m) result f)
            ⊎ ((set_each g (insert k v result) m ≡ none) × Fails ((k, d) ∷ m))
      ended v e (inl (f, p, s)) = inl (f, p, more v f e s)
      ended v e (inr (p, w)) = inr (p, later w)

      by_case :
          (o : Option FlagValue)
          → g k d ≡ o
          → ((v : FlagValue)
              → ((f : Flags) × (set_each g (insert k v result) m ≡ some f)
                  × IsFilled m (insert k v result) f)
                ⊎ ((set_each g (insert k v result) m ≡ none) × Fails m))
          → ((f : Flags) × (set_each g result ((k, d) ∷ m) ≡ some f)
              × IsFilled ((k, d) ∷ m) result f)
            ⊎ ((set_each g result ((k, d) ∷ m) ≡ none) × Fails ((k, d) ∷ m))
      by_case none e rest =
          rw e (
            inr
              (refl, record { flag = k; definition = d; found = rw (beq_self k) refl; fails = e }))
      by_case (some v) e rest = rw e (ended v e (rest v))
