-- ===== src/Classifier/Source/Merge.antt =====
-- internal/classifier: what is found in merged sources.
use Prim.Native.String.{String}
use hexmagnet.Prelude.{
  ◌⊎◌, ◌≡◌, refl, sym, subst, eq_iff, ◌∙◌, Bool, true, false, if◌then◌else◌, Bool-cases, inl, inr,
  List, [], ◌∷◌, Option, none, some, lookup, insert, Distinct, string_eq, str_eq, beq_self,
}
use hexmagnet.Classifier.{or_else}
use hexmagnet.Classifier.Payload.{Value}
use hexmagnet.Classifier.Source.{
  FlagType, RawFlags, FlagDefinitions, Groups, Source, add_missing, set_all, override, extend,
  merge_flags, merge_groups, conflicts, same_flag_type, definitions_first, map_option,
  merge_definitions, merge_workflows, merge_sources,
}
use hexmagnet.Classifier.Source.Lookups.{joined, moved, lookup-add_missing, lookup-set_all}

-- Two flags that are defined with different types.
pub record Conflict (a b : FlagDefinitions) : Type 0 where
  pub flag : String
  pub first : FlagType
  pub second : FlagType
  pub in_first : lookup flag a ≡ some first
  pub in_second : lookup flag b ≡ some second
  pub differ : same_flag_type second first ≡ false

-- What is found in merged sources: the workflows and the flags of the second before those of the
-- first, the definitions of both, and the words of both groups of a name.
pub record IsMerge (a b m : Source) : Type 0 where
  pub workflows :
      (k : String) → lookup k m.workflows ≡ or_else (lookup k b.workflows) (lookup k a.workflows)
  pub flags : (k : String) → lookup k m.flags ≡ or_else (lookup k b.flags) (lookup k a.flags)
  pub flag_definitions :
      (k : String)
      → lookup k m.flag_definitions
        ≡ or_else (lookup k a.flag_definitions) (lookup k b.flag_definitions)
  pub keywords :
      (k : String) → lookup k m.keywords ≡ joined (lookup k a.keywords) (lookup k b.keywords)
  pub extensions :
      (k : String) → lookup k m.extensions ≡ joined (lookup k a.extensions) (lookup k b.extensions)

lookup-merge_flags :
    (k : String) (a b : RawFlags)
    → Distinct a
    → lookup k (merge_flags a b) ≡ or_else (lookup k b) (lookup k a)
unfolding merge_flags lookup
lookup-merge_flags k a b d =
    lookup-add_missing k (set_all (λ k v. override (lookup k b) v) [] a) b
    ∙ rw (lookup-set_all (λ k v. override (lookup k b) v) k [] a d)
        (by_case (lookup k a) (lookup k b))
  where
    by_case :
        (x y : Option Value) → or_else (or_else (map_option (override y) x) none) y ≡ or_else y x
    by_case none none = refl
    by_case none (some y) = refl
    by_case (some x) none = refl
    by_case (some x) (some y) = refl

lookup-merge_groups :
    (k : String) (a b : Groups)
    → Distinct a
    → lookup k (merge_groups a b) ≡ joined (lookup k a) (lookup k b)
unfolding merge_groups lookup
lookup-merge_groups k a b d =
    lookup-add_missing k (set_all (λ k v. extend (lookup k b) v) [] a) b
    ∙ rw (lookup-set_all (λ k v. extend (lookup k b) v) k [] a d)
        (by_case (lookup k a) (lookup k b))
  where
    by_case :
        (x y : Option (List String))
        → or_else (or_else (map_option (extend y) x) none) y ≡ joined x y
    by_case none none = refl
    by_case none (some y) = refl
    by_case (some x) none = refl
    by_case (some x) (some y) = refl

lookup-merge_workflows :
    (k : String) (a b : List (String × Value))
    → Distinct a
    → Distinct b
    → lookup k (merge_workflows a b) ≡ or_else (lookup k b) (lookup k a)
unfolding merge_workflows lookup
lookup-merge_workflows k a b d d' =
    rw (lookup-set_all (λ k v. v) k (set_all (λ k v. v) [] a) b d')
      (rw (lookup-set_all (λ k v. v) k [] a d) (by_case (lookup k a) (lookup k b)))
  where
    by_case :
        (x y : Option Value)
        → or_else (map_option (λ v. v) y) (or_else (map_option (λ v. v) x) none) ≡ or_else y x
    by_case none none = refl
    by_case none (some y) = refl
    by_case (some x) none = refl
    by_case (some x) (some y) = refl

-- Taking over the definitions of the first ends with all of them, or at a conflict.
definitions_first_lem :
    (b result a : FlagDefinitions)
    → Distinct a
    → (definitions_first b result a ≡ some (set_all (λ k v. v) result a))
      ⊎ ((definitions_first b result a ≡ none) × Conflict a b)
unfolding definitions_first set_all lookup
definitions_first_lem b result [] d = inl refl
definitions_first_lem b result ((k, v) ∷ m) d =
    by_case (lookup k b) refl (definitions_first_lem b (insert k v result) m d.1)
  where
    later : Conflict m b → Conflict ((k, v) ∷ m) b
    later c = record {
      flag = c.flag;
      first = c.first;
      second = c.second;
      in_first = elim (Bool-cases (str_eq k c.flag)) [
        | inl h ↦ absurd (clash (sym (moved k c.flag m none h d.0) ∙ c.in_first))
        | inr h ↦ rw h c.in_first
      ];
      in_second = c.in_second;
      differ = c.differ;
    }
      where
        clash : none ≡ some c.first → ⊥
        clash e = cc

    rest :
        (definitions_first b (insert k v result) m
            ≡ some (set_all (λ k v. v) (insert k v result) m))
          ⊎ ((definitions_first b (insert k v result) m ≡ none) × Conflict m b)
        → (definitions_first b (insert k v result) m
            ≡ some (set_all (λ k v. v) (insert k v result) m))
          ⊎ ((definitions_first b (insert k v result) m ≡ none) × Conflict ((k, v) ∷ m) b)
    rest (inl e) = inl e
    rest (inr e) = inr (e.0, later e.1)

    by_case :
        (o : Option FlagType)
        → lookup k b ≡ o
        → (definitions_first b (insert k v result) m
            ≡ some (set_all (λ k v. v) (insert k v result) m))
          ⊎ ((definitions_first b (insert k v result) m ≡ none) × Conflict m b)
        → (definitions_first b result ((k, v) ∷ m) ≡ some (set_all (λ k v. v) result ((k, v) ∷ m)))
          ⊎ ((definitions_first b result ((k, v) ∷ m) ≡ none) × Conflict ((k, v) ∷ m) b)
    by_case none e r = rw e (rest r)
    by_case (some tp) e r = elim (Bool-cases (same_flag_type tp v)) [
      | inl h ↦ rw (e, h) (rest r)
      | inr h ↦
          rw (e, h)
            (inr (
              refl,
              record {
                flag = k;
                first = v;
                second = tp;
                in_first = rw (beq_self k) refl;
                in_second = e;
                differ = h;
              },
            ))
    ]

conflict-none :
    (b result a : FlagDefinitions) (k : String) (v tp : FlagType)
    → lookup k a ≡ some v
    → lookup k b ≡ some tp
    → same_flag_type tp v ≡ false
    → definitions_first b result a ≡ none
unfolding definitions_first lookup
conflict-none b result [] k v tp h e n = cc
conflict-none b result ((j, w) ∷ m) k v tp h e n = elim (Bool-cases (str_eq j k)) [
  | inl g ↦ rw (moved_back g) (rw (same w v (rw g at h)) (rw n refl))
  | inr g ↦
      rw (conflict-none b (insert j w result) m k v tp (rw g at h) e n)
        (either (conflicts w (lookup j b)))
]
  where
    moved_back : str_eq j k ≡ true → lookup j b ≡ some tp
    moved_back g = subst (λ x. lookup x b ≡ some tp) (sym ((eq_iff j k).0 g)) e

    same : (w v : FlagType) → some w ≡ some v → w ≡ v
    same w v e = cc

    nothing : Option FlagDefinitions
    nothing = none

    either : (x : Bool) → (if x then nothing else nothing) ≡ nothing
    either true = refl
    either false = refl

-- The maps of a source have one entry for each key.
pub record IsSource (a : Source) : Type 0 where
  pub workflows : Distinct a.workflows
  pub flags : Distinct a.flags
  pub flag_definitions : Distinct a.flag_definitions
  pub keywords : Distinct a.keywords
  pub extensions : Distinct a.extensions

abbrev merged : Source → Source → Source
merged a b = record {
  flag_definitions = add_missing (set_all (λ k v. v) [] a.flag_definitions) b.flag_definitions;
  flags = merge_flags a.flags b.flags;
  keywords = merge_groups a.keywords b.keywords;
  extensions = merge_groups a.extensions b.extensions;
  workflows = merge_workflows a.workflows b.workflows;
}

merged-IsMerge : (a b : Source) → IsSource a → IsSource b → IsMerge a b (merged a b)
unfolding lookup
merged-IsMerge a b d d' = record {
  workflows = λ k. lookup-merge_workflows k a.workflows b.workflows d.workflows d'.workflows;
  flags = λ k. lookup-merge_flags k a.flags b.flags d.flags;
  flag_definitions = λ k.
      lookup-add_missing k (set_all (λ k v. v) [] a.flag_definitions) b.flag_definitions
      ∙ rw (lookup-set_all (λ k v. v) k [] a.flag_definitions d.flag_definitions)
          (definitions (lookup k a.flag_definitions) (lookup k b.flag_definitions));
  keywords = λ k. lookup-merge_groups k a.keywords b.keywords d.keywords;
  extensions = λ k. lookup-merge_groups k a.extensions b.extensions d.extensions;
}
  where
    definitions :
        (x y : Option FlagType) → or_else (or_else (map_option (λ v. v) x) none) y ≡ or_else x y
    definitions none y = refl
    definitions (some x) y = refl

abbrev pub Merges : Source → Source → Type 0
Merges a b =
    ((m : Source) × (merge_sources a b ≡ some m)
      × IsMerge a b m
      × ¬ Conflict a.flag_definitions b.flag_definitions)
    ⊎ ((merge_sources a b ≡ none) × Conflict a.flag_definitions b.flag_definitions)

-- Sources whose maps have one entry for each key are merged unless a flag is defined with
-- different types in the two, which is an error: the flags and the workflows of the second come
-- before those of the first, the flags that either defines are defined, and the words of a group
-- are those of both, the first's before the second's.
pub merge_sources-Merges : (a b : Source) → IsSource a → IsSource b → Merges a b
unfolding merge_sources merge_definitions
merge_sources-Merges a b d d' =
    by_case (definitions_first_lem b.flag_definitions [] a.flag_definitions d.flag_definitions)
  where
    clash : (o : Option FlagDefinitions) (x : FlagDefinitions) → o ≡ some x → o ≡ none → ⊥
    clash o x p q = cc

    by_case :
        (definitions_first b.flag_definitions [] a.flag_definitions
            ≡ some (set_all (λ k v. v) [] a.flag_definitions))
          ⊎ ((definitions_first b.flag_definitions [] a.flag_definitions ≡ none)
              × Conflict a.flag_definitions b.flag_definitions)
        → Merges a b
    by_case (inl e) = inl (
      merged a b,
      rw e refl,
      merged-IsMerge a b d d',
      λ c. clash _ _ e (
          conflict-none b.flag_definitions [] a.flag_definitions c.flag c.first c.second c.in_first
            c.in_second c.differ),
    )
    by_case (inr e) = inr (rw (e.0) refl, e.1)
