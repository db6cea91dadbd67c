-- ===== src/Torznab/Parse.antt =====
-- internal/torznab/categories.go: the parts of a list, the content types that a parameter asks for,
-- and the way from a content type to its category and back.
use hexmagnet.Prelude.{
  ℤ, pos, ℕ, ◌+◌, ◌≡◌, refl, sym, ap, ◌∙◌, Bool, true, false, ◌==◌, ==_iff, if◌then◌else◌,
  Bool-cases, Option-cases, List, [], ◌∷◌, ◌++◌, Option, none, some, arith, min, inl, inr, ◌≤◌,
}
use mathlib.Core.Option.{some-injective}
use hexmagnet.Torznab.{
  ContentType, movie, tv_show, music, ebook, comic, audiobook, game, software, adult, other,
  unknown, category_for_content_type, content_types_for_category, content_types_for_natural, part,
  split_from, split_csv, tag, same_type, has_type, add_types, parse_parts, parse_categories,
}

append_assoc : (xs ys zs : List (List ℕ)) → (xs ++ ys) ++ zs ≡ xs ++ (ys ++ zs)
append_assoc [] ys zs = refl
append_assoc (x ∷ xs) ys zs = ap (λ t. x ∷ t) (append_assoc xs ys zs)

split_from-comma :
    (current a b : List ℕ) → split_from current (a ++ 44 ∷ b) ≡ split_from current a ++ split_csv b
unfolding split_from split_csv
split_from-comma current [] b = refl
split_from-comma current (c ∷ a) b = elim (Bool-cases (c == 44)) [
  | inl h ↦
      rw (split_from, h)
        (rw (split_from-comma [] a b)
          (sym (append_assoc (part current) (split_from [] a) (split_csv b))))
  | inr h ↦ rw (split_from, h) (split_from-comma (current ++ c ∷ []) a b)
]

-- The parts of two texts with a comma between them are the parts of the first followed by those of
-- the second.
pub split_csv-comma : (a b : List ℕ) → split_csv (a ++ 44 ∷ b) ≡ split_csv a ++ split_csv b
unfolding split_csv
split_csv-comma a b = split_from-comma [] a b

-- The category that is given for a content type stands for that content type.
pub has_type-category :
    (ct : ContentType)
    → has_type ct (content_types_for_category (pos (category_for_content_type ct))) ≡ true
unfolding content_types_for_category content_types_for_natural
has_type-category movie = refl
has_type-category tv_show = refl
has_type-category music = refl
has_type-category ebook = refl
has_type-category comic = refl
has_type-category audiobook = refl
has_type-category game = refl
has_type-category software = refl
has_type-category adult = refl
has_type-category other = refl
has_type-category unknown = refl

-- How often a content type stands in a list.
pub count_type : ContentType → List ContentType → ℕ
count_type ct [] = 0
count_type ct (c ∷ cs) = (if same_type c ct then 1 else 0) + count_type ct cs

count_type-append :
    (ct : ContentType) (xs ys : List ContentType)
    → count_type ct (xs ++ ys) ≡ count_type ct xs + count_type ct ys
unfolding count_type
count_type-append ct [] ys = omega arith
count_type-append ct (x ∷ xs) ys = omega (arith, count_type-append ct xs ys)

count_type-has :
    (ct : ContentType) (xs : List ContentType)
    → count_type ct xs ≤ 1
    → count_type ct xs ≡ (if has_type ct xs then 1 else 0)
unfolding count_type
count_type-has ct [] h = refl
count_type-has ct (x ∷ xs) h = elim (Bool-cases (same_type x ct)) [
  | inl e ↦ rw e (omega (arith, rw e at h))
  | inr e ↦ rw e (omega (arith, count_type-has ct xs (omega (arith, rw e at h))))
]

-- A list of numbers with what each asks for, however often.
pub asked : (List ℕ → Option ℤ) → ContentType → List (List ℕ) → ℕ
asked atoi ct [] = 0
asked atoi ct (p ∷ ps) = elim (atoi p) [
  | none ↦ asked atoi ct ps
  | some cat ↦ count_type ct (content_types_for_category cat) + asked atoi ct ps
]

has_type-same :
    (a b : ContentType) (xs : List ContentType)
    → same_type a b ≡ true
    → has_type a xs ≡ has_type b xs
has_type-same a b [] h = refl
has_type-same a b (x ∷ xs) h =
    let e = (==_iff (tag a) (tag b)).0 h in rw (ap (λ t. tag x == t) e, has_type-same a b xs h)

AtMostOnce : List ContentType → Type 0
AtMostOnce types = (ct : ContentType) → count_type ct types ≤ 1

-- One turn of the loop over the types of a category.
count_type-step :
    (ct x : ContentType) (types : List ContentType)
    → AtMostOnce types
    → count_type ct (if has_type x types then types else types ++ x ∷ [])
      ≡ min 1 (count_type ct types + (if same_type x ct then 1 else 0))
unfolding AtMostOnce count_type
count_type-step ct x types h = elim (Bool-cases (has_type x types)) [
  | inl e ↦ elim (Bool-cases (same_type x ct)) [
    | inl f ↦
        rw (e, f)
          (omega (
            arith,
            count_type-has ct types (h ct),
            ap {B = ℕ} (λ b. if b then 1 else 0) (sym (has_type-same x ct types f) ∙ e),
          ))
    | inr f ↦ rw (e, f) (omega (arith, h ct))
  ]
  | inr e ↦ elim (Bool-cases (same_type x ct)) [
    | inl f ↦
        rw (e, f)
          (omega (
            arith,
            count_type-append ct types (x ∷ []),
            ap {B = ℕ} (λ b. if b then 1 else 0) f,
            count_type-has ct types (h ct),
            ap {B = ℕ} (λ b. if b then 1 else 0) (sym (has_type-same x ct types f) ∙ e),
          ))
    | inr f ↦
        rw (e, f)
          (omega (
            arith,
            h ct,
            count_type-append ct types (x ∷ []),
            ap {B = ℕ} (λ b. if b then 1 else 0) f,
          ))
  ]
]

count_type-add_types :
    (ct : ContentType) (cts types : List ContentType)
    → AtMostOnce types
    → count_type ct (add_types cts types) ≡ min 1 (count_type ct types + count_type ct cts)
unfolding add_types AtMostOnce count_type
count_type-add_types ct [] types h = omega (arith, h ct)
count_type-add_types ct (x ∷ cts) types h = omega (
  arith,
  count_type-add_types ct cts (if has_type x types then types else types ++ x ∷ [])
      (λ c. omega (arith, count_type-step c x types h)),
  count_type-step ct x types h,
)

count_type-parse_parts :
    (atoi : List ℕ → Option ℤ) (ct : ContentType) (ps : List (List ℕ))
    (types found : List ContentType)
    → AtMostOnce types
    → parse_parts atoi ps types ≡ some found
    → count_type ct found ≡ min 1 (count_type ct types + asked atoi ct ps)
unfolding parse_parts asked AtMostOnce
count_type-parse_parts atoi ct [] types found h e =
    omega (arith, h ct, ap (count_type ct) (some-injective types found e))
count_type-parse_parts atoi ct (p ∷ ps) types found h e = elim (Option-cases (atoi p)) [
  | inl g ↦ absurd (clash (rw g at e))
  | inr (cat, g) ↦
      rw (asked, g)
        (let added = add_types (content_types_for_category cat) types in
          omega (
            arith,
            count_type-parse_parts atoi ct ps added found
                (λ c.
                  omega (arith, count_type-add_types c (content_types_for_category cat) types h))
                (rw g at e),
            count_type-add_types ct (content_types_for_category cat) types h,
          ))
]
  where
    clash : none ≡ some found → ⊥
    clash q = cc

-- Every part is a number.
abbrev pub all_numbers : (List ℕ → Option ℤ) → List (List ℕ) → Bool
all_numbers atoi [] = true
all_numbers atoi (p ∷ ps) = elim (atoi p) [ none ↦ false | some cat ↦ all_numbers atoi ps ]

parse_parts_returns :
    (atoi : List ℕ → Option ℤ) (ps : List (List ℕ)) (types : List ContentType)
    → all_numbers atoi ps ≡ true
    → (found : List ContentType) × (parse_parts atoi ps types ≡ some found)
unfolding parse_parts
parse_parts_returns atoi [] types h = (types, refl)
parse_parts_returns atoi (p ∷ ps) types h = elim (Option-cases (atoi p)) [
  | inl g ↦ absurd (clash (rw (all_numbers, g) at h))
  | inr (cat, g) ↦ rw g (
      parse_parts_returns atoi ps (add_types (content_types_for_category cat) types)
        (rw (all_numbers, g) at h))
]
  where
    clash : false ≡ true → ⊥
    clash q = cc

found_asked :
    (atoi : List ℕ → Option ℤ) (s : List ℕ) (found : List ContentType)
    → parse_categories atoi s ≡ some found
    → (ct : ContentType) → count_type ct found ≡ min 1 (asked atoi ct (split_csv s))
unfolding parse_categories parse_parts split_csv AtMostOnce asked count_type split_from
found_asked atoi [] found e ct = omega (arith, ap (count_type ct) (some-injective [] found e))
found_asked atoi (c ∷ s) found e ct =
    omega (arith, count_type-parse_parts atoi ct (split_csv (c ∷ s)) [] found (λ x. omega arith) e)

categories_return :
    (atoi : List ℕ → Option ℤ) (s : List ℕ)
    → all_numbers atoi (split_csv s) ≡ true
    → (found : List ContentType) × (parse_categories atoi s ≡ some found)
unfolding parse_categories
categories_return atoi [] h = ([], refl)
categories_return atoi (c ∷ s) h = parse_parts_returns atoi (split_csv (c ∷ s)) [] h

-- If every part of the parameter is a number, parsing it returns a list with each content type
-- once that belongs to the category of some part, and no other.
pub parse_categories-asked :
    (atoi : List ℕ → Option ℤ) (s : List ℕ)
    → all_numbers atoi (split_csv s) ≡ true
    → (found : List ContentType) × (parse_categories atoi s ≡ some found)
      × ((ct : ContentType) → count_type ct found ≡ min 1 (asked atoi ct (split_csv s)))
parse_categories-asked atoi s h =
    let r = categories_return atoi s h in (r.0, r.1, found_asked atoi s r.0 r.1)
