-- ===== src/Torznab.antt =====
-- internal/torznab/categories.go: Newznab categories against content types, the `cat` parameter, and
-- the allow-list. Go's `int` is ℤ, where no operation of this file overflows; `strconv.Atoi` is the
-- parameter `atoi`, and a string is the list of its bytes.
pub mod Parse
mod Examples
use hexmagnet.Prelude.{
  ℤ, pos, negsuc, ℕ, ◌+◌, ◌-◌, ◌/◌, ◌%◌, ◌≡◌, refl, Bool, true, false, ◌&&◌, ◌||◌, ◌==◌,
  if◌then◌else◌, List, [], ◌∷◌, ◌++◌, Option, none, some, ◌>>=◌, arith,
}

pub data ContentType : Type 0 where
  movie tv_show music ebook comic audiobook game software adult other unknown : ContentType

abbrev pub console_category : ℕ
console_category = 1000

abbrev pub movies_category : ℕ
movies_category = 2000

abbrev pub audio_category : ℕ
audio_category = 3000

abbrev pub software_category : ℕ
software_category = 4000

abbrev pub tv_category : ℕ
tv_category = 5000

abbrev pub xxx_category : ℕ
xxx_category = 6000

abbrev pub books_category : ℕ
books_category = 7000

abbrev pub other_category : ℕ
other_category = 8000

abbrev pub comics_category : ℕ
comics_category = 7020

abbrev pub audiobook_category : ℕ
audiobook_category = 7030

abbrev pub category_for_content_type : ContentType → ℕ
category_for_content_type movie = movies_category
category_for_content_type tv_show = tv_category
category_for_content_type music = audio_category
category_for_content_type ebook = books_category
category_for_content_type comic = comics_category
category_for_content_type audiobook = audiobook_category
category_for_content_type game = console_category
category_for_content_type software = software_category
category_for_content_type adult = xxx_category
category_for_content_type other = other_category
category_for_content_type unknown = other_category

-- A category of thousands `k` below 10: the cases of `switch cat / 1000`.
unfoldable pub content_types_for_natural : ℕ → ℕ → List ContentType
content_types_for_natural k cat =
    if k == 1
    then game ∷ []
    else if k == 2
    then movie ∷ []
    else if k == 3
    then music ∷ []
    else if k == 4
    then software ∷ []
    else if k == 5
    then tv_show ∷ []
    else if k == 6
    then adult ∷ []
    else if k == 7
    then (if cat == comics_category
        then comic ∷ []
        else if cat == audiobook_category
        then audiobook ∷ []
        else ebook ∷ [])
    else other ∷ unknown ∷ []

-- Go's division truncates, so a negative category has no positive thousands.
unfoldable pub content_types_for_category : ℤ → List ContentType
unfolding content_types_for_natural
content_types_for_category (pos cat) = content_types_for_natural (cat / 1000) cat
content_types_for_category (negsuc n) = other ∷ unknown ∷ []

-- `splitCSV`, where `current` is `s[start:i]`; 44 is the comma.
unfoldable pub part : List ℕ → List (List ℕ)
part [] = []
part (c ∷ s) = (c ∷ s) ∷ []

unfoldable pub split_from : List ℕ → List ℕ → List (List ℕ)
unfolding part
split_from current [] = part current
split_from current (c ∷ s) = elim (c == 44) [
  | true ↦ part current ++ split_from [] s
  | false ↦ split_from (current ++ c ∷ []) s
]

unfoldable pub split_csv : List ℕ → List (List ℕ)
split_csv s = split_from [] s

-- Content types as keys of the map `seen`.
abbrev pub tag : ContentType → ℕ
tag movie = 0
tag tv_show = 1
tag music = 2
tag ebook = 3
tag comic = 4
tag audiobook = 5
tag game = 6
tag software = 7
tag adult = 8
tag other = 9
tag unknown = 10

abbrev pub same_type : ContentType → ContentType → Bool
same_type a b = tag a == tag b

abbrev pub has_type : ContentType → List ContentType → Bool
has_type ct [] = false
has_type ct (c ∷ cs) = same_type c ct || has_type ct cs

-- The inner loop; `seen` holds the members of `types`, which stand for both here.
unfoldable pub add_types : List ContentType → List ContentType → List ContentType
add_types [] types = types
add_types (ct ∷ cts) types = add_types cts (if has_type ct types then types else types ++ ct ∷ [])

module _ (atoi : List ℕ → Option ℤ) where
  unfoldable pub parse_parts : List (List ℕ) → List ContentType → Option (List ContentType)
  unfolding add_types content_types_for_category
  parse_parts [] types = some types
  parse_parts (p ∷ ps) types =
      atoi p >>= λ cat. parse_parts ps (add_types (content_types_for_category cat) types)

  -- `none` is the error for a part that is no number.
  unfoldable pub parse_categories : List ℕ → Option (List ContentType)
  unfolding parse_parts split_csv
  parse_categories s = elim s [ [] ↦ some [] | c ∷ rest ↦ parse_parts (split_csv (c ∷ rest)) [] ]

-- `parsed / 1000` and `parsed % 1000 == 0`, truncating.
abbrev pub thousands : ℤ → ℤ
thousands (pos n) = pos (n / 1000)
thousands (negsuc n) = let q = (n + 1) / 1000 in if q == 0 then pos 0 else negsuc (q - 1)

abbrev pub is_base : ℤ → Bool
is_base (pos n) = n % 1000 == 0
is_base (negsuc n) = (n + 1) % 1000 == 0

abbrev pub same_int : ℤ → ℤ → Bool
same_int (pos a) (pos b) = a == b
same_int (negsuc a) (negsuc b) = a == b
same_int (pos a) (negsuc b) = false
same_int (negsuc a) (pos b) = false

-- `c == "*"`
abbrev pub is_star : List ℕ → Bool
is_star [] = false
is_star (c ∷ []) = c == 42
is_star (c ∷ d ∷ s) = false

abbrev pub permits : Option ℤ → ℤ → Bool
permits none category = false
permits (some parsed) category =
    same_int parsed category || (is_base parsed && same_int (thousands parsed) (thousands category))

unfoldable pub allowed_categories : (List ℕ → Option ℤ) → List (List ℕ) → ℤ → Bool
allowed_categories atoi [] category = false
allowed_categories atoi (c ∷ cs) category =
    if is_star c
    then true
    else if permits (atoi c) category
    then true
    else allowed_categories atoi cs category
