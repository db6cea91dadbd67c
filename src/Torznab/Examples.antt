-- ===== src/Torznab/Examples.antt =====
-- The theorems on categories at concrete inputs.
use hexmagnet.Prelude.{
  ℤ, pos, ℕ, ◌≡◌, refl, min, ◌==◌, if◌then◌else◌, true, List, [], ◌∷◌, Option, none, some,
}
use hexmagnet.Torznab.{ContentType, split_csv, split_from, part, parse_categories}
use hexmagnet.Torznab.Parse.{count_type, asked, all_numbers, parse_categories-asked}

-- A reader of numbers that takes a 2 for category 2000 and everything else for 7020.
abbrev read_number : List ℕ → Option ℤ
read_number [] = none
read_number (c ∷ s) = if c == 50 then some (pos 2000) else some (pos 7020)

-- "2,3,2"
abbrev parameter : List ℕ
parameter = 50 ∷ 44 ∷ 51 ∷ 44 ∷ 50 ∷ []

parts_read : all_numbers read_number (split_csv parameter) ≡ true
unfolding split_csv split_from part
parts_read = refl

parse_categories-asked_example :
    (found : List ContentType) × (parse_categories read_number parameter ≡ some found)
    × ((ct : ContentType)
        → count_type ct found ≡ min 1 (asked read_number ct (split_csv parameter)))
parse_categories-asked_example = parse_categories-asked read_number parameter parts_read
