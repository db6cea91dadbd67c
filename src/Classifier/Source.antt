-- ===== src/Classifier/Source.antt =====
-- internal/classifier/source.go and flag.go: how sources are merged, and the values of flags, as the
-- compiler (`Compile` of classifier.go) and a run (`Run` of runner.go) check them.
pub mod Lookups
pub mod Merge
pub mod Loop
pub mod FlagValues
use Prim.Native.String.{String}
use hexmagnet.Prelude.{
  ℕ, Bool, true, false, not, if◌then◌else◌, List, [], ◌∷◌, ◌++◌, Option, none, some, lookup, insert,
  string_eq, str_eq, ◌==◌,
}
use hexmagnet.Torznab.{
  ContentType, movie, tv_show, music, ebook, comic, audiobook, game, software, adult, other,
  unknown,
}
use hexmagnet.Classifier.{
  or_else, FlagValue, flag_bool, flag_string, flag_int, flag_strings, flag_content_types, flag_nil,
  Flags,
}
use hexmagnet.Classifier.Payload.{
  is_some, Value, null, boolean, integer, text, seq, object, items, Tools, parse_content_type,
}

pub data FlagType : Type 0 where
  bool_flag string_flag int_flag string_list_flag content_type_list_flag : FlagType

abbrev pub number : FlagType → ℕ
number bool_flag = 0
number string_flag = 1
number int_flag = 2
number string_list_flag = 3
number content_type_list_flag = 4

abbrev pub same_flag_type : FlagType → FlagType → Bool
same_flag_type a b = number a == number b

abbrev pub RawFlags : Type 0
RawFlags = List (String × Value)

abbrev pub FlagDefinitions : Type 0
FlagDefinitions = List (String × FlagType)

abbrev pub Groups : Type 0
Groups = List (String × List String)

pub record Source : Type 0 where
  pub workflows : List (String × Value)
  pub flag_definitions : FlagDefinitions
  pub flags : RawFlags
  pub keywords : Groups
  pub extensions : Groups

-- The entries of a map that are missing in the result.
unfoldable pub add_missing {ℓ} :
    {A : Type ℓ} → List (String × A) → List (String × A) → List (String × A)
add_missing result [] = result
add_missing result ((k, v) ∷ m) =
    add_missing (if is_some (lookup k result) then result else insert k v result) m

-- A loop over a map that sets a value for each key of it.
unfoldable pub set_all {ℓ} :
    {A : Type ℓ} → (String → A → A) → List (String × A) → List (String × A) → List (String × A)
set_all f result [] = result
set_all f result ((k, v) ∷ m) = set_all f (insert k (f k v) result) m

abbrev pub override {ℓ} : {A : Type ℓ} → Option A → A → A
override none v = v
override (some w) v = w

unfoldable pub merge_flags : RawFlags → RawFlags → RawFlags
merge_flags f others = add_missing (set_all (λ k v. override (lookup k others) v) [] f) others

abbrev pub extend : Option (List String) → List String → List String
extend none v = v
extend (some w) v = v ++ w

-- `mergeStringSliceMap`.
unfoldable pub merge_groups : Groups → Groups → Groups
merge_groups a b = add_missing (set_all (λ k v. extend (lookup k b) v) [] a) b

abbrev pub conflicts : FlagType → Option FlagType → Bool
conflicts v none = false
conflicts v (some tp) = not (same_flag_type tp v)

unfoldable pub definitions_first :
    FlagDefinitions → FlagDefinitions → FlagDefinitions → Option FlagDefinitions
definitions_first others result [] = some result
definitions_first others result ((k, v) ∷ m) =
    let rest = definitions_first others (insert k v result) m in
    if conflicts v (lookup k others) then none else rest

abbrev pub map_option {ℓ κ} : {A : Type ℓ} {B : Type κ} → (A → B) → Option A → Option B
map_option f none = none
map_option f (some a) = some (f a)

unfoldable pub merge_definitions : FlagDefinitions → FlagDefinitions → Option FlagDefinitions
merge_definitions d others = map_option (λ r. add_missing r others) (definitions_first others [] d)

-- By `maps.Copy`, twice.
unfoldable pub merge_workflows :
    List (String × Value) → List (String × Value) → List (String × Value)
merge_workflows s others = set_all (λ k v. v) (set_all (λ k v. v) [] s) others

-- `none` is an error: flags that are defined with different types.
unfoldable pub merge_sources : Source → Source → Option Source
merge_sources s others =
    map_option
      (λ flag_defs. record {
        flag_definitions = flag_defs;
        flags = merge_flags s.flags others.flags;
        keywords = merge_groups s.keywords others.keywords;
        extensions = merge_groups s.extensions others.extensions;
        workflows = merge_workflows s.workflows others.workflows;
      })
      (merge_definitions s.flag_definitions others.flag_definitions)

abbrev pub content_type_to_int : ContentType → ℕ
content_type_to_int movie = 1
content_type_to_int tv_show = 2
content_type_to_int music = 3
content_type_to_int ebook = 4
content_type_to_int comic = 5
content_type_to_int audiobook = 6
content_type_to_int game = 7
content_type_to_int software = 8
content_type_to_int other = 9
content_type_to_int adult = 10
content_type_to_int unknown = 0

abbrev pub cons_option {ℓ} : {A : Type ℓ} → Option A → Option (List A) → Option (List A)
cons_option none xs = none
cons_option (some x) none = none
cons_option (some x) (some xs) = some (x ∷ xs)

abbrev pub as_text : Value → Option String
as_text (text s) = some s
as_text null = none
as_text (boolean b) = none
as_text (integer i) = none
as_text (seq vs) = none
as_text (object fs) = none

abbrev pub each_option {ℓ} : {A : Type ℓ} → (Value → Option A) → List Value → Option (List A)
each_option f [] = some []
each_option f (v ∷ vs) = cons_option (f v) (each_option f vs)

abbrev pub and_then {ℓ κ} : {A : Type ℓ} {B : Type κ} → Option A → (A → Option B) → Option B
and_then none f = none
and_then (some a) f = f a

abbrev pub or_nil : Option FlagValue → FlagValue
or_nil none = flag_nil
or_nil (some v) = v

-- A loop over definitions that sets a value for each key, or fails.
unfoldable pub set_each {ℓ} :
    {D : Type ℓ} → (String → D → Option FlagValue) → Flags → List (String × D) → Option Flags
set_each g result [] = some result
set_each g result ((k, d) ∷ m) = and_then (g k d) (λ v. set_each g (insert k v result) m)

module _ (t : Tools) where
  pub type_number : String → Option ℕ
  type_number s =
      if str_eq s "unknown" then some 0 else map_option content_type_to_int (parse_content_type t s)

  -- `none` is an error.
  unfoldable pub validate_flag : FlagType → Value → Option FlagValue
  validate_flag bool_flag (boolean b) = some (flag_bool b)
  validate_flag string_flag (text s) = some (flag_string s)
  validate_flag int_flag (integer i) = some (flag_int i)
  validate_flag string_list_flag (seq vs) = map_option flag_strings (each_option as_text (items vs))
  validate_flag content_type_list_flag (seq vs) =
      map_option flag_content_types (each_option (λ v. and_then (as_text v) type_number) (items vs))
  validate_flag _ _ = none

  abbrev pub default_value : RawFlags → String → FlagType → Option FlagValue
  default_value flags k d = and_then (lookup k flags) (validate_flag d)

  -- The flags that are compiled: each definition has a value.
  unfoldable pub default_flags : FlagDefinitions → RawFlags → Option Flags
  default_flags definitions flags = set_each (default_value flags) [] definitions

  abbrev pub runtime_value : Flags → Option Value → String → FlagType → Option FlagValue
  runtime_value defaults (some raw) k d = validate_flag d raw
  runtime_value defaults none k d = some (or_nil (lookup k defaults))

  -- The flags of a run: those that are given, checked, and the compiled ones for the others.
  unfoldable pub run_flags : FlagDefinitions → Flags → RawFlags → Option Flags
  run_flags definitions defaults flags =
      set_each (λ k d. runtime_value defaults (lookup k flags) k d) [] definitions
