-- ===== src/Classifier/Compile/Gives.antt =====
-- internal/classifier: the size of a value, what the decoder makes of one, and what a compilation that
-- has enough fuel gives.
use Prim.Native.String.{String}
use hexmagnet.Prelude.{
  ℕ, suc, ◌+◌, ◌≤◌, ◌<◌, ◌≡◌, ◌⊎◌, inl, inr, refl, Bool, true, false, if◌then◌else◌, Bool-cases,
  List, [], ◌∷◌, length, All, Option, none, some, lookup, string_eq, str_eq, ◌==◌, arith,
}
use hexmagnet.Classifier.Payload.{
  Value, Values, Fields, null, boolean, integer, text, seq, object, empty, field, items, entries,
  SourcePath, CompileError, CompileErrors, plain, is_some, as_fatal_compiler_error, Compiled, ok,
  err, stuck, ◌>>=◌, map_err, from_option, IfElsePayload, Tools, child, each, error_at, raw_list,
  payload_single_key_value, payload_union,
}
use hexmagnet.Classifier.Compile.{first_of}

-- How much a value holds.
abbrev mutual
  pub size : Value → ℕ
  size null = 1
  size (boolean b) = 1
  size (integer i) = 1
  size (text s) = 1
  size (seq vs) = suc (items_size vs)
  size (object fs) = suc (fields_size fs)

  pub items_size : Values → ℕ
  items_size Values.end = 0
  items_size (Values.more v vs) = size v + items_size vs

  pub fields_size : Fields → ℕ
  fields_size empty = 0
  fields_size (field k v fs) = size v + fields_size fs

pub size-positive : (v : Value) → 0 < size v
size-positive null = omega arith
size-positive (boolean b) = omega arith
size-positive (integer i) = omega arith
size-positive (text s) = omega arith
size-positive (seq vs) = omega arith
size-positive (object fs) = omega arith

entries-size :
    (key : String) (fs : Fields) (x : Value)
    → lookup key (entries fs) ≡ some x
    → size x ≤ fields_size fs
unfolding lookup
entries-size key empty x h = cc
entries-size key (field k v fs) x h = elim (Bool-cases (str_eq k key)) [
  | inl e ↦ here (rw e at h)
  | inr e ↦ there (entries-size key fs x (rw e at h))
]
  where
    some-eq : some v ≡ some x → x ≡ v
    some-eq p = cc

    here : some v ≡ some x → size x ≤ size v + fields_size fs
    here p = rw (some-eq p) (omega arith)

    there : size x ≤ fields_size fs → size x ≤ size v + fields_size fs
    there l = omega (arith, l)

pub AtMost : ℕ → Value → Type 0
AtMost n x = size x ≤ n

pub AtMost-size : (n : ℕ) (x : Value) → AtMost n x → size x ≤ n
unfolding AtMost
AtMost-size n x l = l

pub items-AtMost : (n : ℕ) (vs : Values) → items_size vs ≤ n → All (AtMost n) (items vs)
unfolding AtMost
items-AtMost n Values.end l = tt
items-AtMost n (Values.more v vs) l = (omega (arith, l), items-AtMost n vs (omega (arith, l)))

pub raw_list-AtMost : (t : Tools) (n : ℕ) (v : Value) → size v ≤ n → All (AtMost n) (raw_list t v)
unfolding AtMost
raw_list-AtMost t n null l = tt
raw_list-AtMost t n (seq vs) l = items-AtMost n vs (omega (arith, l))
raw_list-AtMost t n (boolean b) l = (l, tt)
raw_list-AtMost t n (integer i) l = (l, tt)
raw_list-AtMost t n (text s) l = (l, tt)
raw_list-AtMost t n (object fs) l = (l, tt)

-- What a compilation gives if it gives anything; and it is not out of fuel.
abbrev pub Gives {ℓ} : {A : Type ℓ} → (A → Type 0) → Compiled A → Type 0
Gives P (ok a) = P a
Gives P (err e) = Unit
Gives P stuck = ⊥

module _ {ℓ} {A : Type ℓ} (P : A → Type 0) where
  pub if-Gives :
      (b : Bool) (m m' : Compiled A) → Gives P m → Gives P m' → Gives P (if b then m else m')
  if-Gives true m m' g h = g
  if-Gives false m m' g h = h

  pub map_err-Gives :
      (f : CompileError → CompileError) (m : Compiled A) → Gives P m → Gives P (map_err f m)
  map_err-Gives f (ok a) g = g
  map_err-Gives f (err e) g = tt
  map_err-Gives f stuck g = g

  pub union-Gives : (m m' : Compiled A) → Gives P m → Gives P m' → Gives P (payload_union m m')
  unfolding payload_union
  union-Gives (ok a) m' g h = g
  union-Gives stuck m' g h = g
  union-Gives (err e) (ok a) g h = h
  union-Gives (err e) stuck g h = h
  union-Gives (err e) (err e') g h = tt

  module _ {μ} {B : Type μ} (Q : B → Type 0) where
    pub bind-Gives :
        (m : Compiled A) (f : A → Compiled B)
        → Gives P m
        → ((a : A) → P a → Gives Q (f a))
        → Gives Q (m >>= f)
    bind-Gives (ok a) f g h = h a g
    bind-Gives (err e) f g h = tt
    bind-Gives stuck f g h = absurd g

    pub first_of-Gives :
        (found : A → Compiled B) (nothing : CompileErrors → Compiled B) (ms : List (Compiled A))
        → ((a : A) → P a → Gives Q (found a))
        → ((es : CompileErrors) → Gives Q (nothing es))
        → All (Gives P) ms
        → Gives Q (first_of found nothing ms)
    first_of-Gives found nothing [] h k g = k CompileErrors.end
    first_of-Gives found nothing (ok a ∷ ms) h k g = h a g.0
    first_of-Gives found nothing (stuck ∷ ms) h k g = absurd g.0
    first_of-Gives found nothing (err e ∷ ms) h k g =
        or_fatal (is_some (as_fatal_compiler_error e)) _ (
          first_of-Gives found (λ es. nothing (CompileErrors.more e es)) ms h
            (λ es. k (CompileErrors.more e es)) g.1)
      where
        or_fatal : (b : Bool) (m : Compiled B) → Gives Q m → Gives Q (if b then err e else m)
        or_fatal true m g = tt
        or_fatal false m g = g

    pub each-Gives :
        (f : ℕ → A → Compiled B) (i : ℕ) (xs : List A)
        → ((i : ℕ) (x : A) → P x → Gives Q (f i x))
        → All P xs
        → Gives (All Q) (each f i xs)
    unfolding each
    each-Gives f i [] h g = tt
    each-Gives f i (x ∷ xs) h g =
        rest (f i x) (h i x g.0) (each f (suc i) xs) (each-Gives f (suc i) xs h g.1)
      where
        rest :
            (m : Compiled B)
            → Gives Q m
            → (r : Compiled (List B)) → Gives (All Q) r
            → Gives (All Q) (m >>= λ b. r >>= λ bs. ok (b ∷ bs))
        rest (ok b) g (ok bs) h = (g, h)
        rest (ok b) g (err e) h = tt
        rest (ok b) g stuck h = absurd h
        rest (err e) g r h = tt
        rest stuck g r h = absurd g

pub from_option-Gives :
    {A : Type 0} (message : String) (o : Option A) → Gives (λ a. o ≡ some a) (from_option message o)
from_option-Gives message none = tt
from_option-Gives message (some a) = refl

-- What mapstructure makes of a value: a map, a string, and the parts of an `if_else`.
abbrev pub as_map : Value → Option (List (String × Value))
as_map null = some []
as_map (boolean b) = none
as_map (integer i) = none
as_map (text s) = none
as_map (seq vs) = none
as_map (object fs) = some (entries fs)

abbrev pub as_string : Value → Option String
as_string null = some ""
as_string (boolean b) = none
as_string (integer i) = none
as_string (text s) = some s
as_string (seq vs) = none
as_string (object fs) = none

abbrev pub IsPart : Value → Value → Type 0
IsPart v x =
    (x ≡ null)
    ⊎ ((key : String) × (fs : Fields) × (v ≡ object fs) × (lookup key (entries fs) ≡ some x))

pub record Decodes (t : Tools) : Type 0 where
  pub maps : (v : Value) → t.decode_map v ≡ as_map v
  pub strings : (v : Value) → t.decode_string v ≡ as_string v
  pub structs :
      (v : Value) (p : IfElsePayload)
      → t.decode_if_else v ≡ some p
      → IsPart v p.condition × IsPart v p.if_action × IsPart v p.else_action

-- A key that may be left out, of which a struct then has nil.
abbrev pub optional : String → Option Value → Fields → Fields
optional key none fs = fs
optional key (some v) fs = field key v fs

abbrev pub or_null : Option Value → Value
or_null none = null
or_null (some v) = v

-- What mapstructure makes of an `if_else` that has no other keys.
abbrev pub DecodesParts : Tools → Type 0
DecodesParts t =
    (c : Value) (a b : Option Value)
    → t.decode_if_else
        (object (field "condition" c (optional "if_action" a (optional "else_action" b empty))))
      ≡ some (record { condition = c; if_action = or_null a; else_action = or_null b })

pub IsPart-AtMost : (n : ℕ) (v x : Value) → IsPart v x → size v ≤ n → AtMost n x
unfolding AtMost
IsPart-AtMost n v x (inl e) l = rw e (omega (arith, l, size-positive v))
IsPart-AtMost n v x (inr (key, fs, e, h)) l =
    let k = entries-size key fs x h in
    let l' : suc (fields_size fs) ≤ n = rw e at l in omega (arith, k, l')

module _ {A : Type 0} (P : A → Type 0) (t : Tools) where
  -- A payload of a key is given a value that is smaller than the one that has the key.
  pub single_key-Gives :
      (d : Decodes t) (n : ℕ) (key : String) (payload : SourcePath → Value → Compiled A)
      (path : SourcePath) (v : Value)
      → ((path : SourcePath) (x : Value) → AtMost n x → Gives P (payload path x))
      → size v ≤ suc n
      → Gives P (payload_single_key_value t key payload path v)
  unfolding payload_single_key_value AtMost
  single_key-Gives d n key payload path v h l = rw (d.maps v) (by_case v l)
    where
      by_case :
          (v : Value)
          → size v ≤ suc n
          → Gives P (
              from_option "decode" (as_map v) >>= λ raw_map.
              if length raw_map == 1
              then map_err (error_at path) (from_option "missing expected key" (lookup key raw_map))
                >>= payload (child path key)
              else err (error_at path (plain "expected a single key")))
      by_case null l = tt
      by_case (boolean b) l = tt
      by_case (integer i) l = tt
      by_case (text s) l = tt
      by_case (seq vs) l = tt
      by_case (object fs) l =
          if-Gives P (length (entries fs) == 1) _ _
            (bind-Gives (λ x. lookup key (entries fs) ≡ some x) P
              (map_err (error_at path)
                (from_option "missing expected key" (lookup key (entries fs))))
              (payload (child path key))
              (map_err-Gives (λ x. lookup key (entries fs) ≡ some x) (error_at path)
                (from_option "missing expected key" (lookup key (entries fs)))
                (from_option-Gives "missing expected key" (lookup key (entries fs))))
              (λ x e. h (child path key) x (le x (entries-size key fs x e) l)))
            tt
        where
          le : (x : Value) → size x ≤ fields_size fs → suc (fields_size fs) ≤ suc n → size x ≤ n
          le x k l = omega (arith, k, l)
