-- ===== src/Classifier/Payload.antt =====
-- internal/classifier/payload.go and the errors of classifier.go: the values that sources are made of,
-- and how the payloads of actions and conditions are read from them. The decoder into Go types, the
-- compiler of expressions, the lower case of a string and the text of an index are parameters
-- (`Tools`).
use Prim.Native.String.{String}
use hexmagnet.Prelude.{
  ℤ, ℕ, suc, Bool, true, false, ◌||◌, ◌==◌, if◌then◌else◌, str_eq, List, [], ◌∷◌, ◌++◌, length,
  Option, none, some, lookup, string_eq,
}
use hexmagnet.Classifier.{or_else}
use hexmagnet.Torznab.{
  ContentType, movie, tv_show, music, ebook, comic, audiobook, game, software, adult, other,
  unknown,
}
use hexmagnet.Webhook.{mem}

-- What YAML decodes to, an `any` of Go, but for fractions and times, which no payload is read from.
mutual
  pub data Value : Type 0 where
    null : Value
    boolean : Bool → Value
    integer : ℤ → Value
    text : String → Value
    seq : Values → Value
    object : Fields → Value

  pub data Values : Type 0 where
    end : Values
    more : Value → Values → Values

  pub data Fields : Type 0 where
    empty : Fields
    field : String → Value → Fields → Fields

abbrev pub items : Values → List Value
items Values.end = []
items (Values.more v vs) = v ∷ items vs

abbrev pub entries : Fields → List (String × Value)
entries empty = []
entries (field k v fs) = (k, v) ∷ entries fs

abbrev pub SourcePath : Type 0
SourcePath = List String

-- The messages are left out but for their kinds. An error of the compiler is a value of its type, and
-- its cause; `errors.Join` has several.
mutual
  pub data CompileError : Type 0 where
    plain : String → CompileError
    compiler_error : SourcePath → CompileError → CompileError
    fatal_compiler_error : SourcePath → CompileError → CompileError
    joined : CompileErrors → CompileError

  pub data CompileErrors : Type 0 where
    end : CompileErrors
    more : CompileError → CompileErrors → CompileErrors

-- The types of errors: the two of the compiler, and those of the pointers to them.
pub data ErrorType : Type 0 where
  compiler fatal pointer_to_compiler pointer_to_fatal : ErrorType

abbrev same_error_type : ErrorType → ErrorType → Bool
same_error_type compiler compiler = true
same_error_type fatal fatal = true
same_error_type pointer_to_compiler pointer_to_compiler = true
same_error_type pointer_to_fatal pointer_to_fatal = true
same_error_type _ _ = false

abbrev pub is_some {ℓ} : {A : Type ℓ} → Option A → Bool
is_some none = false
is_some (some a) = true

-- What `errors.AsType` finds in the tree of causes: the path and the cause of the first error of the
-- type. What a fatal error unwraps to is the compiler error in it.
unfoldable mutual
  pub as_type : ErrorType → CompileError → Option (SourcePath × CompileError)
  as_type t (plain message) = none
  as_type t (compiler_error path cause) =
      if same_error_type compiler t then some (path, cause) else as_type t cause
  as_type t (fatal_compiler_error path cause) =
      if same_error_type fatal t || same_error_type compiler t
      then some (path, cause)
      else as_type t cause
  as_type t (joined es) = as_type_any t es

  pub as_type_any : ErrorType → CompileErrors → Option (SourcePath × CompileError)
  as_type_any t CompileErrors.end = none
  as_type_any t (CompileErrors.more e es) = or_else (as_type t e) (as_type_any t es)

unfoldable pub as_compiler_error : CompileError → Option (SourcePath × CompileError)
as_compiler_error e = as_type pointer_to_compiler e

unfoldable pub as_fatal_compiler_error : CompileError → Option (SourcePath × CompileError)
as_fatal_compiler_error e = as_type pointer_to_fatal e

-- `ctx.error` and `ctx.fatal`.
unfoldable pub error_at : SourcePath → CompileError → CompileError
error_at path cause = if is_some (as_compiler_error cause) then cause else compiler_error path cause

abbrev fatal_from : SourcePath → CompileError → Option (SourcePath × CompileError) → CompileError
fatal_from path cause none = fatal_compiler_error path cause
fatal_from path cause (some found) = fatal_compiler_error found.0 found.1

unfoldable pub fatal_at : SourcePath → CompileError → CompileError
fatal_at path cause =
    if is_some (as_fatal_compiler_error cause)
    then cause
    else fatal_from path cause (as_compiler_error cause)

-- `stuck` is a compilation that is out of fuel.
pub data Compiled {ℓ} (A : Type ℓ) : Type ℓ where
  ok : A → Compiled A
  err : CompileError → Compiled A
  stuck : Compiled A

infixl 5 ◌>>=◌
abbrev pub ◌>>=◌ {ℓ κ} : {A : Type ℓ} {B : Type κ} → Compiled A → (A → Compiled B) → Compiled B
ok a >>= f = f a
err e >>= f = err e
stuck >>= f = stuck

-- An error on its way out.
abbrev pub map_err {ℓ} : {A : Type ℓ} → (CompileError → CompileError) → Compiled A → Compiled A
map_err f (ok a) = ok a
map_err f (err e) = err (f e)
map_err f stuck = stuck

abbrev pub from_option {ℓ} : {A : Type ℓ} → String → Option A → Compiled A
from_option message none = err (plain message)
from_option message (some a) = ok a

-- What an `if_else` is made of; `null` is an action that is not there.
pub record IfElsePayload : Type 0 where
  pub condition : Value
  pub if_action : Value
  pub else_action : Value

pub record Tools : Type 0 where
  pub decode_string : Value → Option String
  pub decode_map : Value → Option (List (String × Value))
  pub decode_if_else : Value → Option IfElsePayload
  pub compiles : String → Bool
  pub to_lower : String → String
  pub numeric_path_part : ℕ → String

abbrev pub child : SourcePath → String → SourcePath
child path part = path ++ part ∷ []

-- One compilation after another, each with its index; the first error ends it.
unfoldable pub each {ℓ κ} :
    {A : Type ℓ} {B : Type κ} → (ℕ → A → Compiled B) → ℕ → List A → Compiled (List B)
each f i [] = ok []
each f i (x ∷ xs) = f i x >>= λ b. each f (suc i) xs >>= λ bs. ok (b ∷ bs)

-- `payloadUnion` of two.
unfoldable pub payload_union {ℓ} : {A : Type ℓ} → Compiled A → Compiled A → Compiled A
payload_union (ok a) r = ok a
payload_union stuck r = stuck
payload_union (err e) (ok a) = ok a
payload_union (err e) stuck = stuck
payload_union (err e) (err e') = err (
    joined (
      CompileErrors.more e (
        CompileErrors.more e'
          (CompileErrors.more (plain "no definition matched") CompileErrors.end))))

abbrev pub content_type_values : List (String × ContentType)
content_type_values =
    ("movie", movie)
    ∷ ("tv_show", tv_show)
    ∷ ("music", music)
    ∷ ("ebook", ebook)
    ∷ ("comic", comic)
    ∷ ("audiobook", audiobook)
    ∷ ("game", game)
    ∷ ("software", software)
    ∷ ("other", other)
    ∷ ("unknown", unknown)
    ∷ ("adult", adult)
    ∷ []

abbrev pub content_type_names : List (String × ContentType) → List String
content_type_names [] = []
content_type_names (x ∷ xs) = x.0 ∷ content_type_names xs

module _ (t : Tools) where
  -- `payloadGeneric[any]`: a nil interface has no type.
  unfoldable pub payload_any : SourcePath → Value → Compiled Value
  payload_any path null = err (error_at path (plain "not ok"))
  payload_any path (boolean b) = ok (boolean b)
  payload_any path (integer i) = ok (integer i)
  payload_any path (text s) = ok (text s)
  payload_any path (seq vs) = ok (seq vs)
  payload_any path (object fs) = ok (object fs)

  -- `payloadGeneric[string]`.
  unfoldable pub payload_string : SourcePath → Value → Compiled String
  payload_string path (text s) = ok s
  payload_string path null = err (error_at path (plain "not ok"))
  payload_string path (boolean b) = err (error_at path (plain "not ok"))
  payload_string path (integer i) = err (error_at path (plain "not ok"))
  payload_string path (seq vs) = err (error_at path (plain "not ok"))
  payload_string path (object fs) = err (error_at path (plain "not ok"))

  -- `payloadLiteral[string]`.
  unfoldable pub payload_literal : String → Value → Compiled String
  payload_literal literal v = from_option "decode" (t.decode_string v) >>= λ s.
      if str_eq s literal then ok s else err (plain "value mismatch")

  -- The items that a list is made of: a value that is no list is one item.
  abbrev pub raw_list : Value → List Value
  raw_list null = []
  raw_list (seq vs) = items vs
  raw_list (boolean b) = boolean b ∷ []
  raw_list (integer i) = integer i ∷ []
  raw_list (text s) = text s ∷ []
  raw_list (object fs) = object fs ∷ []

  unfoldable pub payload_list {ℓ} :
      {A : Type ℓ} → (SourcePath → Value → Compiled A) → SourcePath → Value → Compiled (List A)
  payload_list item path v =
      each (λ i x. item (child path (t.numeric_path_part i)) x) 0 (raw_list v)

  -- `payloadMustSucceed`.
  unfoldable pub payload_must_succeed {ℓ} :
      {A : Type ℓ} → (SourcePath → Value → Compiled A) → SourcePath → Value → Compiled A
  payload_must_succeed payload path v = map_err (fatal_at path) (payload path v)

  -- `payloadSingleKeyValue`.
  unfoldable pub payload_single_key_value {ℓ} :
      {A : Type ℓ} → String → (SourcePath → Value → Compiled A) → SourcePath → Value → Compiled A
  payload_single_key_value key payload path v = from_option "decode" (t.decode_map v) >>= λ raw_map.
      if length raw_map == 1
      then map_err (error_at path) (from_option "missing expected key" (lookup key raw_map))
        >>= payload (child path key)
      else err (error_at path (plain "expected a single key"))

  unfoldable pub parse_content_type : String → Option ContentType
  parse_content_type name =
      or_else (lookup name content_type_values) (lookup (t.to_lower name) content_type_values)

  -- A string that is one of the names, and its content type; `unknown` is none.
  unfoldable pub payload_content_type : SourcePath → Value → Compiled (Option ContentType)
  payload_content_type path v =
      map_err (error_at path) (from_option "decode" (t.decode_string v)) >>= λ s.
      if mem s (content_type_names content_type_values)
      then (if str_eq s "unknown"
          then ok none
          else from_option "content type" (parse_content_type s) >>= λ ct. ok (some ct))
      else err (error_at path (plain "value not in enum"))
