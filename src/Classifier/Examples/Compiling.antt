-- ===== src/Classifier/Examples/Compiling.antt =====
-- The theorems of the compilation of workflows at concrete rules.
use Prim.Native.String.{String}
use hexmagnet.Prelude.{
  ◌≤◌, ◌≡◌, inl, inr, refl, subst, true, List, [], ◌∷◌, All, Option, none, some, lookup, string_eq,
  arith,
}
use hexmagnet.Torznab.{tv_show, music}
use hexmagnet.Classifier.{Condition, Conditions, and, or, negated, expression, run}
use hexmagnet.Classifier.Examples.{env, env-IsCalm}
use hexmagnet.Classifier.Payload.{
  Value, Fields, null, text, seq, object, entries, IfElsePayload, Tools, ok, plain, fatal_at,
  CompileErrors,
}
use hexmagnet.Classifier.Compile.{first_of, no_condition, compile_workflows, workflow_names}
use hexmagnet.Classifier.Compile.Gives.{
  as_map, as_string, size, Gives, Decodes, IsPart, DecodesParts, or_null,
}
use hexmagnet.Classifier.Compile.Safe.{IsSafe, compile_workflows-IsSafe}
use hexmagnet.Classifier.Compile.Finds.{failing, first_of-failing}
use hexmagnet.Classifier.Compile.Rules.{
  Rules, simple, date, no_match, classify_llm, first, choice, workflow, content_type, no_rules, one,
  rules, rule_values, AreRules,
}
use hexmagnet.Classifier.Compile.Rules.Sources.{sources, meanings, compile_workflows-meanings}

abbrev pub parts_of : Fields → IfElsePayload
parts_of fs = record {
  condition = or_null (lookup "condition" (entries fs));
  if_action = or_null (lookup "if_action" (entries fs));
  else_action = or_null (lookup "else_action" (entries fs));
}

-- A decoder that overlooks the keys that are not those of an `if_else`.
abbrev pub decode_parts : Value → Option IfElsePayload
decode_parts null = none
decode_parts (Value.boolean b) = none
decode_parts (Value.integer i) = none
decode_parts (text s) = none
decode_parts (seq vs) = none
decode_parts (object fs) = some (parts_of fs)

abbrev pub tools : Tools
tools = record {
  decode_string = as_string;
  decode_map = as_map;
  decode_if_else = decode_parts;
  compiles = λ s. true;
  to_lower = λ s. s;
  numeric_path_part = λ i. "[]";
}

or_null-IsPart :
    (key : String) (fs : Fields) → IsPart (object fs) (or_null (lookup key (entries fs)))
or_null-IsPart key fs = part (lookup key (entries fs)) refl
  where
    part : (o : Option Value) → lookup key (entries fs) ≡ o → IsPart (object fs) (or_null o)
    part none e = inl refl
    part (some v) e = inr (key, fs, refl, e)

parts-ArePart :
    (v : Value) (p : IfElsePayload)
    → decode_parts v ≡ some p
    → IsPart v p.condition × IsPart v p.if_action × IsPart v p.else_action
parts-ArePart null p h = cc
parts-ArePart (Value.boolean b) p h = cc
parts-ArePart (Value.integer i) p h = cc
parts-ArePart (text s) p h = cc
parts-ArePart (seq vs) p h = cc
parts-ArePart (object fs) p h =
    subst
      (λ p.
        IsPart (object fs) p.condition
        × IsPart (object fs) p.if_action
        × IsPart (object fs) p.else_action)
      (same (parts_of fs) p h)
      (
        or_null-IsPart "condition" fs,
        or_null-IsPart "if_action" fs,
        or_null-IsPart "else_action" fs,
      )
  where
    same : (q p : IfElsePayload) → some q ≡ some p → q ≡ p
    same q p e = cc

tools-Decodes : Decodes tools
tools-Decodes = record { maps = λ v. refl; strings = λ v. refl; structs = parts-ArePart }

tools-DecodesParts : DecodesParts tools
unfolding lookup
tools-DecodesParts c none none = refl
tools-DecodesParts c none (some b) = refl
tools-DecodesParts c (some a) none = refl
tools-DecodesParts c (some a) (some b) = refl

-- The rules for music and for dates of classifier.core.yml, with shorter expressions.
abbrev core_rules : Rules
core_rules =
    Rules.more
      (choice (expression "result.contentType")
        (one (
          first (
            Rules.more (simple classify_llm) (
              Rules.more
                (choice
                  (or (
                    Conditions.more (expression "torrent.files") (
                      Conditions.more
                        (and (Conditions.more (expression "torrent.baseName") Conditions.end))
                        Conditions.end)))
                  (one (content_type music)) (one (simple no_match)))
                Rules.end))))
        no_rules)
      (Rules.more
        (choice (expression "result.date == 0") (one (first (Rules.more (simple date) Rules.end)))
          no_rules)
        Rules.end)

-- The default workflow runs another where a condition holds, and looks for a date otherwise; this one
-- has a branch of its own.
abbrev written : List (String × Rules)
written =
    (
      "default",
      Rules.more
          (choice
            (or (
              Conditions.more (expression "a")
                (Conditions.more (negated (expression "b")) Conditions.end)))
            (rules (Rules.more (workflow ("tv" ∷ [])) Rules.end)) no_rules)
          (Rules.more (first (Rules.more (simple date) (Rules.more (simple no_match) Rules.end)))
            Rules.end),
    )
    ∷ (
      "tv",
      Rules.more (choice (expression "c") (one (content_type tv_show)) (one (simple no_match)))
          Rules.end,
    )
    ∷ ("core", core_rules)
    ∷ []

written-AreRules :
    All
      (λ x.
        AreRules tools (workflow_names (sources written)) x.1 × (size (seq (rule_values x.1)) ≤ 40))
      written
written-AreRules = (
  ((((refl, (refl, tt)), ((refl, tt), tt), tt), ((tt, (tt, tt)), tt)), omega arith),
  (
    (((refl, tt, tt), tt), omega arith),
    (
      (
        ((refl, (tt, (((refl, ((refl, tt), tt)), tt, tt), tt)), tt), ((refl, (tt, tt), tt), tt)),
        omega arith,
      ),
      tt,
    ),
  ),
)

compile_workflows-meanings_example :
    compile_workflows tools 40 (sources written) ≡ ok (meanings tools written)
compile_workflows-meanings_example =
    compile_workflows-meanings tools tools-Decodes tools-DecodesParts 40 written written-AreRules

compile_workflows-IsSafe_example :
    Gives (λ ws. IsSafe (run env [] ws 5 "default")) (compile_workflows tools 40 (sources written))
compile_workflows-IsSafe_example =
    compile_workflows-IsSafe tools tools-Decodes 40 (sources written)
      (omega arith, (omega arith, (omega arith, tt))) env env-IsCalm [] 5 "default"

-- A fatal error of one definition, and another that compiles.
first_of-failing_example :
    (first_of
        (λ (c : Condition). ok c)
        no_condition
        (failing
          (CompileErrors.more (fatal_at [] (plain "e")) CompileErrors.end)
          (ok (expression "a") ∷ []))
      ≡ ok (expression "a"))
    × (first_of
          (λ (c : Condition). ok c)
          no_condition
          (failing (CompileErrors.more (fatal_at [] (plain "e")) CompileErrors.end) [])
        ≡ no_condition (CompileErrors.more (fatal_at [] (plain "e")) CompileErrors.end))
first_of-failing_example =
    first_of-failing (λ (c : Condition). ok c) no_condition
      (CompileErrors.more (fatal_at [] (plain "e")) CompileErrors.end) (expression "a") []
