-- ===== src/Classifier/Examples/Merging.antt =====
-- The theorems of the sources of the classifier at concrete sources.
use hexmagnet.Prelude.{
  ◌⊎◌, ◌≡◌, refl, true, false, [], ◌∷◌, none, some, lookup, insert, Distinct, string_eq,
}
use hexmagnet.Classifier.{flag_bool, Flags}
use hexmagnet.Classifier.Payload.{boolean, text}
use hexmagnet.Classifier.Examples.Compiling.{tools}
use hexmagnet.Classifier.Source.{
  Source, bool_flag, default_flags, run_flags, set_each, validate_flag,
}
use hexmagnet.Classifier.Source.Merge.{IsSource, Merges, merge_sources-Merges}
use hexmagnet.Classifier.Source.FlagValues.{HasFlags, BadFlag, run_flags-HasFlags}

abbrev core : Source
core = record {
  workflows = ("default", text "unmatched") ∷ [];
  flag_definitions = ("tmdb_enabled", bool_flag) ∷ [];
  flags = ("tmdb_enabled", boolean true) ∷ [];
  keywords = ("adult", "x" ∷ []) ∷ [];
  extensions = [];
}

abbrev configured : Source
configured = record {
  workflows = [];
  flag_definitions = [];
  flags = ("tmdb_enabled", boolean false) ∷ [];
  keywords = ("adult", "y" ∷ []) ∷ [];
  extensions = [];
}

core-IsSource : IsSource core
unfolding lookup
core-IsSource = record {
  workflows = (refl, tt);
  flags = (refl, tt);
  flag_definitions = (refl, tt);
  keywords = (refl, tt);
  extensions = tt;
}

configured-IsSource : IsSource configured
unfolding lookup
configured-IsSource = record {
  workflows = tt;
  flags = (refl, tt);
  flag_definitions = tt;
  keywords = (refl, tt);
  extensions = tt;
}

merge_sources-Merges_example : Merges core configured
merge_sources-Merges_example =
    merge_sources-Merges core configured core-IsSource configured-IsSource

abbrev defaults : Flags
defaults = ("tmdb_enabled", flag_bool true) ∷ []

core-defaults : default_flags tools core.flag_definitions core.flags ≡ some defaults
unfolding default_flags set_each validate_flag lookup insert
core-defaults = refl

definitions-Distinct : Distinct core.flag_definitions
unfolding lookup
definitions-Distinct = (refl, tt)

run_flags-HasFlags_example :
    ((f : Flags) × (run_flags tools core.flag_definitions defaults configured.flags ≡ some f)
      × HasFlags tools core.flag_definitions core.flags configured.flags f)
    ⊎ ((run_flags tools core.flag_definitions defaults configured.flags ≡ none)
        × BadFlag tools core.flag_definitions configured.flags)
run_flags-HasFlags_example =
    run_flags-HasFlags tools core.flag_definitions core.flags defaults definitions-Distinct
      core-defaults configured.flags
