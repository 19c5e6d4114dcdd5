-- ===== src/Reconcile/Paths.antt =====
-- src/reconcile.rs, src/git_source.rs: which paths are code. `file_name` and `extension` are those
-- of `std::path::Path`, on paths with slashes.
use texo.Base.{
  Bool, false, Option, none, some, List, [], ◌∷◌, any, if◌then◌else◌, ◌||◌, not, filter, map, last?,
}
use texo.Base.Text.{Text, bytes, text_eq, text_ord, is_empty, to_ascii_lowercase}
use texo.Base.Decimal.{split}

abbrev pub wellknown : List Text
wellknown =
    bytes "Makefile"
    ∷ bytes "makefile"
    ∷ bytes "GNUmakefile"
    ∷ bytes "Dockerfile"
    ∷ bytes "Containerfile"
    ∷ bytes "justfile"
    ∷ bytes "Justfile"
    ∷ bytes "Rakefile"
    ∷ bytes "Gemfile"
    ∷ bytes "Procfile"
    ∷ bytes "Jenkinsfile"
    ∷ bytes "BUILD"
    ∷ bytes "WORKSPACE"
    ∷ []

unfoldable pub is_wellknown_source_basename : Text → Bool
is_wellknown_source_basename name = any (text_eq name) wellknown

-- The last component of a path, unless it is the parent of another.
abbrev pub normal : Option Text → Option Text
normal none = none
normal (some name) = if text_eq name (bytes "..") then none else some name

abbrev pub is_component : Text → Bool
is_component part = not (is_empty part || text_eq part (bytes "."))

unfoldable pub file_name : Text → Option Text
file_name path = normal (last? (filter is_component (split 47 path)))

-- What stands behind the last full stop, unless it is the first character or there is none.
abbrev pub behind_stop : List Text → Option Text
behind_stop [] = none
behind_stop (name ∷ []) = none
behind_stop ([] ∷ extension ∷ []) = none
behind_stop ((c ∷ stem) ∷ extension ∷ []) = some extension
behind_stop (stem ∷ next ∷ more ∷ fields) = last? (next ∷ more ∷ fields)

abbrev pub extension_of : Option Text → Option Text
extension_of none = none
extension_of (some name) = behind_stop (split 46 name)

unfoldable pub extension : Text → Option Text
unfolding file_name
extension path = extension_of (file_name path)

abbrev pub code_extensions : List Text
code_extensions =
    bytes "rs"
    ∷ bytes "py"
    ∷ bytes "js"
    ∷ bytes "jsx"
    ∷ bytes "ts"
    ∷ bytes "tsx"
    ∷ bytes "go"
    ∷ bytes "java"
    ∷ bytes "kt"
    ∷ bytes "kts"
    ∷ bytes "rb"
    ∷ bytes "php"
    ∷ bytes "c"
    ∷ bytes "cc"
    ∷ bytes "cpp"
    ∷ bytes "cxx"
    ∷ bytes "h"
    ∷ bytes "hpp"
    ∷ bytes "cs"
    ∷ bytes "swift"
    ∷ bytes "scala"
    ∷ bytes "sh"
    ∷ bytes "bash"
    ∷ bytes "zsh"
    ∷ bytes "fish"
    ∷ bytes "sql"
    ∷ bytes "toml"
    ∷ bytes "yaml"
    ∷ bytes "yml"
    ∷ bytes "json"
    ∷ bytes "proto"
    ∷ bytes "tf"
    ∷ bytes "hcl"
    ∷ bytes "ex"
    ∷ bytes "exs"
    ∷ bytes "erl"
    ∷ bytes "hrl"
    ∷ bytes "clj"
    ∷ bytes "cljs"
    ∷ bytes "vue"
    ∷ bytes "svelte"
    ∷ []

abbrev pub holds : (Text → Bool) → Option Text → Bool
holds test none = false
holds test (some value) = test value

abbrev pub is_code_extension : Text → Bool
is_code_extension name = any (text_eq (map to_ascii_lowercase name)) code_extensions

unfoldable pub is_code_path : Text → Bool
unfolding file_name extension is_wellknown_source_basename
is_code_path path =
    holds is_wellknown_source_basename (file_name path) || holds is_code_extension (extension path)
