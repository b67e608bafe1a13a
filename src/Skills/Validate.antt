-- ===== src/Skills/Validate.antt =====
-- What a skill may be called and hold: crates/bobaclaw-skills/src/validate.rs. `none` is a value that
-- passes. The YAML parser is a parameter.
use boba_claw.Prelude.{
  ℕ, Bool, true, false, not, ◌&&◌, ◌||◌, ◌==◌, Option, none, some, List, [], ◌∷◌, ◌++◌,
  if◌then◌else◌, ltb, leb, ◌+◌, Text, codes, is_empty, text_eq, starts_with, contains, byte_len,
  trim, take, drop, any, Result, ok, err,
}
use boba_claw.Summary.{newline}
use boba_claw.ToolLoop.{decimal}
use boba_claw.Reply.{index_of}
use boba_claw.FileSystem.{slash, split_on}

abbrev pub max_name_len : ℕ
max_name_len = 64

abbrev max_desc_len : ℕ
max_desc_len = 1024

abbrev pub max_content_chars : ℕ
max_content_chars = 100000

-- The regular expression `^[a-z0-9][a-z0-9._-]*$`
abbrev pub is_name_start : ℕ → Bool
is_name_start c = (leb 97 c && leb c 122) || (leb 48 c && leb c 57)

abbrev pub is_name_char : ℕ → Bool
is_name_char c = is_name_start c || c == 46 || c == 95 || c == 45

abbrev pub all_name_chars : Text → Bool
all_name_chars [] = true
all_name_chars (c ∷ s) = is_name_char c && all_name_chars s

abbrev pub valid_name : Text → Bool
valid_name [] = false
valid_name (c ∷ s) = is_name_start c && all_name_chars s

abbrev pub quoted : Text → Text
quoted s = 39 ∷ s ++ 39 ∷ []

unfoldable pub validate_name : Text → Option Text
validate_name name =
    if is_empty name
    then some (codes "Skill name is required.")
    else if ltb max_name_len (byte_len name)
    then some (codes "Skill name exceeds " ++ decimal max_name_len ++ codes " characters.")
    else if not (valid_name name)
    then some (
        codes "Invalid skill name "
        ++ quoted name
        ++ codes ". Use lowercase letters, numbers, hyphens, dots, underscores.")
    else none

abbrev pub validate_given : Text → Option Text
validate_given category =
    if is_empty category
    then none
    else if contains category (slash ∷ []) || contains category (92 ∷ [])
    then some
        (codes "Invalid category " ++ quoted category ++ codes ". Must be a single directory name.")
    else validate_name category

unfoldable pub validate_category : Option Text → Option Text
validate_category none = none
validate_category (some category) = validate_given (trim category)

-- A value of serde_yaml, its mappings by the keys that are texts.
mutual
  pub data Yaml : Type 0 where
    mapping : Mapping → Yaml
    string : Text → Yaml
    other : Yaml

  pub data Mapping : Type 0 where
    no_entry : Mapping
    an_entry : Text → Yaml → Mapping → Mapping

abbrev lookup : Mapping → Text → Option Yaml
lookup no_entry key = none
lookup (an_entry k v obj) key = if text_eq k key then some v else lookup obj key

-- `.and_then(|v| v.as_str()).unwrap_or("")`
abbrev str_or_blank : Option Yaml → Text
str_or_blank none = []
str_or_blank (some (mapping _)) = []
str_or_blank (some (string s)) = s
str_or_blank (some other) = []

abbrev has_key : Option Yaml → Bool
has_key none = false
has_key (some _) = true

abbrev validate_description : Text → Text → Option Text
validate_description desc body =
    if is_empty desc
    then some (codes "Frontmatter must include 'description' field.")
    else if ltb max_desc_len (byte_len desc)
    then some (codes "Description exceeds " ++ decimal max_desc_len ++ codes " characters.")
    else if is_empty (trim body)
    then some (codes "SKILL.md must have content after the frontmatter.")
    else none

abbrev validate_yaml : Result Text Yaml → Text → Option Text
validate_yaml (err e) body = some (codes "YAML frontmatter parse error: " ++ e)
validate_yaml (ok (mapping obj)) body =
    if not (has_key (lookup obj (codes "name")))
    then some (codes "Frontmatter must include 'name' field.")
    else validate_description (str_or_blank (lookup obj (codes "description"))) body
validate_yaml (ok (string s)) body = some (codes "Frontmatter must be a YAML mapping.")
validate_yaml (ok other) body = some (codes "Frontmatter must be a YAML mapping.")

abbrev closing : Text
closing = newline ∷ codes "---"

abbrev validate_closed : (Text → Result Text Yaml) → Text → Option ℕ → Option Text
validate_closed from_str rest none = some (codes "SKILL.md frontmatter is not closed.")
validate_closed from_str rest (some end) =
    validate_yaml (from_str (take end rest)) (drop (end + 4) rest)

unfoldable pub validate_frontmatter : (Text → Result Text Yaml) → Text → Option Text
validate_frontmatter from_str content =
    if is_empty (trim content)
    then some (codes "Content cannot be empty.")
    else if not (starts_with content (codes "---"))
    then some (codes "SKILL.md must start with YAML frontmatter (---).")
    else validate_closed from_str (drop 3 content) (index_of (drop 3 content) closing)

unfoldable pub validate_content_size : Text → Text → Option Text
validate_content_size content label =
    if ltb max_content_chars (byte_len content)
    then some (
        label
        ++ codes " content is "
        ++ decimal (byte_len content)
        ++ codes " characters (limit: "
        ++ decimal max_content_chars
        ++ codes ").")
    else none

abbrev pub allowed_subdirs : List Text
allowed_subdirs = codes "references" ∷ codes "templates" ∷ codes "scripts" ∷ codes "assets" ∷ []

-- `str::trim_start_matches`
abbrev pub trim_start_matches : ℕ → Text → Text
trim_start_matches d [] = []
trim_start_matches d (c ∷ s) = if c == d then trim_start_matches d s else c ∷ s

abbrev pub two_dots : Text
two_dots = codes ".."

abbrev validate_parts : List Text → Option Text
validate_parts [] =
    some (codes "file_path must be under references/, templates/, scripts/, or assets/.")
validate_parts (p ∷ []) =
    some (codes "file_path must be under references/, templates/, scripts/, or assets/.")
validate_parts (p ∷ q ∷ parts) =
    if not (any (λ subdir. text_eq subdir p) allowed_subdirs)
    then some (
        codes "Subdirectory "
        ++ quoted p
        ++ codes " is not allowed. Use: references, templates, scripts, assets")
    else none

abbrev pub validate_trimmed : Text → Option Text
validate_trimmed path =
    if is_empty path || contains path two_dots
    then some (codes "Invalid file_path.")
    else validate_parts (split_on slash path)

unfoldable pub validate_support_path : Text → Option Text
validate_support_path file_path = validate_trimmed (trim_start_matches slash (trim file_path))
