-- ===== src/Utils.antt =====
-- pkg/utils/slice.go, utils.go, strings.go and objects.go: lists of strings, cut strings, and the
-- tags that every resource carries. `none` is the panic of a slice out of range.
pub mod Sets
pub mod Cuts
pub mod Tags
pub mod Examples
use andaime.Base.{
  ℤ, pos, negsuc, ℕ, ◌-◌, ltb, Bool, true, false, ◌||◌, not, List, [], ◌∷◌, ◌++◌, Option, none,
  some, Text, codes, same, equal_fold, Dict, lookup, insert, length, take, if◌then◌else◌,
}

-- A string set is the list of what was put into it: `_, found := set[x]`.
unfoldable pub mem : Text → List Text → Bool
mem x [] = false
mem x (y ∷ ys) = same y x || mem x ys

-- `Difference`
unfoldable pub difference : List Text → List Text → List Text
difference [] b = []
difference (x ∷ a) b = if mem x b then difference a b else x ∷ difference a b

-- `CaseInsensitiveContains`
unfoldable pub case_insensitive_contains : List Text → Text → Bool
case_insensitive_contains [] t = false
case_insensitive_contains (v ∷ s) t = equal_fold v t || case_insensitive_contains s t

-- The second loop of `RemoveDuplicates`; the first one only counts, for the capacity.
unfoldable pub unseen : List Text → List Text → List Text
unseen seen [] = []
unseen seen (v ∷ s) =
    let old = unseen seen s in let new = unseen (v ∷ seen) s in if mem v seen then old else v ∷ new

unfoldable pub remove_duplicates : List Text → List Text
remove_duplicates s = unseen [] s

-- `s[:n]`
abbrev pub slice : ℕ → Text → Option Text
slice n s = if ltb (length s) n then none else some (take n s)

abbrev pub joined : Option Text → Text → Option Text
joined none t = none
joined (some s) t = some (s ++ t)

-- `TruncateString`, whose limit is an int: below a length of three, `maxLength-len(ellipsis)` is negative.
unfoldable pub truncate_string : Text → ℤ → Option Text
truncate_string s (negsuc n) = none
truncate_string s (pos max_length) =
    if ltb max_length (length s)
    then (if ltb max_length 3 then none else joined (slice (max_length - 3) s) (codes "..."))
    else some s

-- The first four bytes of an id, or all of a shorter one.
abbrev pub short : Text → Text
short id = if ltb 4 (length id) then take 4 id else id

abbrev pub cut_name : Option Text → Option Text
cut_name none = none
cut_name (some name) = some (if ltb 19 (length name) then take 19 name else name)

abbrev pub named : Text → Text → Option Text → Option Text
named project unique none = none
named project unique (some id) =
    some (codes "vm-" ++ (project ++ (codes "-" ++ (unique ++ (codes "-" ++ id)))))

-- `GenerateUniqueName`, where `id` is what `CreateShortID` draws.
unfoldable pub generate_unique_name : Text → Text → Text → Option Text
generate_unique_name project_id unique_id id =
    cut_name (named (short project_id) (short unique_id) (slice 4 id))

-- `if _, ok := tags[key]; !ok { tags[key] = value }`
unfoldable pub ensure_tag : Text → Text → Dict Text → Dict Text
ensure_tag key value tags = elim (lookup key tags) [ none ↦ insert key value tags | some _ ↦ tags ]

-- `EnsureAzureTags` and `EnsureGCPLabels`
unfoldable pub ensure_tags : Dict Text → Text → Text → Dict Text
ensure_tags tags project_id unique_id =
    ensure_tag (codes "andaime-project") (unique_id ++ (codes "-" ++ project_id)) (
      ensure_tag (codes "project-id") project_id (
        ensure_tag (codes "unique-id") unique_id (
          ensure_tag (codes "andaime-resource-tracking") (codes "true") (
            ensure_tag (codes "deployed-by") (codes "andaime")
              (ensure_tag (codes "andaime") (codes "true") tags)))))
