-- ===== src/Utils/Examples.antt =====
-- Lists, strings and tags of one resource.
use andaime.Base.{
  pos, negsuc, ◌-◌, ◌≤◌, ◌<◌, List, [], ◌∷◌, ◌++◌, none, some, Text, codes, same, length, take,
  lookup, ◌≡◌, refl,
}
use andaime.Utils.{mem, remove_duplicates, unseen, truncate_string, ensure_tags}
use andaime.Utils.Cuts.{length-truncate_string}
use andaime.Utils.Sets.{Distinct, remove_duplicates-Distinct}
use andaime.Utils.Tags.{or_default, default_tags, lookup-ensure_tags}

abbrev regions : List Text
regions = codes "eastus" ∷ codes "westus" ∷ codes "eastus" ∷ []

two_regions : remove_duplicates regions ≡ codes "eastus" ∷ codes "westus" ∷ []
unfolding remove_duplicates unseen mem same
two_regions = refl

length-truncate_string_example :
    (length (codes "deployment") ≤ 6
      → truncate_string (codes "deployment") (pos 6) ≡ some (codes "deployment"))
    × (6 < length (codes "deployment")
        → 6 < 3
        → truncate_string (codes "deployment") (pos 6) ≡ none)
    × (6 < length (codes "deployment")
        → 3 ≤ 6
        → (t : Text) × (truncate_string (codes "deployment") (pos 6) ≡ some (t ++ codes "..."))
          × (length (t ++ codes "...") ≡ 6)
          × (t ≡ take (6 - 3) (codes "deployment")))
    × (truncate_string (codes "deployment") (negsuc 6) ≡ none)
length-truncate_string_example = length-truncate_string (codes "deployment") 6

lookup-ensure_tags_example :
    lookup (codes "andaime") (ensure_tags [] (codes "p") (codes "u"))
    ≡ or_default
        (lookup (codes "andaime") [])
        (lookup (codes "andaime") (default_tags (codes "p") (codes "u")))
lookup-ensure_tags_example = lookup-ensure_tags [] (codes "p") (codes "u") (codes "andaime")

remove_duplicates-Distinct_example :
    Distinct (remove_duplicates regions)
    × ((x : Text) → mem x (remove_duplicates regions) ≡ mem x regions)
    × (Distinct regions → remove_duplicates regions ≡ regions)
remove_duplicates-Distinct_example = remove_duplicates-Distinct regions
