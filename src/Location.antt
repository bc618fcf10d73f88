-- ===== src/Location.antt =====
-- internal/clouds/general/location.go: a location string is split into a region and a zone.
-- And the location tests of internal/clouds/*/locations.go, over the tables that the build embeds.
pub mod Laws
pub mod Examples
use andaime.Base.{
  ℕ, ◌+◌, ◌-◌, ltb, leb, ◌==◌, Bool, false, true, ◌&&◌, ◌||◌, List, [], ◌∷◌, ◌++◌, Option, none,
  some, Text, codes, same, to_lower, equal_fold, is_lower, is_empty, length, take, get_elem?,
  if◌then◌else◌,
}
use andaime.Types.{DeploymentType}

abbrev dash : ℕ
dash = b'-'

-- `strings.Split(s, "-")`: the part being read goes before what the rest gives.
abbrev pub push_byte : ℕ → List Text → List Text
push_byte c [] = (c ∷ []) ∷ []
push_byte c (p ∷ ps) = (c ∷ p) ∷ ps

unfoldable pub split : Text → List Text
split [] = [] ∷ []
split (c ∷ s) = if c == dash then [] ∷ split s else push_byte c (split s)

-- `strings.Join(parts, "-")`
unfoldable pub join : List Text → Text
join [] = []
join (p ∷ []) = p
join (p ∷ q ∷ ps) = p ++ (dash ∷ join (q ∷ ps))

-- `parts[len(parts)-1]`; `split` gives at least one part.
unfoldable pub last_part : List Text → Text
last_part [] = []
last_part (p ∷ []) = p
last_part (p ∷ q ∷ ps) = last_part (q ∷ ps)

-- `parts[:len(parts)-1]`
unfoldable pub init_parts : List Text → List Text
init_parts [] = []
init_parts (p ∷ []) = []
init_parts (p ∷ q ∷ ps) = p ∷ init_parts (q ∷ ps)

abbrev pub starts_with_letter : Text → Bool
starts_with_letter [] = false
starts_with_letter (c ∷ s) = is_lower c

-- `input[len(input)-1]` is a letter
unfoldable pub ends_with_letter : Text → Bool
ends_with_letter [] = false
ends_with_letter (c ∷ []) = is_lower c
ends_with_letter (c ∷ d ∷ s) = ends_with_letter (d ∷ s)

-- `input[:len(input)-1]`
abbrev pub drop_last : Text → Text
drop_last s = take (length s - 1) s

-- `ParseRegionZone`. Its error is always nil.
unfoldable pub parse_region_zone : Text → Text × Text
unfolding split join last_part init_parts ends_with_letter
parse_region_zone input =
    if is_empty input
    then ([], [])
    else if ltb 2 (length (split input)) && starts_with_letter (last_part (split input))
    then (join (init_parts (split input)), input)
    else if ends_with_letter input
    then (drop_last input, input)
    else (input, input ++ codes "a")

-- `string(deploymentType)`, of which `NormalizeLocation` reads the lower case.
unfoldable pub provider_name : DeploymentType → Text
provider_name DeploymentType.unknown = codes "Unknown"
provider_name DeploymentType.azure = codes "Azure"
provider_name DeploymentType.aws = codes "AWS"
provider_name DeploymentType.gcp = codes "GCP"

-- `NormalizeLocation`; `none` is the error of an unknown provider.
unfoldable pub normalize_location : Text → Text → Option (Text × Text)
unfolding parse_region_zone
normalize_location cloud_provider location =
    let lower = to_lower cloud_provider in
    if same lower (codes "aws")
    then some (parse_region_zone location)
    else if same lower (codes "azure")
    then some (location, location)
    else if same lower (codes "gcp")
    then some (parse_region_zone location)
    else none

-- The tables that `GetAzureData`, `GetGCPData` and `GetAWSData` embed, once decoded.
pub record Tables : Type 0 where
  pub azure_locations : List Text
  pub gcp_locations : List Text
  pub aws_locations : List Text

-- `_, exists := data.Locations[key]`
unfoldable pub has_key : Text → List Text → Bool
has_key k [] = false
has_key k (j ∷ js) = same j k || has_key k js

-- The loop of `IsValidAWSRegion`, which compares by `EqualFold`.
unfoldable pub has_fold : Text → List Text → Bool
has_fold k [] = false
has_fold k (j ∷ js) = equal_fold j k || has_fold k js

module _ (tables : Tables) where
  unfoldable pub is_valid_azure_region : Text → Bool
  unfolding has_key
  is_valid_azure_region region = has_key (to_lower region) tables.azure_locations

  unfoldable pub is_valid_gcp_zone : Text → Bool
  unfolding has_key
  is_valid_gcp_zone zone = has_key (to_lower zone) tables.gcp_locations

  unfoldable pub is_valid_aws_region : Text → Bool
  unfolding has_fold ends_with_letter
  is_valid_aws_region region =
      has_fold (if ends_with_letter region then drop_last region else region) tables.aws_locations

  -- The switch of `IsValidLocation`, once the location is normalized.
  unfoldable pub is_valid_region_zone : DeploymentType → Text × Text → Bool
  is_valid_region_zone DeploymentType.azure (region, zone) = is_valid_azure_region region
  is_valid_region_zone DeploymentType.gcp (region, zone) = is_valid_gcp_zone zone
  is_valid_region_zone DeploymentType.aws (region, zone) = is_valid_aws_region region
  is_valid_region_zone DeploymentType.unknown (region, zone) = false

  -- `IsValidLocation` of pkg/models/machine.go
  unfoldable pub is_valid_location : DeploymentType → Text → Bool
  is_valid_location t location = elim (normalize_location (provider_name t) location) [
    | none ↦ false
    | some rz ↦ is_valid_region_zone t rz
  ]
