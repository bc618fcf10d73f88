-- ===== src/Config/Image.antt =====
-- internal/clouds/gcp/locations.go: the URL of a disk image, from the table of images that the build
-- embeds, once decoded.
use andaime.Base.{
  ltb, ◌==◌, List, [], ◌∷◌, ◌++◌, Option, none, some, Text, codes, same, length, get_elem?,
  if◌then◌else◌,
}
use andaime.Location.{push_byte}

pub record DiskImage : Type 0 where
  pub family : Text
  pub licenses : List Text

-- `strings.Split(s, "/")`
unfoldable pub split_slash : Text → List Text
split_slash [] = [] ∷ []
split_slash (c ∷ s) = if c == b'/' then [] ∷ split_slash s else push_byte c (split_slash s)

-- The answer of `IsValidGCPDiskImageFamily`; it panics on an index out of range.
pub data ImageUrl : Type 0 where
  found : Text → ImageUrl
  invalid panics : ImageUrl

-- `GetGCPDiskImageURL`
abbrev pub get_gcp_disk_image_url : Text → Text → Text
get_gcp_disk_image_url project family =
    codes "https://www.googleapis.com/compute/v1/projects/"
    ++ (project ++ (codes "/global/images/family/" ++ family))

abbrev url_of : Text → Option Text → ImageUrl
url_of family none = ImageUrl.panics
url_of family (some project) = ImageUrl.found (get_gcp_disk_image_url project family)

-- From the parts of the first license: at least six are asked for, and the seventh is read.
abbrev from_parts : Text → List Text → ImageUrl
from_parts family parts =
    if ltb (length parts) 6 then ImageUrl.invalid else url_of family (get_elem? parts 6)

abbrev from_licenses : Text → List Text → ImageUrl
from_licenses family [] = ImageUrl.invalid
from_licenses family (license ∷ _) = from_parts family (split_slash license)

-- The loop of `IsValidGCPDiskImageFamily`: the first image of the family decides.
unfoldable pub is_valid_gcp_disk_image_family : List DiskImage → Text → ImageUrl
unfolding split_slash
is_valid_gcp_disk_image_family [] family = ImageUrl.invalid
is_valid_gcp_disk_image_family (i ∷ is) family =
    if same i.family family
    then from_licenses i.family i.licenses
    else is_valid_gcp_disk_image_family is family
