-- ===== src/Location/Examples.antt =====
-- Locations of the three providers.
use andaime.Base.{◌∷◌, [], ◌≡◌, refl, codes, same, true, to_lower_byte}
use andaime.Types.{DeploymentType}
use andaime.Location.{
  is_valid_azure_region, split, last_part, parse_region_zone, normalize_location, provider_name,
  is_valid_location, is_valid_region_zone, Tables,
}
use andaime.Location.Laws.{parse_region_zone-Cut, parse_region_zone_stable, Cut}

aws_region : parse_region_zone (codes "us-east-1") ≡ (codes "us-east-1", codes "us-east-1a")
unfolding parse_region_zone
aws_region = refl

aws_zone : parse_region_zone (codes "us-east-1b") ≡ (codes "us-east-1", codes "us-east-1b")
unfolding parse_region_zone
aws_zone = refl

gcp_zone :
    parse_region_zone (codes "europe-west3-a") ≡ (codes "europe-west3", codes "europe-west3-a")
unfolding parse_region_zone
gcp_zone = refl

abbrev tables : Tables
tables = record {
  azure_locations = codes "eastus" ∷ [];
  gcp_locations = codes "europe-west3-a" ∷ [];
  aws_locations = codes "us-east-1" ∷ [];
}

azure_upper : is_valid_location tables DeploymentType.azure (codes "EastUS") ≡ true
unfolding is_valid_location normalize_location provider_name is_valid_region_zone same to_lower_byte
    is_valid_azure_region
azure_upper = refl

parse_region_zone-Cut_example : Cut (codes "us-east-1") (parse_region_zone (codes "us-east-1"))
parse_region_zone-Cut_example = parse_region_zone-Cut (codes "us-east-1") (λ e. cc)

parse_region_zone_stable_example :
    parse_region_zone (parse_region_zone (codes "us-east-1")).1
    ≡ parse_region_zone (codes "us-east-1")
unfolding last_part split
parse_region_zone_stable_example = parse_region_zone_stable (codes "us-east-1") (λ e. cc) (λ e. cc)
