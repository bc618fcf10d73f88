-- ===== src/Settings.antt =====
-- pkg/models/config.go: `ReadBacalhauSettingsFromViper`, on the value that viper has for
-- "general.bacalhau_settings". A scalar stands with the text that `%v` formats it to. The entries
-- of a Go map are read in the order of the list, which stands for any order.
pub mod Parse
pub mod Examples
use andaime.Base.{
  ℕ, Bool, true, false, List, [], ◌∷◌, ◌++◌, Option, none, some, Text, codes, is_empty, Dict,
  if◌then◌else◌,
}
use andaime.Utils.{mem}
use andaime.Remote.{Error, errorf, Result, ok, err}

-- An item of a list: a string, or anything else.
pub data RawItem : Type 0 where
  text : Text → RawItem
  no_text : RawItem

pub data RawValue : Type 0 where
  string bool int float : Text → RawValue
  list : List RawItem → RawValue
  mapping : RawValue
  unknown : RawValue

-- An item of the list of settings: a map, with its "key" if that is a string, and its "value".
pub data RawEntry : Type 0 where
  entry : Option Text → Option RawValue → RawEntry
  no_map : RawEntry

pub data RawSettings : Type 0 where
  unset : RawSettings
  entries : List RawEntry → RawSettings
  by_name : List (Text × RawValue) → RawSettings
  strings_by_name : List (Text × Text) → RawSettings
  other : RawSettings

-- The value of a setting that has been read.
pub data SettingValue : Type 0 where
  one : Text → SettingValue
  several : List Text → SettingValue

-- What the first switch collects: the settings, and the keys that are not valid.
abbrev pub Collected : Type 0
Collected = List (Text × RawValue) × List Text

abbrev pub good_first : Text × RawValue → Collected → Collected
good_first s (good, bad) = (s ∷ good, bad)

abbrev pub bad_first : Text → Collected → Collected
bad_first k (good, bad) = (good, k ∷ bad)

abbrev pub map_result : {A B : Type 0} → (A → B) → Result A → Result B
map_result f (ok a) = ok (f a)
map_result f (err e) = err e

-- `IsValidBacalhauKey`, where the lines of the table of keys are a parameter.
abbrev pub is_valid_bacalhau_key : List Text → Text → Bool
is_valid_bacalhau_key lines key = mem key lines

module _ (lines : List Text) where
  abbrev pub collect_entry : RawEntry → Result Collected → Result Collected
  collect_entry no_map rest = err (errorf (codes "invalid setting type"))
  collect_entry (entry none v) rest = err (errorf (codes "invalid key type"))
  collect_entry (entry (some k) v) rest =
      if is_valid_bacalhau_key lines k
      then elim v [
        | none ↦ err (errorf (codes "missing Value for key"))
        | some w ↦ map_result (good_first (k, w)) rest
      ]
      else map_result (bad_first k) rest

  unfoldable pub collect_entries : List RawEntry → Result Collected
  collect_entries [] = ok ([], [])
  collect_entries (e ∷ es) = collect_entry e (collect_entries es)

  unfoldable pub collect_by_name : List (Text × RawValue) → Collected
  collect_by_name [] = ([], [])
  collect_by_name ((k, v) ∷ ss) =
      let rest = collect_by_name ss in
      if is_valid_bacalhau_key lines k then good_first (k, v) rest else bad_first k rest

  unfoldable pub as_strings : List (Text × Text) → List (Text × RawValue)
  as_strings [] = []
  as_strings ((k, v) ∷ ss) = (k, string v) ∷ as_strings ss

  -- The first switch.
  unfoldable pub collect : RawSettings → Result Collected
  collect unset = ok ([], [])
  collect (entries es) = collect_entries es
  collect (by_name ss) = ok (collect_by_name ss)
  collect (strings_by_name ss) = ok (collect_by_name (as_strings ss))
  collect other = err (errorf (codes "invalid bacalhau_settings type"))

-- The loop that makes scalars strings.
abbrev pub normalize : RawValue → Result RawValue
normalize (string t) = ok (string t)
normalize (bool t) = ok (string t)
normalize (int t) = ok (string t)
normalize (float t) = ok (string t)
normalize (list items) = ok (list items)
normalize mapping = ok mapping
normalize unknown = err (errorf (codes "invalid value type for key"))

abbrev item_first : RawItem → Result (List Text) → Result (List Text)
item_first no_text rest = err (errorf (codes "invalid value type in slice for key"))
item_first (text t) rest = map_result (◌∷◌ t) rest

unfoldable pub all_texts : List RawItem → Result (List Text)
all_texts [] = ok []
all_texts (i ∷ is) = item_first i (all_texts is)

-- The last loop; the loop before it has left no scalar but strings.
abbrev pub finish : RawValue → Result SettingValue
finish (string t) = ok (one t)
finish (list items) = map_result several (all_texts items)
finish (bool t) = ok (one t)
finish (int t) = ok (one t)
finish (float t) = ok (one t)
finish mapping = err (errorf (codes "invalid value type for key"))
finish unknown = err (errorf (codes "invalid value type for key"))

abbrev pub pair_first :
    {B : Type 0} → Text → Result B → Result (List (Text × B)) → Result (List (Text × B))
pair_first k (err e) rest = err e
pair_first k (ok v) rest = map_result (◌∷◌ (k, v)) rest

-- A loop over the settings, which an error ends.
unfoldable pub for_each :
    {B : Type 0} → (RawValue → Result B) → List (Text × RawValue) → Result (List (Text × B))
for_each f [] = ok []
for_each f ((k, v) ∷ ss) = pair_first k (f v) (for_each f ss)

abbrev pub finish_all : Result (List (Text × RawValue)) → Result (List (Text × SettingValue))
finish_all (err e) = err e
finish_all (ok ss) = for_each finish ss

-- What is done behind the first switch.
abbrev pub process : Result Collected → Result (List (Text × SettingValue))
process (err e) = err e
process (ok (good, [])) = finish_all (for_each normalize good)
process (ok (good, k ∷ bad)) = err (errorf (codes "invalid bacalhau_settings keys"))

-- `ReadBacalhauSettingsFromViper`
unfoldable pub read_bacalhau_settings :
    List Text → RawSettings → Result (List (Text × SettingValue))
read_bacalhau_settings lines raw = process (collect lines raw)
