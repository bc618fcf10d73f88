-- ===== src/Settings/Parse.antt =====
-- The settings that are read, described entry by entry.
use andaime.Base.{
  List, [], ◌∷◌, Option, none, some, Text, if◌then◌else◌, ◌≡◌, refl, ap, ◌∙◌, arith, Bool-cases,
  inl, inr,
}
use andaime.Remote.{Result, ok, err}
use andaime.Settings.{
  RawItem, text, no_text, RawValue, RawEntry, entry, no_map, entries, SettingValue, one, several,
  Collected, good_first, bad_first, map_result, is_valid_bacalhau_key, collect_entry,
  collect_entries, collect, normalize, all_texts, for_each, finish_all, process,
  read_bacalhau_settings,
}

abbrev pub to_option : {A : Type 0} → Result A → Option A
to_option (ok a) = some a
to_option (err e) = none

abbrev pub cons_some : {A : Type 0} → Option A → Option (List A) → Option (List A)
cons_some none xs = none
cons_some (some x) none = none
cons_some (some x) (some xs) = some (x ∷ xs)

-- A list whose items are all strings.
abbrev pub texts_of : List RawItem → Option (List Text)
texts_of [] = some []
texts_of (no_text ∷ is) = none
texts_of (text t ∷ is) = cons_some (some t) (texts_of is)

abbrev pub several_of : Option (List Text) → Option SettingValue
several_of none = none
several_of (some ts) = some (several ts)

-- A scalar is its text, and a list of strings is that list; no other value is a setting.
abbrev pub value_of : RawValue → Option SettingValue
value_of (RawValue.string t) = some (one t)
value_of (RawValue.bool t) = some (one t)
value_of (RawValue.int t) = some (one t)
value_of (RawValue.float t) = some (one t)
value_of (RawValue.list items) = several_of (texts_of items)
value_of RawValue.mapping = none
value_of RawValue.unknown = none

abbrev pub keyed : Text → Option SettingValue → Option (Text × SettingValue)
keyed k none = none
keyed k (some v) = some (k, v)

-- An entry is a setting if it is a map with a valid key and with a value that is one.
abbrev pub setting_of : List Text → RawEntry → Option (Text × SettingValue)
setting_of lines (entry (some k) (some v)) =
    if is_valid_bacalhau_key lines k then keyed k (value_of v) else none
setting_of lines (entry (some k) none) = none
setting_of lines (entry none v) = none
setting_of lines no_map = none

abbrev pub settings_of : List Text → List RawEntry → Option (List (Text × SettingValue))
settings_of lines [] = some []
settings_of lines (e ∷ es) = cons_some (setting_of lines e) (settings_of lines es)

all_texts-texts_of : (is : List RawItem) → to_option (all_texts is) ≡ texts_of is
unfolding all_texts
all_texts-texts_of [] = refl
all_texts-texts_of (no_text ∷ is) = refl
all_texts-texts_of (text t ∷ is) = ground (arith, all_texts-texts_of is)

-- Both loops over one more setting.
two_loops : List (Text × RawValue) → Option (List (Text × SettingValue))
two_loops ss = to_option (finish_all (for_each normalize ss))

two_loops-cons :
    (k : Text) (v : RawValue) (ss : List (Text × RawValue))
    → two_loops ((k, v) ∷ ss) ≡ cons_some (keyed k (value_of v)) (two_loops ss)
unfolding two_loops for_each
two_loops-cons k (RawValue.string t) ss = ground arith
two_loops-cons k (RawValue.bool t) ss = ground arith
two_loops-cons k (RawValue.int t) ss = ground arith
two_loops-cons k (RawValue.float t) ss = ground arith
two_loops-cons k (RawValue.list items) ss = ground (arith, all_texts-texts_of items)
two_loops-cons k RawValue.mapping ss = ground arith
two_loops-cons k RawValue.unknown ss = ground arith

cons_some-none : {A : Type 0} (o : Option A) → none ≡ cons_some o none
cons_some-none none = refl
cons_some-none (some x) = refl

process-good_first :
    (k : Text) (v : RawValue) (r : Result Collected)
    → to_option (process (map_result (good_first (k, v)) r))
      ≡ cons_some (keyed k (value_of v)) (to_option (process r))
process-good_first k v (err e) = cons_some-none (keyed k (value_of v))
process-good_first k v (ok (good, [])) = unfold two_loops in two_loops-cons k v good
process-good_first k v (ok (good, b ∷ bad)) = cons_some-none (keyed k (value_of v))

process-bad_first :
    (k : Text) (r : Result Collected) → to_option (process (map_result (bad_first k) r)) ≡ none
process-bad_first k (err e) = refl
process-bad_first k (ok (good, bad)) = refl

process-collect_entry :
    (lines : List Text) (e : RawEntry) (r : Result Collected)
    → to_option (process (collect_entry lines e r))
      ≡ cons_some (setting_of lines e) (to_option (process r))
process-collect_entry lines no_map r = refl
process-collect_entry lines (entry none v) r = refl
process-collect_entry lines (entry (some k) none) r = ground arith
process-collect_entry lines (entry (some k) (some v)) r =
    elim (Bool-cases (is_valid_bacalhau_key lines k)) [
      | inl e ↦ rw e (process-good_first k v r)
      | inr e ↦ rw e (process-bad_first k r)
    ]

-- A list of entries is read exactly as it is described entry by entry: the result is the list of
-- all settings in their order, and there is an error if any one entry is not a setting, be it by
-- its shape, its key or its value.
pub read_bacalhau_settings-settings_of :
    (lines : List Text) (es : List RawEntry)
    → to_option (read_bacalhau_settings lines (entries es)) ≡ settings_of lines es
unfolding read_bacalhau_settings collect collect_entries for_each
read_bacalhau_settings-settings_of lines [] = refl
read_bacalhau_settings-settings_of lines (e ∷ es) =
    process-collect_entry lines e (collect_entries lines es)
    ∙ ap (cons_some (setting_of lines e)) (read_bacalhau_settings-settings_of lines es)
