-- ===== src/Settings/Examples.antt =====
-- A list of two settings.
use andaime.Base.{List, [], ◌∷◌, some, Text, codes, same, ◌≡◌, refl}
use andaime.Settings.{
  text, RawValue, RawEntry, entry, entries, one, several, collect, collect_entries, for_each,
  all_texts, read_bacalhau_settings,
}
use andaime.Utils.{mem}
use andaime.Remote.{ok}
use andaime.Settings.Parse.{to_option, settings_of, read_bacalhau_settings-settings_of}

abbrev key_lines : List Text
key_lines = codes "logging.level" ∷ codes "compute.labels" ∷ []

abbrev two_entries : List RawEntry
two_entries =
    entry (some (codes "logging.level")) (some (RawValue.string (codes "debug")))
    ∷ entry (some (codes "compute.labels"))
        (some (RawValue.list (text (codes "a") ∷ text (codes "b") ∷ [])))
    ∷ []

two_settings :
    read_bacalhau_settings key_lines (entries two_entries)
    ≡ ok (
        (codes "logging.level", one (codes "debug"))
        ∷ (codes "compute.labels", several (codes "a" ∷ codes "b" ∷ []))
        ∷ [])
unfolding read_bacalhau_settings collect collect_entries for_each all_texts mem same
two_settings = refl

read_bacalhau_settings-settings_of_example :
    to_option (read_bacalhau_settings key_lines (entries two_entries))
    ≡ settings_of key_lines two_entries
read_bacalhau_settings-settings_of_example =
    read_bacalhau_settings-settings_of key_lines two_entries
