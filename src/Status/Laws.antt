-- ===== src/Status/Laws.antt =====
-- What `UpdateOnlyChangedStatus` does to the message of a status.
use andaime.Base.{
  ℕ, ==_refl, Bool, true, false, [], ◌∷◌, ◌++◌, Text, codes, is_empty, contains, has_prefix, ◌≡◌,
  refl, ◌≢◌, ap, sym, ◌∙◌, inl, inr, Bool-cases, arith,
}
use andaime.Types.{ProvisioningStage}
use andaime.Status.{
  DisplayStatus, stage_text, label, changed, with_stage, with_spot, update_only_changed_status,
}

has_prefix-append : (p s : Text) → has_prefix (p ++ s) p ≡ true
unfolding has_prefix
has_prefix-append [] [] = refl
has_prefix-append [] (c ∷ s) = refl
has_prefix-append (c ∷ p) s = ground (arith, ==_refl c, has_prefix-append p s)

contains_of_prefix : (s p : Text) → has_prefix s p ≡ true → contains s p ≡ true
unfolding contains
contains_of_prefix [] p h = h
contains_of_prefix (c ∷ s) p h = ground arith

-- Text put in front does not hide what is found.
contains-append : (xs s p : Text) → contains s p ≡ true → contains (xs ++ s) p ≡ true
unfolding contains
contains-append [] s p h = h
contains-append (x ∷ xs) s p h = ground (arith, contains-append xs s p h)

contains-with_stage :
    (stage : ProvisioningStage) (m : Text) → contains (with_stage stage m) (stage_text stage) ≡ true
contains-with_stage stage m =
    let t = stage_text stage in
    let here : contains (t ++ (codes "] " ++ m)) t ≡ true =
      contains_of_prefix (t ++ (codes "] " ++ m)) t (has_prefix-append t (codes "] " ++ m)) in
    ground (arith, contains-append (codes "[") (t ++ (codes "] " ++ m)) t here)

contains-with_spot :
    (b : Bool) (m p : Text) → contains m p ≡ true → contains (with_spot b m) p ≡ true
contains-with_spot b m p h = ground (arith, contains-append (codes "[Spot] ") m p h)

label-contains :
    (stage : ProvisioningStage) (spot : Bool) (m : Text)
    → is_empty (stage_text stage) ≡ false
    → contains (label stage spot m) (stage_text stage) ≡ true
unfolding label
label-contains stage spot m h =
    rw h (
      contains-with_spot spot (with_stage stage m) (stage_text stage) (contains-with_stage stage m))

stage_text_set :
    (stage : ProvisioningStage)
    → stage ≢ ProvisioningStage.unset
    → is_empty (stage_text stage) ≡ false
unfolding stage_text
stage_text_set ProvisioningStage.unset h = absurd (h refl)
stage_text_set _ h = refl

spot_prefix : (m : Text) → has_prefix (codes "[Spot] " ++ m) (codes "[Spot]") ≡ true
unfolding has_prefix
spot_prefix m = refl

with_spot-has_prefix : (m : Text) → has_prefix (with_spot true m) (codes "[Spot]") ≡ true
with_spot-has_prefix m = ground (arith, spot_prefix m)

with_spot-with_spot : (b : Bool) (m : Text) → with_spot b (with_spot b m) ≡ with_spot b m
with_spot-with_spot b m = ground (arith, spot_prefix m)

label_staged :
    (stage : ProvisioningStage) (spot : Bool) (m : Text)
    → is_empty (stage_text stage) ≡ false
    → label stage spot m ≡ with_spot spot (with_stage stage m)
unfolding label
label_staged stage spot m h = rw h

label-label :
    (stage : ProvisioningStage) (spot : Bool) (m : Text)
    → label stage spot (label stage spot m) ≡ label stage spot m
label-label stage spot m = elim (Bool-cases (is_empty (stage_text stage))) [
  | inl e ↦ unfold label in rw e (with_spot-with_spot spot m)
  | inr e ↦
      let staged = label_staged stage spot m e in
      let keeps : with_stage stage (label stage spot m) ≡ label stage spot m =
        rw (label-contains stage spot m e) in
      label_staged stage spot (label stage spot m) e
      ∙ ap (with_spot spot) (keeps ∙ staged)
      ∙ with_spot-with_spot spot (with_stage stage m)
      ∙ sym staged
]

-- The same update, applied again at a later time, changes nothing: the stage and the "[Spot]"
-- mark are put in front of a message once. The clock is past the zero time.
pub update_only_changed_status_once :
    (now later : ℕ) (s n : DisplayStatus)
    → now ≢ 0
    → update_only_changed_status later (update_only_changed_status now s n) n
      ≡ update_only_changed_status now s n
unfolding update_only_changed_status
update_only_changed_status_once now later s n h =
    ground (arith, label-label n.stage n.spot_instance (changed s.status_message n.status_message))

-- After an update with a stage the message names that stage; after an update for a spot instance
-- it also begins with "[Spot]".
pub update_only_changed_status_labels :
    (now : ℕ) (s n : DisplayStatus)
    → let message = (update_only_changed_status now s n).status_message in
      (n.stage ≢ ProvisioningStage.unset → contains message (stage_text n.stage) ≡ true)
      × (n.spot_instance ≡ true → has_prefix message (codes "[Spot]") ≡ true)
unfolding update_only_changed_status
update_only_changed_status_labels now s n = (
  λ h.
      label-contains n.stage n.spot_instance (changed s.status_message n.status_message)
        (stage_text_set n.stage h),
  λ h. rw h (unfold label in with_spot-has_prefix _),
)
