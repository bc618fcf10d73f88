-- ===== src/Install/Restart.antt =====
-- What `RestartService` runs and reports.
use andaime.Base.{◌++◌, Option, none, some, Text, codes, ◌≡◌, refl, ◌↔◌}
use andaime.Remote.{Error, ok, Remote}
use andaime.Install.{restart_error, restart_service, of_error}

-- The hosts behind the three commands, one after the other, and their errors.
abbrev pub stopped : {W : Type 0} → Remote W → Text → W → Text × Option Error × W
stopped remote name w = remote.execute (codes "sudo systemctl stop " ++ name) w

abbrev pub started_again : {W : Type 0} → Remote W → Text → W → Text × Option Error × W
started_again remote name w =
    remote.execute (codes "sudo systemctl start " ++ name) (stopped remote name w).2

abbrev pub asked : {W : Type 0} → Remote W → Text → W → Text × Option Error × W
asked remote name w =
    remote.execute (codes "sudo systemctl status " ++ name) (started_again remote name w).2

restart_error_iff :
    (a b c : Option Error)
    → (of_error (restart_error a b c) ≡ ok tt) ↔ ((a ≡ none) × (b ≡ none) × (c ≡ none))
unfolding restart_error
restart_error_iff none none none = (λ _. (refl, refl, refl), λ _. refl)
restart_error_iff (some a) none none = (λ h. cc, λ h. cc)
restart_error_iff none (some b) none = (λ h. cc, λ h. cc)
restart_error_iff (some a) (some b) none = (λ h. cc, λ h. cc)
restart_error_iff none none (some c) = (λ h. cc, λ h. cc)
restart_error_iff (some a) none (some c) = (λ h. cc, λ h. cc)
restart_error_iff none (some b) (some c) = (λ h. cc, λ h. cc)
restart_error_iff (some a) (some b) (some c) = (λ h. cc, λ h. cc)

-- A restart runs all three commands, whatever the first ones gave, and it succeeds exactly when
-- none of the three gave an error.
pub restart_service_lem :
    {W : Type 0} (remote : Remote W) (name : Text) (w : W)
    → ((restart_service remote name w).1 ≡ (asked remote name w).2)
      × (((restart_service remote name w).0 ≡ ok tt) ↔ (
          ((stopped remote name w).1 ≡ none)
          × ((started_again remote name w).1 ≡ none)
          × ((asked remote name w).1 ≡ none)))
unfolding restart_service
restart_service_lem remote name w = (refl, restart_error_iff _ _ _)
