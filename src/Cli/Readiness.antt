-- ===== src/Cli/Readiness.antt =====
-- cli.py: when an installation may start.
use arch_installer.Prelude.{
  ◌≡◌, refl, ◌≢◌, ◌↔◌, ◌==◌, eq_iff, arith, String, Bool, true, false, not, ◌&&◌, List, [], ◌∷◌,
  ◌++◌, if◌then◌else◌,
}
use arch_installer.Errors.{ok}
use arch_installer.Config.Models.Enums.{leaves_old_content}
use arch_installer.Config.Models.{InstallerConfig}
use arch_installer.Cli.{
  problem_if, drive_problems, usb_boot_problems, install_problems, refuse_problems,
  validate_for_install,
}

-- The drive of a USB boot is named and is not the target disk, a recovery system has its image, and
-- the disk of the ciphertext is filled with random data: by a migration, by a secure wipe, or before.
pub record IsUsbReady (config : InstallerConfig) : Type 0 where
  pub has_drive : config.usb_boot.device ≢ ""
  pub is_other_drive : config.usb_boot.device ≢ config.storage.target_disk
  pub has_image : config.usb_boot.recovery_system ≡ true → config.usb_boot.iso_path ≢ ""
  pub is_filled :
      config.migration.enabled ≡ false → leaves_old_content config.storage.wipe_method ≡ false

-- The passwords and the target disk are given, also the old password where data is migrated, and a
-- USB boot drive is ready where one is used.
pub record IsReady (config : InstallerConfig) : Type 0 where
  pub has_luks_password : config.credentials.luks_password ≢ ""
  pub has_user_password : config.credentials.user_password ≢ ""
  pub has_target_disk : config.storage.target_disk ≢ ""
  pub has_source_password :
      config.migration.enabled ≡ true → config.credentials.source_luks_password ≢ ""
  pub usb : config.usb_boot.enabled ≡ true → IsUsbReady config

-- a list of problems that starts with a tested one is empty
guard→ :
    (b : Bool) (problem : String) (rest : List String)
    → problem_if b problem ++ rest ≡ []
    → (b ≡ false) × (rest ≡ [])
guard→ true problem rest h = cc
guard→ false problem rest h = (refl, h)

guard← :
    (b : Bool) (problem : String) (rest : List String)
    → b ≡ false
    → rest ≡ []
    → problem_if b problem ++ rest ≡ []
guard← true problem rest e h = cc
guard← false problem rest e h = h

eq→≢ : (x y : String) → x == y ≡ false → x ≢ y
eq→≢ x y h e = ground (arith, eq_iff x y)

≢→eq : (x y : String) → x ≢ y → x == y ≡ false
≢→eq x y h = ground (arith, eq_iff x y)

drive→ :
    (b c : Bool) (p q : String) (rest : List String)
    → (if b then p ∷ [] else problem_if c q) ++ rest ≡ []
    → (b ≡ false) × (c ≡ false) × (rest ≡ [])
drive→ true c p q rest h = cc
drive→ false true p q rest h = cc
drive→ false false p q rest h = (refl, refl, h)

drive← :
    (b c : Bool) (p q : String) (rest : List String)
    → b ≡ false
    → c ≡ false
    → rest ≡ []
    → (if b then p ∷ [] else problem_if c q) ++ rest ≡ []
drive← true c p q rest e k h = cc
drive← false true p q rest e k h = cc
drive← false false p q rest e k h = h

last→ : (b : Bool) (problem : String) → problem_if b problem ≡ [] → b ≡ false
last→ true problem h = cc
last→ false problem h = refl

last← : (b : Bool) (problem : String) → b ≡ false → problem_if b problem ≡ []
last← true problem h = cc
last← false problem h = refl

both→ : (a b : Bool) → a && b ≡ false → a ≡ true → b ≡ false
both→ a b h e = ground arith

both← : (a b : Bool) → (a ≡ true → b ≡ false) → a && b ≡ false
both← true b h = h refl
both← false b h = refl

when→ :
    (b : Bool) (problems : List String)
    → (if b then problems else []) ≡ []
    → b ≡ true
    → problems ≡ []
when→ true problems h e = h
when→ false problems h e = cc

when← :
    (b : Bool) (problems : List String)
    → (b ≡ true → problems ≡ [])
    → (if b then problems else []) ≡ []
when← true problems h = h refl
when← false problems h = refl

not-false : (b : Bool) → b ≡ false → not b ≡ true
not-false b h = ground arith

not-true : (b : Bool) → not b ≡ true → b ≡ false
not-true b h = ground arith

usb_boot_problems-none :
    (config : InstallerConfig) → usb_boot_problems config ≡ [] → IsUsbReady config
unfolding usb_boot_problems drive_problems
usb_boot_problems-none config h =
    let (no_drive, same, h1) = drive→ (config.usb_boot.device == "") _ _ _ _ h in
    let (image, h2) =
      guard→ (config.usb_boot.recovery_system && config.usb_boot.iso_path == "") _ _ h1 in
    let old = last→ _ _ h2 in
    record {
      has_drive = eq→≢ _ _ no_drive;
      is_other_drive = eq→≢ _ _ same;
      has_image = λ e. eq→≢ _ _ (both→ _ _ image e);
      is_filled = λ e. both→ _ _ old (not-false _ e);
    }

none-usb_boot_problems :
    (config : InstallerConfig) → IsUsbReady config → usb_boot_problems config ≡ []
unfolding usb_boot_problems drive_problems
none-usb_boot_problems config r =
    drive← (config.usb_boot.device == "") _ _ _ _ (≢→eq _ _ r.has_drive) (≢→eq _ _ r.is_other_drive)
      (guard← _ _ _ (both← _ _ (λ e. ≢→eq _ _ (r.has_image e)))
        (last← _ _ (both← _ _ (λ e. r.is_filled (not-true _ e)))))

install_problems-none : (config : InstallerConfig) → install_problems config ≡ [] → IsReady config
unfolding install_problems
install_problems-none config h =
    let (luks, h1) = guard→ (config.credentials.luks_password == "") _ _ h in
    let (user, h2) = guard→ (config.credentials.user_password == "") _ _ h1 in
    let (disk, h3) = guard→ (config.storage.target_disk == "") _ _ h2 in
    let (source, h4) =
      guard→ (config.migration.enabled && config.credentials.source_luks_password == "") _ _ h3 in
    record {
      has_luks_password = eq→≢ _ _ luks;
      has_user_password = eq→≢ _ _ user;
      has_target_disk = eq→≢ _ _ disk;
      has_source_password = λ e. eq→≢ _ _ (both→ _ _ source e);
      usb = λ e. usb_boot_problems-none config (when→ _ _ h4 e);
    }

none-install_problems : (config : InstallerConfig) → IsReady config → install_problems config ≡ []
unfolding install_problems
none-install_problems config r = guard← _ _ _ (≢→eq _ _ r.has_luks_password) (
    guard← _ _ _ (≢→eq _ _ r.has_user_password) (
      guard← _ _ _ (≢→eq _ _ r.has_target_disk) (
        guard← _ _ _ (both← _ _ (λ e. ≢→eq _ _ (r.has_source_password e)))
          (when← _ _ (λ e. none-usb_boot_problems config (r.usb e))))))

accepts→ : (problems : List String) → refuse_problems problems ≡ ok tt → problems ≡ []
unfolding refuse_problems
accepts→ [] h = refl
accepts→ (problem ∷ problems) h = cc

accepts← : (problems : List String) → problems ≡ [] → refuse_problems problems ≡ ok tt
unfolding refuse_problems
accepts← [] h = refl
accepts← (problem ∷ problems) h = cc

-- The installation starts exactly if the configuration is ready for it.
pub validate_for_install-IsReady :
    (config : InstallerConfig) → (validate_for_install config ≡ ok tt) ↔ IsReady config
unfolding validate_for_install
validate_for_install-IsReady config = (
  λ h. install_problems-none config (accepts→ _ h),
  λ r. accepts← _ (none-install_problems config r),
)
