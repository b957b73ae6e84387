-- ===== src/Install/Choices.antt =====
-- install_steps/registry.py: the choices that the questions offer.
use arch_installer.Prelude.{
  String, ◌<>◌, List, [], ◌∷◌, map, ℕ, eqb, ltb, pos, true, show_nat, if◌then◌else◌, ◌/◌, ◌%◌, zero,
  suc,
}
use arch_installer.Config.Value.{Value, bool, int, text}
use arch_installer.Install.Questions.{Choice, Disk}

abbrev choice : String → String → Choice
choice value label = record { value = text value; label = label }

abbrev pub wipe_choices : List Choice
wipe_choices =
    choice "quick" "Quick wipe (partition table only)"
    ∷ choice "secure" "Secure wipe (random fill - slow)"
    ∷ choice "discard" "SSD discard (blkdiscard - fast)"
    ∷ choice "skip" "Skip wipe (recovering partial install)"
    ∷ []

abbrev pub cpu_choices : List Choice
cpu_choices = choice "intel" "Intel" ∷ choice "amd" "AMD" ∷ []

abbrev pub gpu_choices : List Choice
gpu_choices =
    choice "amd" "AMD (AMDGPU, open-source)"
    ∷ choice "intel" "Intel (integrated graphics)"
    ∷ choice "nvidia" "NVIDIA (proprietary/nouveau)"
    ∷ choice "none" "None (VM or generic)"
    ∷ []

abbrev pub nvidia_driver_choices : List Choice
nvidia_driver_choices =
    choice "nouveau" "Nouveau - open-source, limited features"
    ∷ choice "nvidia-open" "NVIDIA Open - official open kernel modules, RTX 20+"
    ∷ choice "nvidia-dkms" "NVIDIA DKMS - proprietary, best compatibility"
    ∷ []

abbrev pub desktop_choices : List Choice
desktop_choices =
    choice "gnome" "GNOME (Wayland, modern)"
    ∷ choice "kde" "KDE Plasma (Wayland, customizable)"
    ∷ choice "hyprland" "Hyprland (Wayland tiling WM)"
    ∷ []

unfoldable pub detected_disk_choices : Value → List Disk → List Choice
detected_disk_choices inherited_value disks =
    map (λ disk. choice disk.path (disk.path <> "  " <> disk.model <> "  (" <> disk.size <> ")"))
      disks

unfoldable pub swap_label : ℕ → String
swap_label size_mb =
    if eqb (size_mb % 1024) 0 then show_nat (size_mb / 1024) <> " GB" else show_nat size_mb <> " MB"

-- a size put in its place in an ascending list, once
unfoldable pub add_size : ℕ → List ℕ → List ℕ
add_size n [] = n ∷ []
add_size n (m ∷ ms) =
    let rest = add_size n ms in
    if ltb n m then n ∷ (m ∷ ms) else if eqb n m then m ∷ ms else m ∷ rest

abbrev pub swap_presets_mb : List ℕ
swap_presets_mb = 4096 ∷ 8192 ∷ 16384 ∷ 32768 ∷ 65536 ∷ []

unfoldable pub size_choices : List ℕ → List Choice
unfolding swap_label
size_choices sizes_mb =
    map (λ size_mb. record { value = int (pos size_mb); label = swap_label size_mb }) sizes_mb

-- `True` is the whole number 1, and shown as it is
unfoldable pub swap_size_choices : Value → List Choice
unfolding size_choices add_size
swap_size_choices (int (pos zero)) = size_choices swap_presets_mb
swap_size_choices (int (pos (suc n))) = size_choices (add_size (suc n) swap_presets_mb)
swap_size_choices (bool true) =
    record { value = bool true; label = "True MB" } ∷ size_choices swap_presets_mb
swap_size_choices v = size_choices swap_presets_mb
