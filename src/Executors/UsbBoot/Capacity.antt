-- ===== src/Executors/UsbBoot/Capacity.antt =====
-- executors/usb_boot.py: the size of the recovery partition.
use arch_installer.Prelude.{
  ◌≡◌, ap, ◌∙◌, ℕ, ◌-◌, ◌+◌, ◌*◌, ◌/◌, ◌≤◌, arith, pos, pos_part, ◌+ℤ◌, floor_div, ceil_div,
}
use arch_installer.Executors.UsbBoot.Drive.{mebibyte, recovery_partition_size_mb}

pos_add : (a b : ℕ) → pos a +ℤ pos b ≡ pos (a + b)
unfolding ◌+ℤ◌
pos_add a b = ground arith

size_of_image :
    (bytes : ℕ)
    → recovery_partition_size_mb (pos bytes)
      ≡ pos ((bytes + mebibyte - 1) / mebibyte + (bytes + mebibyte - 1) / mebibyte / 10 + 64)
unfolding recovery_partition_size_mb ceil_div floor_div
size_of_image bytes =
    ap (λ a. a +ℤ pos 64)
      (pos_add ((bytes + mebibyte - 1) / mebibyte) ((bytes + mebibyte - 1) / mebibyte / 10))
    ∙ pos_add ((bytes + mebibyte - 1) / mebibyte + (bytes + mebibyte - 1) / mebibyte / 10) 64

-- The recovery partition holds the image and a tenth of it more, and 63 MiB.
pub recovery_partition_size_mb-fits :
    (bytes : ℕ)
    → 11 * bytes + 631 * mebibyte
      ≤ 10 * (pos_part (recovery_partition_size_mb (pos bytes)) * mebibyte)
recovery_partition_size_mb-fits bytes = rw (size_of_image bytes) (omega arith)
