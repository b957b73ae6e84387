-- ===== src/Install/Conditions.antt =====
-- install_steps/registry.py: the conditions that more than one setting decides.
use arch_installer.Prelude.{Bool, true, false, not, ◌&&◌}
use arch_installer.Errors.{Result, ok, ◌>>=◌}
use arch_installer.Config.Value.{text, truthy, py_eq}
use arch_installer.Install.Wiring.{StepCondition}

-- Python's `or` and `and`: the second value is looked up only where the first leaves it open
unfoldable pub either : Bool → Result Bool → Result Bool
either true rest = ok true
either false rest = rest

unfoldable pub both : Bool → Result Bool → Result Bool
both true rest = rest
both false rest = ok false

unfoldable pub mirrors_declared : StepCondition
unfolding either
mirrors_declared value = do
  use_reflector ← value "system.mirrors.use_reflector"
  either (truthy use_reflector) (value "system.mirrors.mirrors" >>= λ v. ok (truthy v))

unfoldable pub uses_proprietary_nvidia_driver : StepCondition
uses_proprietary_nvidia_driver value = do
  vendor ← value "gpu.vendor"
  driver ← value "gpu.driver"
  ok (py_eq vendor (text "nvidia") && not (py_eq driver (text "nouveau")))

unfoldable pub recovery_system_wanted : StepCondition
unfolding both
recovery_system_wanted value = do
  enabled ← value "usb_boot.enabled"
  both (truthy enabled) (value "usb_boot.recovery_system" >>= λ v. ok (truthy v))

unfoldable pub snapshot_notifications_wanted : StepCondition
unfolding both
snapshot_notifications_wanted value = do
  enabled ← value "notifications.enabled"
  both (truthy enabled) (value "snapper.enabled" >>= λ v. ok (truthy v))
