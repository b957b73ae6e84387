-- ===== src/Executors/Firewall.antt =====
-- executors/firewall.py: `FirewallStepExecutor`. The ufw commands run inside arch-chroot.
pub mod Guard
use arch_installer.Prelude.{
  String, ◌<>◌, ◌==◌, Bool, true, false, List, [], ◌∷◌, replace, show_int, if◌then◌else◌,
}
use arch_installer.Core.Commands.{chroot, files}
use arch_installer.Core.Commands.Chroot
use arch_installer.Core.Commands.Files.{edit}
use arch_installer.Core.Exec.{Exec, Done, pure, do_run, do_attempt, succeeds, for_each, ◌>>=◌, ◌>>◌}
use arch_installer.Config.Models.Enums.{firewall_policy_text}
use arch_installer.Config.Models.Features.{FirewallAllowRule, FirewallSshConfig}
use arch_installer.Config.Models.{InstallerConfig}

abbrev pub ufw_conf : String
ufw_conf = "/mnt/etc/ufw/ufw.conf"

abbrev pub ufw_before_rules : String
ufw_before_rules = "/mnt/etc/ufw/before.rules"

abbrev pub inbound_icmp_accept_rules : List String
inbound_icmp_accept_rules =
    "-A ufw-before-input -p icmp --icmp-type destination-unreachable -j ACCEPT"
    ∷ "-A ufw-before-input -p icmp --icmp-type time-exceeded -j ACCEPT"
    ∷ "-A ufw-before-input -p icmp --icmp-type parameter-problem -j ACCEPT"
    ∷ "-A ufw-before-input -p icmp --icmp-type echo-request -j ACCEPT" ∷ []

unfoldable pub escaped_rule : String → String
escaped_rule rule = replace "-" "\\-" (replace "." "\\." (replace "/" "\\/" rule))

abbrev pub enabled_script : Bool → String
enabled_script enabled = "s/^ENABLED=.*/ENABLED=" <> (if enabled then "yes" else "no") <> "/"

unfoldable pub set_enabled_on_boot : Bool → Exec Done
set_enabled_on_boot enabled = do_run (files (edit (enabled_script enabled) ufw_conf))

unfoldable pub allow_ssh : FirewallSshConfig → Exec Done
allow_ssh ssh = do
  if ssh.allowed_from == ""
      then do_run (chroot (Chroot.allow (show_int ssh.port <> "/tcp")))
      else do_run (chroot (Chroot.allow_from ssh.allowed_from ssh.port))
  do_run (chroot (Chroot.enable_unit "sshd.service"))

unfoldable pub block_rule : String → Exec Done
block_rule rule = do_attempt (files (edit ("/" <> escaped_rule rule <> "/d") ufw_before_rules))

unfoldable pub allow_rule : FirewallAllowRule → Exec Done
allow_rule rule = do_run (chroot (Chroot.allow (show_int rule.port <> "/" <> rule.protocol)))

-- what is run while the flag is off
unfoldable pub configure : InstallerConfig → Exec Done
configure config = do
  let firewall = config.firewall
  do_run
      (chroot (Chroot.default_policy "incoming" (firewall_policy_text firewall.default_incoming)))
  do_run
      (chroot (Chroot.default_policy "outgoing" (firewall_policy_text firewall.default_outgoing)))
  if firewall.logging then do_run (chroot Chroot.firewall_logging) else pure tt
  if firewall.block_icmp then for_each inbound_icmp_accept_rules block_rule else pure tt
  if firewall.ssh.enabled then allow_ssh firewall.ssh else pure tt
  for_each firewall.allow_rules allow_rule
  do_run (chroot (Chroot.enable_unit "ufw.service"))

unfoldable pub ensure_ufw : Exec Done
ensure_ufw = do
  installed ← succeeds (chroot (Chroot.query_package "ufw"))
  if installed then pure tt else do_run (chroot (Chroot.install_package "ufw"))

unfoldable pub execute : InstallerConfig → Exec Done
execute config = do
  ensure_ufw
  set_enabled_on_boot false
  configure config
  set_enabled_on_boot true
