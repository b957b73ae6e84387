-- ===== src/Executors/System.antt =====
-- executors/system.py: `SystemStepExecutor` and the texts of the files that it writes.
use arch_installer.Prelude.{
  String, ◌<>◌, ◌==◌, ◌||◌, not, List, [], ◌∷◌, ◌++◌, keep, join, split_words, distinct, sort_texts,
  if◌then◌else◌,
}
use arch_installer.Core.Commands.{chroot, files}
use arch_installer.Core.Commands.Chroot
use arch_installer.Core.Commands.Files
use arch_installer.Core.Exec.{
  Exec, Done, pure, attempt, do_run, do_attempt, feed, succeeds, for_each, ◌>>=◌, ◌>>◌,
}
use arch_installer.Config.Models.System.{LocaleConfig, full_locale}
use arch_installer.Config.Models.{InstallerConfig}
use arch_installer.Executors.Base.{write_file}

unfoldable pub hosts_file : String → String
hosts_file hostname =
    "127.0.0.1   localhost\n::1         localhost\n127.0.1.1   " <> hostname <> ".localdomain "
    <> hostname <> "\n"

-- the line of a category, if it differs from the main locale
unfoldable pub category_line : String → String → String → List String
category_line full variable value =
    if value == "" || value == full then [] else (variable <> "=" <> value) ∷ []

unfoldable pub locale_conf : LocaleConfig → String
locale_conf locale =
    let full = full_locale locale in
    join "\n" (
      ("LANG=" <> full)
      ∷ (category_line full "LC_MONETARY" locale.monetary
          ++ (category_line full "LC_TIME" locale.time_format
              ++ (category_line full "LC_NUMERIC" locale.numeric
                  ++ category_line full "LC_PAPER" locale.paper))))
    <> "\n"

unfoldable pub locales_to_generate : LocaleConfig → List String
locales_to_generate locale = sort_texts (
    keep (λ candidate. not (candidate == ""))
      (distinct (
        full_locale locale
        ∷ locale.monetary
        ∷ locale.time_format
        ∷ locale.numeric
        ∷ locale.paper
        ∷ [])))

unfoldable pub user_groups : String → Exec (List String)
user_groups username = do
  result ← attempt (chroot (Chroot.user_groups username))
  pure (split_words result.stdout)

unfoldable pub enable_locale : String → Exec Done
enable_locale locale =
    do_attempt (files (Files.edit ("s/^#\\s*\\(" <> locale <> "\\s\\)/\\1/") "/mnt/etc/locale.gen"))

unfoldable pub create_user : InstallerConfig → Exec Done
create_user config = do
  let user = config.system.user
  exists ← succeeds (chroot (Chroot.find_user user.name))
  if exists then pure tt else (do
    do_run (chroot (Chroot.add_user (join "," user.groups) user.name))
    do_attempt
        (files (Files.edit "s/^#\\s*\\(%wheel ALL=(ALL:ALL) ALL\\)/\\1/" "/mnt/etc/sudoers")))
  feed (chroot Chroot.set_passwords) (user.name <> ":" <> config.credentials.user_password)

unfoldable pub execute : InstallerConfig → Exec Done
execute config = do
  let system = config.system
  write_file "/mnt/etc/hostname" (system.hostname <> "\n")
  write_file "/mnt/etc/hosts" (hosts_file system.hostname)
  do_run (files (Files.remove "/mnt/etc/localtime"))
  do_run (files (Files.link ("/usr/share/zoneinfo/" <> system.timezone) "/mnt/etc/localtime"))
  do_attempt (chroot Chroot.store_clock)
  for_each (locales_to_generate system.locale) enable_locale
  do_attempt (chroot Chroot.generate_locales)
  write_file "/mnt/etc/locale.conf" (locale_conf system.locale)
  write_file "/mnt/etc/vconsole.conf" ("KEYMAP=" <> system.locale.keymap <> "\n")
  create_user config
