-- ===== src/Core/Commands/Files.antt =====
-- The commands that change files on the target or the live system. What `cat > path` writes is the
-- input of the command, not part of its text.
use Prim.Native.Char.{code}
use arch_installer.Prelude.{
  String, ◌<>◌, ◌&&◌, Bool, true, false, eqb, List, [], ◌∷◌, join, ℤ, show_int, if◌then◌else◌,
}

pub data FileCommand : Type 0 where
  write make_directory remove : String → FileCommand
  install_directory copy_on_write_off no_compression : String → FileCommand
  truncate make_swap swap_on sync_files : String → FileCommand
  install_script copy link : String → String → FileCommand
  set_mode : String → String → FileCommand
  edit : String → String → FileCommand
  allocate zero_fill : ℤ → String → FileCommand
  extract_image : String → String → String → FileCommand
  rank_mirrors : String → String → FileCommand
  pacstrap : List String → FileCommand
  append_fstab : String → FileCommand
  remove_tree remove_directory make_private_directory delete_subvolume : String → FileCommand
  copy_archive sync_directory : String → String → FileCommand
  -- the directory of the key and the certificate
  make_signing_key : String → FileCommand
  -- image, then that directory
  sign_image : String → String → FileCommand
  -- archive, directory, members
  pack_files : String → String → String → FileCommand

unfoldable pub file_text : FileCommand → String
file_text (write p) = "cat > " <> p
file_text (make_directory p) = "mkdir -p " <> p
file_text (remove p) = "rm -f " <> p
file_text (install_directory p) = "install -d -m 755 " <> p
file_text (copy_on_write_off p) = "chattr +C " <> p
file_text (no_compression p) = "btrfs property set " <> p <> " compression none"
file_text (truncate p) = "truncate -s 0 " <> p
file_text (make_swap p) = "mkswap " <> p
file_text (swap_on p) = "swapon " <> p
file_text (sync_files p) = "sync -f " <> p
file_text (install_script from to) = "install -m 755 " <> from <> " " <> to
file_text (copy from to) = "cp " <> from <> " " <> to
file_text (link to p) = "ln -sf " <> to <> " " <> p
file_text (set_mode mode p) = "chmod " <> mode <> " " <> p
file_text (edit script p) = "sed -i '" <> script <> "' " <> p
file_text (allocate mb p) = "fallocate -l " <> show_int mb <> "M " <> p
file_text (zero_fill mb p) = "dd if=/dev/zero of=" <> p <> " bs=1M count=" <> show_int mb
file_text (extract_image from to member) = "bsdtar -xf " <> from <> " -C " <> to <> " " <> member
file_text (rank_mirrors countries p) =
    "reflector --country '" <> countries <> "' --protocol https --latest 20 --sort rate --save "
    <> p
file_text (pacstrap packages) = "pacstrap -K /mnt --noconfirm " <> join " " packages
file_text (append_fstab p) = "genfstab -U /mnt >> " <> p
file_text (remove_tree p) = "rm -rf " <> p
file_text (remove_directory p) = "rmdir " <> p
file_text (make_private_directory p) = "mkdir -p -m 700 " <> p
file_text (delete_subvolume p) = "btrfs subvolume delete " <> p
file_text (copy_archive from to) = "cp -a " <> from <> " " <> to
file_text (sync_directory from to) = "rsync -a --delete " <> from <> "/ " <> to <> "/"
file_text (make_signing_key d) =
    "openssl req -x509 -newkey ec -pkeyopt ec_paramgen_curve:prime256v1 -nodes -keyout " <> d
    <> "/key.pem -out " <> d <> "/codesign.crt -days 36500 -subj '/CN=DALI recovery system' "
    <> "-addext keyUsage=critical,digitalSignature "
    <> "-addext extendedKeyUsage=codeSigning,emailProtection"
file_text (sign_image image d) =
    "openssl cms -sign -binary -noattr -in " <> image <> " -signer " <> d <> "/codesign.crt -inkey "
    <> d <> "/key.pem -outform DER -out " <> image <> ".cms.sig"
file_text (pack_files archive d members) =
    "bsdtar --format newc -cf " <> archive <> " -C " <> d <> " " <> members

-- the paths that a command writes to
abbrev pub written_paths : FileCommand → List String
written_paths (write p) = p ∷ []
written_paths (truncate p) = p ∷ []
written_paths (make_swap p) = p ∷ []
written_paths (install_script from to) = to ∷ []
written_paths (copy from to) = to ∷ []
written_paths (edit script p) = p ∷ []
written_paths (allocate mb p) = p ∷ []
written_paths (zero_fill mb p) = p ∷ []
written_paths (extract_image from to member) = to ∷ []
written_paths (rank_mirrors countries p) = p ∷ []
written_paths (append_fstab p) = p ∷ []
written_paths (copy_archive from to) = to ∷ []
written_paths (sync_directory from to) = to ∷ []
written_paths (make_signing_key d) = d ∷ []
written_paths (sign_image image d) = image ∷ []
written_paths (pack_files archive d members) = archive ∷ []
written_paths _ = []

-- `s.startswith(prefix)`
abbrev pub is_below : String → String → Bool
is_below String.[] s = true
is_below (String.◌∷◌ c prefix) String.[] = false
is_below (String.◌∷◌ c prefix) (String.◌∷◌ d s) = eqb (code c) (code d) && is_below prefix s

-- the paths that are device nodes
unfoldable pub device_paths : List String → List String
device_paths [] = []
device_paths (p ∷ ps) = let rest = device_paths ps in if is_below "/dev/" p then p ∷ rest else rest
