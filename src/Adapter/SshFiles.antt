-- ===== src/Adapter/SshFiles.antt =====
-- apps/cloud-api/src/ssh/ssh.service.ts: the files for the SSH server of a sandbox. A file that is
-- missing is empty.
use microsanbox_cloud.Prelude.{
  Bool, List, [], ◌∷◌, ◌++◌, map, Option, none, some, Text, codes, text_eq, keep, truthy,
  if◌then◌else◌,
}
use microsanbox_cloud.Text.{trim, join, ends_with}
use microsanbox_cloud.Effects.{Eff, pure, ◌>>=◌, when◌then◌else◌}
use microsanbox_cloud.Paths.{dirname, normalize, join_path}
use microsanbox_cloud.Adapter.Library.{Library}

pub data GuestArch : Type 0 where
  aarch64 x86_64 : GuestArch

-- The directory that the constructor computes from the directory of the process.
unfoldable pub binary_dir : Text → Text
unfolding dirname normalize
binary_dir cwd =
    let root = if ends_with (codes "/apps/cloud-api") cwd then dirname (dirname cwd) else cwd in
    join_path (root ∷ codes "data" ∷ codes "ssh" ∷ [])

unfoldable pub guest_arch : Text → GuestArch
guest_arch arch = if text_eq arch (codes "arm64") then aarch64 else x86_64

abbrev arch_name : GuestArch → Text
arch_name aarch64 = codes "arm64"
arch_name x86_64 = codes "amd64"

unfoldable pub get_binary_path : Text → GuestArch → Text
unfolding binary_dir
get_binary_path cwd arch =
    join_path (binary_dir cwd ∷ (codes "inject-sshd.linux-" ++ arch_name arch) ∷ [])

-- `arch ?? this.guestArch`
unfoldable pub target_arch : Text → Option GuestArch → GuestArch
unfolding guest_arch
target_arch machine none = guest_arch machine
target_arch machine (some arch) = arch

unfoldable pub build_authorized_keys_content : List Text → Text
build_authorized_keys_content keys = join (10 ∷ []) (keep truthy (map trim keys)) ++ 10 ∷ []

module _ {W H B : Type 0} (lib : Library W H B) where
  unfoldable pub read_or_empty : Text → Eff W Text
  read_or_empty path w = (when lib.exists path w then lib.read_file path else pure []) w

  unfoldable pub read_binary : Option GuestArch → Eff W Text
  unfolding get_binary_path target_arch read_or_empty
  read_binary arch = read_or_empty (get_binary_path lib.cwd (target_arch lib.arch arch))

  unfoldable pub binary_exists : Option GuestArch → W → Bool
  unfolding get_binary_path target_arch
  binary_exists arch = lib.exists (get_binary_path lib.cwd (target_arch lib.arch arch))

  unfoldable pub read_gateway_public_key : Eff W Text
  unfolding binary_dir read_or_empty
  read_gateway_public_key = do
    key ← read_or_empty (join_path (binary_dir lib.cwd ∷ codes "gateway-key.pub" ∷ []))
    pure (trim key)
