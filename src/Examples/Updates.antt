-- ===== src/Examples/Updates.antt =====
-- Updates at concrete inputs.
use hisohiso.Prelude.{true, false, none, some, [], ◌∷◌, ◌≡◌, refl}
use hisohiso.Text.{Text, units, text_eq}
use hisohiso.Prelude.{if◌then◌else◌}
use hisohiso.Updater.Version.{is_newer_version}
use hisohiso.Updater.Swap.{fine, refused, ReleaseInfo, Disk, World, Daemon, apply_update}
use hisohiso.Updater.Verified.{Kept, apply_update-Verified}

newer_10_9 : is_newer_version (units "v0.4.10") (units "0.4.9") ≡ true
unfolding is_newer_version hisohiso.Text.split_on hisohiso.Text.decimal
newer_10_9 = refl

newer_9_8 : is_newer_version (units "0.4.9") (units "0.3.12") ≡ true
unfolding is_newer_version hisohiso.Text.split_on hisohiso.Text.decimal
newer_9_8 = refl

abbrev binary_name : Text
binary_name = units "hisohiso-linux-x64"

abbrev digest : Text
digest = units "0123456789abcdef0123456789abcdef0123456789abcdef0123456789abcdef"

abbrev release : ReleaseInfo
release = record {
  tag = units "v0.4.10";
  assets =
      record { name = binary_name; browser_download_url = units "/bin" }
      ∷ record { name = units "checksums.txt"; browser_download_url = units "/sums" }
      ∷ [];
}

abbrev world : World
world = record {
  installed = true;
  version = units "0.4.9";
  platform = units "linux";
  arch = units "x64";
  latest = fine (some release);
  content = λ url. if text_eq url (units "/bin") then fine (7 ∷ []) else refused;
  checksums = λ url. fine (
      units "0123456789abcdef0123456789abcdef0123456789abcdef0123456789abcdef  hisohiso-linux-x64");
  sha256 = λ content. digest;
}

abbrev disk : Disk
disk = record { binary = 1 ∷ []; staged = none }

abbrev daemon : Daemon
daemon = record { auto_update_off = false; service = true; polls = false ∷ []; last_poll = true }

apply_update-Verified_example : Kept world disk (apply_update world disk).0
apply_update-Verified_example = apply_update-Verified world disk

-- The download is verified, and the binary replaced.
swapped : (apply_update world disk).0.binary ≡ 7 ∷ []
unfolding apply_update hisohiso.Text.split_on hisohiso.Text.decimal text_eq hisohiso.Text.trim
    hisohiso.Text.is_space hisohiso.Text.split_space
swapped = refl
