-- ===== src/Updater/Swap.antt =====
-- cli/src/lib/updater.ts: `checkLatest`, `resolveAssets`, `stageBinary`, `applyUpdate` and `tick`.
--
-- A request either answers with a status that is fine, answers with another, or fails on the way,
-- and then `fetch` throws. The network, the platform and SHA-256 are parameters; the disk has the
-- binary and the file beside it. File operations do not fail.
use hisohiso.Prelude.{
  ℕ, Bool, true, false, not, ◌&&◌, ◌||◌, Option, none, some, List, [], ◌∷◌, ◌++◌, map, find, all,
  length, drop, leb, ◌-◌, ◌==◌, if◌then◌else◌,
}
use hisohiso.Text.{Text, units, text_eq, trim, split_on, split_space, is_digit}
use hisohiso.Blocks.Block.{lower}
use hisohiso.Updater.Version.{is_newer_version}

pub data Fetched (A : Type 0) : Type 0 where
  fine : A → Fetched A
  refused : Fetched A
  unreachable : Fetched A

-- `ReleaseAsset` and `ReleaseInfo`
pub record ReleaseAsset : Type 0 where
  pub name : Text
  pub browser_download_url : Text

pub record ReleaseInfo : Type 0 where
  pub tag : Text
  pub assets : List ReleaseAsset

-- `ResolvedAssets`
pub record ResolvedAssets : Type 0 where
  pub asset_name : Text
  pub binary_url : Text
  pub checksums_url : Text

pub record Disk : Type 0 where
  pub binary : List ℕ
  pub staged : Option (List ℕ)

-- What surrounds the updater. `latest` is none where the answer has no release in it.
pub record World : Type 0 where
  pub installed : Bool
  pub version : Text
  pub platform : Text
  pub arch : Text
  pub latest : Fetched (Option ReleaseInfo)
  pub content : Text → Fetched (List ℕ)
  pub checksums : Text → Fetched Text
  pub sha256 : List ℕ → Text

-- `ApplyResult`
pub data ApplyResult : Type 0 where
  updated : Text → Text → ApplyResult
  already_latest : ApplyResult
  no_release : ApplyResult
  unsupported : ApplyResult
  failed : ApplyResult
  -- The promise is rejected.
  rejected : ApplyResult

-- `detectPlatform`
unfoldable pub detect_platform : World → Option Text
detect_platform w =
    let os =
      if text_eq w.platform (units "darwin")
      then some (units "darwin")
      else if text_eq w.platform (units "linux")
      then some (units "linux")
      else none in
    let arch =
      if text_eq w.arch (units "arm64")
      then some (units "arm64")
      else if text_eq w.arch (units "x64")
      then some (units "x64")
      else none in
    joined os arch
  where
    joined : Option Text → Option Text → Option Text
    joined (some o) (some a) = some (o ++ (45 ∷ a))
    joined o a = none

abbrev pub asset : Text → ReleaseInfo → Option ReleaseAsset
asset name release = find (λ (a : ReleaseAsset). text_eq a.name name) release.assets

abbrev pub resolved : Text → Option ReleaseAsset → Option ReleaseAsset → Option ResolvedAssets
resolved name (some b) (some c) = some (record {
  asset_name = name;
  binary_url = b.browser_download_url;
  checksums_url = c.browser_download_url;
})
resolved name b c = none

abbrev pub on_platform : Option Text → ReleaseInfo → Option ResolvedAssets
on_platform none release = none
on_platform (some id) release =
    let name = units "hisohiso-" ++ id in
    resolved name (asset name release) (asset (units "checksums.txt") release)

-- `resolveAssets`; `none` is an error.
unfoldable pub resolve_assets : World → ReleaseInfo → Option ResolvedAssets
unfolding detect_platform
resolve_assets w release = on_platform (detect_platform w) release

-- `line.endsWith(suffix)`
abbrev pub ends_with : Text → Text → Bool
ends_with line suffix =
    leb (length suffix) (length line) && text_eq (drop (length line - length suffix) line) suffix

-- `/^[0-9a-f]{64}$/`
abbrev pub is_digest : Text → Bool
is_digest t = length t == 64 && all (λ c. is_digit c || (leb 97 c && leb c 102)) t

abbrev pub first_word : List Text → Text
first_word [] = []
first_word (t ∷ ts) = t

abbrev pub digest_of : Option Text → Option Text
digest_of none = none
digest_of (some line) =
    let expected = map lower (first_word (split_space line)) in
    if is_digest expected then some expected else none

-- The digest that a manifest lists for an asset. `endsWith` of two spaces and the name implies the
-- same of one space.
unfoldable pub expected_digest : Text → Text → Option Text
expected_digest manifest name =
    digest_of (find (λ line. ends_with line (32 ∷ name)) (map trim (split_on 10 manifest)))

abbrev pub agrees : Text → Option Text → Bool
agrees actual none = false
agrees actual (some expected) = text_eq (map lower actual) expected

-- `verifyChecksum`
unfoldable pub verify_checksum : World → List ℕ → ResolvedAssets → Fetched Text → Fetched Bool
unfolding expected_digest
verify_checksum w content assets (fine manifest) =
    fine (agrees (w.sha256 content) (expected_digest manifest assets.asset_name))
verify_checksum w content assets refused = fine false
verify_checksum w content assets unreachable = unreachable

-- The end of `stageBinary`: the disk, and the staged content unless it throws.
abbrev pub after_check : Fetched Bool → List ℕ → Disk → Disk × Option (List ℕ)
after_check (fine true) content d = (record d { staged = some content }, some content)
after_check (fine false) content d = (record d { staged = none }, none)
after_check refused content d = (record d { staged = some content }, none)
after_check unreachable content d = (record d { staged = some content }, none)

abbrev pub after_download :
    World → ResolvedAssets → Fetched (List ℕ) → Disk → Disk × Option (List ℕ)
after_download w assets (fine content) d =
    after_check (verify_checksum w content assets (w.checksums assets.checksums_url)) content d
after_download w assets refused d = (record d { staged = none }, none)
after_download w assets unreachable d = (record d { staged = none }, none)

-- `stageBinary`
unfoldable pub stage_binary : World → ResolvedAssets → Disk → Disk × Option (List ℕ)
unfolding verify_checksum
stage_binary w assets d = after_download w assets (w.content assets.binary_url) d

-- `fs.rename(tmpPath, EXEC_PATH)`
abbrev pub rename : List ℕ → Disk → Disk
rename content d = record { binary = content; staged = none }

abbrev pub apply_staged : World → ReleaseInfo → Disk × Option (List ℕ) → Disk × ApplyResult
apply_staged w release (d, none) = (d, failed)
apply_staged w release (d, some content) = (rename content d, updated w.version release.tag)

abbrev pub apply_assets : World → ReleaseInfo → Option ResolvedAssets → Disk → Disk × ApplyResult
apply_assets w release none d = (d, unsupported)
apply_assets w release (some assets) d = apply_staged w release (stage_binary w assets d)

abbrev pub apply_release : World → Fetched (Option ReleaseInfo) → Disk → Disk × ApplyResult
apply_release w (fine (some release)) d =
    if is_newer_version release.tag w.version
    then apply_assets w release (resolve_assets w release) d
    else (d, already_latest)
apply_release w (fine none) d = (d, no_release)
apply_release w refused d = (d, no_release)
apply_release w unreachable d = (d, rejected)

-- `applyUpdate`
unfoldable pub apply_update : World → Disk → Disk × ApplyResult
unfolding stage_binary resolve_assets is_newer_version
apply_update w d = if w.installed then apply_release w w.latest d else (d, unsupported)

-- `waitForIdle`: the answers of the polls within the time, then the last one.
unfoldable pub wait_for_idle : List Bool → Bool → Bool
wait_for_idle [] last = last
wait_for_idle (b ∷ bs) last = let rest = wait_for_idle bs last in if b then true else rest

-- What follows a swap.
pub data Restart : Type 0 where
  service_exit reexec : Restart

-- `restartPlan`
abbrev pub restart_plan : Bool → Restart
restart_plan service = if service then service_exit else reexec

pub record Daemon : Type 0 where
  pub auto_update_off : Bool
  pub service : Bool
  pub polls : List Bool
  pub last_poll : Bool

abbrev pub tick_staged : Daemon → Disk × Option (List ℕ) → Disk × Option Restart
tick_staged m (d, none) = (d, none)
tick_staged m (d, some content) =
    if wait_for_idle m.polls m.last_poll
    then (rename content d, some (restart_plan m.service))
    else (record d { staged = none }, none)

abbrev pub tick_assets : World → Daemon → Option ResolvedAssets → Disk → Disk × Option Restart
tick_assets w m none d = (d, none)
tick_assets w m (some assets) d = tick_staged m (stage_binary w assets d)

abbrev pub tick_release :
    World → Daemon → Fetched (Option ReleaseInfo) → Disk → Disk × Option Restart
tick_release w m (fine (some release)) d =
    if is_newer_version release.tag w.version
    then tick_assets w m (resolve_assets w release) d
    else (d, none)
tick_release w m latest d = (d, none)

-- `tick`
unfoldable pub tick : World → Daemon → Disk → Disk × Option Restart
unfolding stage_binary resolve_assets is_newer_version wait_for_idle
tick w m d =
    if m.auto_update_off
    then (d, none)
    else if not w.installed
    then (d, none)
    else tick_release w m w.latest d
