-- ===== src/Updater/Verified.antt =====
-- cli/src/lib/updater.ts: what stands in the place of the binary after an update.
use hisohiso.Prelude.{
  ℕ, Bool, true, false, Option, none, some, List, ◌≡◌, refl, sym, ap, ◌∙◌, ◌⊎◌, inl, inr,
  Bool-cases,
}
use hisohiso.Text.{Text}
use hisohiso.Updater.Version.{is_newer_version}
use hisohiso.Updater.Swap.{
  Fetched, fine, refused, unreachable, ReleaseInfo, ResolvedAssets, Disk, World, Daemon,
  resolve_assets, expected_digest, agrees, verify_checksum, after_check, after_download,
  stage_binary, apply_staged, apply_assets, apply_release, apply_update, wait_for_idle, tick_staged,
  tick_assets, tick_release, tick,
}

-- Content that the release's asset serves, with the digest that the release's manifest lists for it.
pub record Listed (w : World) (assets : ResolvedAssets) (content : List ℕ) : Type 0 where
  pub served : w.content assets.binary_url ≡ fine content
  pub manifest : Text
  pub manifest_served : w.checksums assets.checksums_url ≡ fine manifest
  pub digest : agrees (w.sha256 content) (expected_digest manifest assets.asset_name) ≡ true

-- A binary of an installed program's newer release.
pub record Verified (w : World) (content : List ℕ) : Type 0 where
  pub installed : w.installed ≡ true
  pub release : ReleaseInfo
  pub latest : w.latest ≡ fine (some release)
  pub newer : is_newer_version release.tag w.version ≡ true
  pub assets : ResolvedAssets
  pub on_platform : resolve_assets w release ≡ some assets
  pub listed : Listed w assets content

after_check-binary :
    (v : Fetched Bool) (content : List ℕ) (d : Disk) → (after_check v content d).0.binary ≡ d.binary
after_check-binary (fine true) content d = refl
after_check-binary (fine false) content d = refl
after_check-binary refused content d = refl
after_check-binary unreachable content d = refl

after_check-some :
    (v : Fetched Bool) (content c : List ℕ) (d : Disk)
    → (after_check v content d).1 ≡ some c
    → (v ≡ fine true) × (content ≡ c)
after_check-some (fine true) content c d h = (refl, cc h)
after_check-some (fine false) content c d h = absurd (cc h)
after_check-some refused content c d h = absurd (cc h)
after_check-some unreachable content c d h = absurd (cc h)

verify_checksum-true :
    (w : World) (content : List ℕ) (assets : ResolvedAssets) (sums : Fetched Text)
    → verify_checksum w content assets sums ≡ fine true
    → (manifest : Text) × (sums ≡ fine manifest)
      × (agrees (w.sha256 content) (expected_digest manifest assets.asset_name) ≡ true)
unfolding verify_checksum
verify_checksum-true w content assets (fine manifest) h = (manifest, refl, cc h)
verify_checksum-true w content assets refused h = absurd (cc h)
verify_checksum-true w content assets unreachable h = absurd (cc h)

after_download-binary :
    (w : World) (assets : ResolvedAssets) (got : Fetched (List ℕ)) (d : Disk)
    → (after_download w assets got d).0.binary ≡ d.binary
after_download-binary w assets (fine content) d = after_check-binary _ content d
after_download-binary w assets refused d = refl
after_download-binary w assets unreachable d = refl

after_download-Listed :
    (w : World) (assets : ResolvedAssets) (got : Fetched (List ℕ)) (d : Disk) (c : List ℕ)
    → w.content assets.binary_url ≡ got
    → (after_download w assets got d).1 ≡ some c
    → Listed w assets c
after_download-Listed w assets (fine content) d c e h =
    let sums = w.checksums assets.checksums_url in
    let (checked, same) = after_check-some (verify_checksum w content assets sums) content c d h in
    let (manifest, served, digest) = verify_checksum-true w content assets sums checked in
    record {
      served = e ∙ ap fine same;
      manifest = manifest;
      manifest_served = served;
      digest =
          ap (λ x. agrees (w.sha256 x) (expected_digest manifest assets.asset_name)) (sym same)
          ∙ digest;
    }
after_download-Listed w assets refused d c e h = absurd (cc h)
after_download-Listed w assets unreachable d c e h = absurd (cc h)

-- The binary is the old one, or a verified one.
abbrev pub Kept : World → Disk → Disk → Type 0
Kept w d d' = (d'.binary ≡ d.binary) ⊎ Verified w d'.binary

abbrev Staged : World → Disk → Disk × Option (List ℕ) → Type 0
Staged w d s = (s.0.binary ≡ d.binary) × ((c : List ℕ) → s.1 ≡ some c → Verified w c)

stage_binary-Staged :
    (w : World) (release : ReleaseInfo) (assets : ResolvedAssets) (d : Disk)
    → w.installed ≡ true
    → w.latest ≡ fine (some release)
    → is_newer_version release.tag w.version ≡ true
    → resolve_assets w release ≡ some assets
    → Staged w d (stage_binary w assets d)
unfolding stage_binary
stage_binary-Staged w release assets d here latest newer found = (
  after_download-binary w assets (w.content assets.binary_url) d,
  λ c h. record {
    installed = here;
    release = release;
    latest = latest;
    newer = newer;
    assets = assets;
    on_platform = found;
    listed = after_download-Listed w assets (w.content assets.binary_url) d c refl h;
  },
)

apply_staged-Kept :
    (w : World) (release : ReleaseInfo) (d : Disk) (s : Disk × Option (List ℕ))
    → Staged w d s
    → Kept w d (apply_staged w release s).0
apply_staged-Kept w release d (d', none) h = inl h.0
apply_staged-Kept w release d (d', some c) h = inr (h.1 c refl)

tick_staged-Kept :
    (w : World) (m : Daemon) (d : Disk) (s : Disk × Option (List ℕ))
    → Staged w d s
    → Kept w d (tick_staged m s).0
tick_staged-Kept w m d (d', none) h = inl h.0
tick_staged-Kept w m d (d', some c) h = elim (Bool-cases (wait_for_idle m.polls m.last_poll)) [
  | inl e ↦ rw e (inr (h.1 c refl))
  | inr e ↦ rw e (inl h.0)
]

module _ (w : World) (d : Disk) (here : w.installed ≡ true) where
  apply_assets-Kept :
      (release : ReleaseInfo) (assets : Option ResolvedAssets)
      → w.latest ≡ fine (some release)
      → is_newer_version release.tag w.version ≡ true
      → resolve_assets w release ≡ assets
      → Kept w d (apply_assets w release assets d).0
  apply_assets-Kept release none latest newer found = inl refl
  apply_assets-Kept release (some assets) latest newer found =
      apply_staged-Kept w release d (stage_binary w assets d)
        (stage_binary-Staged w release assets d here latest newer found)

  apply_release-Kept :
      (latest : Fetched (Option ReleaseInfo))
      → w.latest ≡ latest
      → Kept w d (apply_release w latest d).0
  apply_release-Kept (fine (some release)) e =
      elim (Bool-cases (is_newer_version release.tag w.version)) [
        | inl newer ↦ rw newer (apply_assets-Kept release (resolve_assets w release) e newer refl)
        | inr old ↦ rw old (inl refl)
      ]
  apply_release-Kept (fine none) e = inl refl
  apply_release-Kept refused e = inl refl
  apply_release-Kept unreachable e = inl refl

  tick_assets-Kept :
      (m : Daemon) (release : ReleaseInfo) (assets : Option ResolvedAssets)
      → w.latest ≡ fine (some release)
      → is_newer_version release.tag w.version ≡ true
      → resolve_assets w release ≡ assets
      → Kept w d (tick_assets w m assets d).0
  tick_assets-Kept m release none latest newer found = inl refl
  tick_assets-Kept m release (some assets) latest newer found =
      tick_staged-Kept w m d (stage_binary w assets d)
        (stage_binary-Staged w release assets d here latest newer found)

  tick_release-Kept :
      (m : Daemon) (latest : Fetched (Option ReleaseInfo))
      → w.latest ≡ latest
      → Kept w d (tick_release w m latest d).0
  tick_release-Kept m (fine (some release)) e =
      elim (Bool-cases (is_newer_version release.tag w.version)) [
        | inl newer ↦ rw newer (tick_assets-Kept m release (resolve_assets w release) e newer refl)
        | inr old ↦ rw old (inl refl)
      ]
  tick_release-Kept m (fine none) e = inl refl
  tick_release-Kept m refused e = inl refl
  tick_release-Kept m unreachable e = inl refl

-- After `applyUpdate`, whatever the network answers, the binary is the old one, or it is what the
-- asset of a newer release serves for this platform, its SHA-256 is the one that the release's
-- manifest lists for the asset, and the program runs as an installed binary.
pub apply_update-Verified : (w : World) (d : Disk) → Kept w d (apply_update w d).0
unfolding apply_update
apply_update-Verified w d = elim (Bool-cases w.installed) [
  | inl here ↦ simp here (apply_release-Kept w d here w.latest refl)
  | inr away ↦ simp away (inl refl)
]

-- The same holds after a tick of the daemon's update loop.
pub tick-Verified : (w : World) (m : Daemon) (d : Disk) → Kept w d (tick w m d).0
unfolding tick
tick-Verified w m d = elim (Bool-cases m.auto_update_off) [
  | inl off ↦ simp off (inl refl)
  | inr on ↦ simp on (elim (Bool-cases w.installed) [
    | inl here ↦ simp here (tick_release-Kept w d here m w.latest refl)
    | inr away ↦ simp away (inl refl)
  ])
]
