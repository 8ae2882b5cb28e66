-- ===== src/Updater/Update/Verified.antt =====
-- What an update installs, and what it leaves alone.
use codex_feishu.Prelude.{
  ◌≡◌, refl, sym, subst, ◌⊎◌, inl, inr, Bool, true, false, ◌||◌, Option, none, some, arith,
  if◌then◌else◌, Bool-cases, >>=-some,
}
use codex_feishu.Prelude.Text.{Text, codes, equal_fold, contains}
use codex_feishu.Updater.Version.{clean_version}
use codex_feishu.Updater.Release.{
  Options, UpdateResult, ReleaseInfo, normalize_options, fetch_release, asset_name,
  release_asset_url, release_asset,
}
use codex_feishu.Updater.Install.{
  Data, Disk, Faults, checksum_for_asset, verify_checksum, extract_binary, copy_binary,
  replace_binary,
}
use codex_feishu.Updater.Update.{
  World, check, target_path_of, Prepared, prepare, install, update_checked, update,
}

-- The binary is the one of a downloaded archive, and the archive has the checksum that the
-- downloaded list gives for the asset.
pub record IsVerified (world : World) (opts : Options) (p : Prepared) : Type 0 where
  pub release : ReleaseInfo
  pub url : Text
  pub sums_url : Text
  pub sum : Text
  pub answered : fetch_release world.second_answer opts ≡ some release
  pub named : asset_name (clean_version release.tag_name) opts.goos opts.goarch ≡ some p.asset
  pub offered : release_asset_url release.assets p.asset ≡ some url
  pub sums_offered : release_asset_url release.assets (codes "SHA256SUMS") ≡ some sums_url
  pub downloaded : world.download url ≡ some p.archive
  pub sums_downloaded : world.download sums_url ≡ some p.sums
  pub listed : checksum_for_asset p.sums p.asset ≡ some sum
  pub matches : equal_fold (world.sha256_hex p.archive) sum ≡ true
  pub extracted :
      extract_binary world.entries world.faults.write_fails opts.goos p.asset p.archive
      ≡ some p.binary

some_same : (x p : Prepared) → some x ≡ some p → x ≡ p
some_same x p e = ground arith

if-some :
    {A : Type 0} (b : Bool) (m : Option A) (x : A)
    → (if b then m else none) ≡ some x
    → (b ≡ true) × (m ≡ some x)
if-some true m x e = (refl, e)
if-some false m x e = absurd cc

if-none :
    {A : Type 0} (b : Bool) (m : Option A) (x : A) → (if b then none else m) ≡ some x → m ≡ some x
if-none true m x e = absurd cc
if-none false m x e = e

-- The checksum that was found, and that it fits.
record Matched (hash : Data → Text) (archive sums : Data) (asset : Text) : Type 0 where
  sum : Text
  listed : checksum_for_asset sums asset ≡ some sum
  matches : equal_fold (hash archive) sum ≡ true

verify_checksum-Matched :
    (hash : Data → Text) (archive sums : Data) (asset : Text)
    → verify_checksum hash archive sums asset ≡ true
    → Matched hash archive sums asset
verify_checksum-Matched hash archive sums asset h = go (checksum_for_asset sums asset) refl
  where
    go : (r : Option Text) → r ≡ checksum_for_asset sums asset → Matched hash archive sums asset
    go none e = absurd (unfold verify_checksum in ground arith)
    go (some sum) e = record {
      sum = sum;
      listed = sym e;
      matches = unfold verify_checksum in ground arith;
    }

record Named (rel : ReleaseInfo) (opts : Options) (asset : Text × Text) : Type 0 where
  named : asset_name (clean_version rel.tag_name) opts.goos opts.goarch ≡ some asset.0
  offered : release_asset_url rel.assets asset.0 ≡ some asset.1

release_asset-Named :
    (rel : ReleaseInfo) (opts : Options) (asset : Text × Text)
    → release_asset rel opts ≡ some asset
    → Named rel opts asset
unfolding release_asset
release_asset-Named rel opts asset e =
    let a = >>=-some (asset_name (clean_version rel.tag_name) opts.goos opts.goarch) _ asset e in
    let b = >>=-some (release_asset_url rel.assets a.value) _ asset a.rest in
    record { named = ground (arith, a.step, b.rest); offered = ground (arith, b.step, b.rest) }

prepare-IsVerified :
    (world : World) (opts : Options) (p : Prepared)
    → prepare world opts ≡ some p
    → IsVerified world opts p
unfolding prepare
prepare-IsVerified world opts p e =
    let rel = >>=-some (fetch_release world.second_answer opts) _ p e in
    let asset = >>=-some (release_asset rel.value opts) _ p rel.rest in
    let sums_url =
      >>=-some (release_asset_url rel.value.assets (codes "SHA256SUMS")) _ p asset.rest in
    let path = >>=-some (target_path_of world opts) _ p sums_url.rest in
    let archive =
      >>=-some
        (if contains path.value (codes "/go-build") || world.mkdir_fails
          then none
          else world.download asset.value.1)
        _ p path.rest in
    let sums = >>=-some (world.download sums_url.value) _ p archive.rest in
    let binary =
      >>=-some
        (if verify_checksum world.sha256_hex archive.value sums.value asset.value.0
          then extract_binary world.entries world.faults.write_fails opts.goos asset.value.0
              archive.value
          else none)
        _ p sums.rest in
    let checked =
      if-some (verify_checksum world.sha256_hex archive.value sums.value asset.value.0) _
        binary.value binary.step in
    let sum =
      verify_checksum-Matched world.sha256_hex archive.value sums.value asset.value.0 checked.0 in
    let asset' = release_asset-Named rel.value opts asset.value asset.step in
    same _ binary.rest (record {
      release = rel.value;
      url = asset.value.1;
      sums_url = sums_url.value;
      sum = sum.sum;
      answered = rel.step;
      named = asset'.named;
      offered = asset'.offered;
      sums_offered = sums_url.step;
      downloaded =
          if-none (contains path.value (codes "/go-build") || world.mkdir_fails) _ archive.value
            archive.step;
      sums_downloaded = sums.step;
      listed = sum.listed;
      matches = sum.matches;
      extracted = checked.1;
    })
  where
    same : (x : Prepared) → some x ≡ some p → IsVerified world opts x → IsVerified world opts p
    same x e h = subst (IsVerified world opts) (some_same x p e) h

-- Whether the result says that the binary was replaced.
abbrev pub claims_update : Option UpdateResult → Bool
claims_update none = false
claims_update (some r) = r.updated

-- A run that left the target as it was, and does not claim an update.
pub record Untouched (disk : Disk) (run : Option UpdateResult × Disk) : Type 0 where
  pub target : run.1.target ≡ disk.target
  pub not_updated : claims_update run.0 ≡ false

-- A run that put a verified binary in the target's place, and says so.
pub record Installed (world : World) (opts : Options) (run : Option UpdateResult × Disk)
    : Type 0 where
  pub prepared : Prepared
  pub verified : IsVerified world opts prepared
  pub target : run.1.target ≡ some prepared.binary
  pub staged : run.1.staged ≡ none
  pub result : UpdateResult
  pub returned : run.0 ≡ some result
  pub updated : result.updated ≡ true

replace_binary-kept :
    (goos : Text) (faults : Faults) (binary : Data) (disk : Disk)
    → (replace_binary goos faults binary disk).0 ≡ false
    → (replace_binary goos faults binary disk).1.target ≡ disk.target
unfolding replace_binary copy_binary
replace_binary-kept goos faults binary disk h = ground arith

replace_binary-replaced :
    (goos : Text) (faults : Faults) (binary : Data) (disk : Disk)
    → (replace_binary goos faults binary disk).0 ≡ true
    → ((replace_binary goos faults binary disk).1.target ≡ some binary)
      × ((replace_binary goos faults binary disk).1.staged ≡ none)
unfolding replace_binary copy_binary
replace_binary-replaced goos faults binary disk h = ground arith

install-outcome :
    (world : World) (opts : Options) (result : UpdateResult) (disk : Disk) (r : Option Prepared)
    → prepare world opts ≡ r
    → Untouched disk (install world result r disk)
      ⊎ Installed world opts (install world result r disk)
unfolding install
install-outcome world opts result disk none e = inl (record { target = refl; not_updated = refl })
install-outcome world opts result disk (some p) e =
    elim (Bool-cases ((replace_binary world.goos world.faults p.binary disk).0)) [
      | inl h ↦ inr (record {
        prepared = p;
        verified = prepare-IsVerified world opts p e;
        target = rw h (replace_binary-replaced world.goos world.faults p.binary disk h).0;
        staged = rw h (replace_binary-replaced world.goos world.faults p.binary disk h).1;
        result = record result { asset_name = p.asset; target_path = p.path; updated = true };
        returned = rw h refl;
        updated = refl;
      })
      | inr h ↦ inl (record {
        target = rw h (replace_binary-kept world.goos world.faults p.binary disk h);
        not_updated = rw h refl;
      })
    ]

update_checked-outcome :
    (world : World) (opts : Options) (disk : Disk) (r : Option UpdateResult)
    → claims_update r ≡ false
    → Untouched disk (update_checked world opts r disk)
      ⊎ Installed world opts (update_checked world opts r disk)
unfolding update_checked
update_checked-outcome world opts disk none h = inl (record { target = refl; not_updated = refl })
update_checked-outcome world opts disk (some result) h =
    elim (Bool-cases (result.already_latest || opts.check_only)) [
      | inl e ↦ rw e (inl (record { target = refl; not_updated = h }))
      | inr e ↦ rw e (install-outcome world opts result disk (prepare world opts) refl)
    ]

check-not_updated :
    (world : World) (given : Options) (r : Option UpdateResult)
    → check world given ≡ r
    → claims_update r ≡ false
unfolding check
check-not_updated world given none e = refl
check-not_updated world given (some x) e =
    let opts = normalize_options world.goos world.goarch given in
    let rel = >>=-some (fetch_release world.first_answer opts) _ x e in
    let asset = >>=-some (release_asset rel.value opts) _ x rel.rest in ground (arith, asset.rest)

-- The target file is only ever replaced by a verified binary: one that was extracted from the
-- archive that the release offers for this system, whose SHA-256 is the one that the release's
-- SHA256SUMS lists under the archive's name. Every other run leaves the target as it was and claims
-- no update, whatever requests, downloads or steps on the disk fail.
pub update_verified :
    (world : World) (given : Options) (disk : Disk)
    → let opts = normalize_options world.goos world.goarch given in
      Untouched disk (update world given disk) ⊎ Installed world opts (update world given disk)
unfolding update
update_verified world given disk =
    let opts = normalize_options world.goos world.goarch given in
    update_checked-outcome world opts disk (check world opts) (check-not_updated world opts _ refl)
