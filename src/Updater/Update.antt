-- ===== src/Updater/Update.antt =====
-- internal/updater/updater.go: the check for a release, and the update to it.
use codex_feishu.Prelude.{
  ◌-◌, ◌/◌, Bool, true, false, ◌&&◌, ◌||◌, Option, none, some, List, [], ◌∷◌, map, if◌then◌else◌,
  ◌>>=◌,
}
pub mod Verified
pub mod Stale
use mathlib.Core.Option
use codex_feishu.Prelude.Text.{Text, codes, is_empty, is_blank, contains}
use codex_feishu.Updater.Version.{clean_version, greater, equal, less, compare_versions}
use codex_feishu.Updater.Release.{
  Options, UpdateResult, ReleaseInfo, normalize_options, fetch_release, asset_name,
  release_asset_url, release_asset,
}
use codex_feishu.Updater.Install.{
  Data, Entry, Disk, Faults, verify_checksum, extract_binary, replace_binary,
}

-- What an update meets outside it: the answers to its two requests for a release, which may differ,
-- the downloads, the system, the hash, the archive reader, and the faults of the disk.
pub record World : Type 0 where
  pub first_answer : Text → Option ReleaseInfo
  pub second_answer : Text → Option ReleaseInfo
  pub download : Text → Option Data
  pub goos : Text
  pub goarch : Text
  pub executable : Option Text
  pub clean_path : Text → Text
  pub mkdir_fails : Bool
  pub sha256_hex : Data → Text
  pub entries : Bool → Data → List Entry
  pub faults : Faults

-- The result of `Check` for a release.
unfoldable pub checked : Options → ReleaseInfo → Text → UpdateResult
unfolding clean_version compare_versions
checked opts rel asset =
    let current = clean_version opts.current_version in
    let latest = clean_version rel.tag_name in
    record {
      current_version = current;
      latest_version = latest;
      release_url = rel.html_url;
      asset_name = asset;
      target_path = opts.target_path;
      updated = false;
      already_latest = is_empty opts.target_version && elim (compare_versions latest current) [
        | greater ↦ false
        | equal ↦ true
        | less ↦ true
      ];
    }

-- `Check`
unfoldable pub check : World → Options → Option UpdateResult
unfolding normalize_options fetch_release release_asset checked
check world given = do
  let opts = normalize_options world.goos world.goarch given
  rel ← fetch_release world.first_answer opts
  asset ← release_asset rel opts
  some (checked opts rel asset.0)

-- The path of the binary that is replaced.
unfoldable pub target_path_of : World → Options → Option Text
unfolding is_blank
target_path_of world opts =
    if is_blank opts.target_path
    then Option.map world.clean_path world.executable
    else some (world.clean_path opts.target_path)

-- What `Update` has once everything is downloaded and extracted.
pub record Prepared : Type 0 where
  pub asset : Text
  pub path : Text
  pub archive : Data
  pub sums : Data
  pub binary : Data

-- `Update` from its own request on, up to the replacement.
unfoldable pub prepare : World → Options → Option Prepared
unfolding fetch_release release_asset release_asset_url target_path_of verify_checksum
    extract_binary contains
prepare world opts = do
  rel ← fetch_release world.second_answer opts
  asset ← release_asset rel opts
  checksum_url ← release_asset_url rel.assets (codes "SHA256SUMS")
  path ← target_path_of world opts
  archive ←
      (if contains path (codes "/go-build") || world.mkdir_fails
        then none
        else world.download asset.1)
  sums ← world.download checksum_url
  binary ←
      (if verify_checksum world.sha256_hex archive sums asset.0
        then extract_binary world.entries world.faults.write_fails opts.goos asset.0 archive
        else none)
  some (record { asset = asset.0; path = path; archive = archive; sums = sums; binary = binary })

unfoldable pub install : World → UpdateResult → Option Prepared → Disk → Option UpdateResult × Disk
unfolding replace_binary
install world result none disk = (none, disk)
install world result (some p) disk =
    let (replaced, disk') = replace_binary world.goos world.faults p.binary disk in
    if replaced
    then (
      some (record result { asset_name = p.asset; target_path = p.path; updated = true }),
      disk',
    )
    else (none, disk')

unfoldable pub update_checked :
    World → Options → Option UpdateResult → Disk → Option UpdateResult × Disk
unfolding install prepare
update_checked world opts none disk = (none, disk)
update_checked world opts (some result) disk =
    if result.already_latest || opts.check_only
    then (some result, disk)
    else install world result (prepare world opts) disk

-- `Update`
unfoldable pub update : World → Options → Disk → Option UpdateResult × Disk
unfolding update_checked check normalize_options
update world given disk =
    let opts = normalize_options world.goos world.goarch given in
    update_checked world opts (check world opts) disk

-- Updates of the same target, one after the other.
unfoldable pub run_updates : List (World × Options) → Disk → Disk
unfolding update
run_updates [] disk = disk
run_updates ((world, given) ∷ more) disk = run_updates more (update world given disk).1
