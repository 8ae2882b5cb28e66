-- ===== src/Updater/Examples.antt =====
-- An update in a small world.
use codex_feishu.Prelude.{◌≡◌, refl, ◌⊎◌, false, none, some, [], ◌∷◌, if◌then◌else◌}
use codex_feishu.Prelude.Text.{codes, text_eq}
use codex_feishu.Updater.Version.{greater, compare_versions}
use codex_feishu.Updater.Release.{Options, ReleaseInfo, normalize_options}
use codex_feishu.Updater.Install.{directory, file, Disk, Faults, replace_binary}
use codex_feishu.Updater.Update.{World, update, run_updates}
use codex_feishu.Updater.Update.Verified.{Untouched, Installed, update_verified}
use codex_feishu.Updater.Update.Stale.{stale_copy-blocks}

abbrev release_2 : ReleaseInfo
release_2 = record {
  tag_name = codes "v2.0.0";
  html_url = codes "https://r";
  assets =
      record {
        name = codes "ctr-go_v2.0.0_linux_amd64.tar.gz";
        browser_download_url = codes "https://a";
      }
      ∷ record { name = codes "SHA256SUMS"; browser_download_url = codes "https://s" }
      ∷ [];
}

abbrev no_faults : Faults
no_faults = record {
  write_fails = false;
  open_fails = false;
  copy_fails = none;
  chmod_fails = false;
  rename_fails = false;
}

-- The hash of the archive is "AB"; the list gives "ab".
abbrev world_2 : World
world_2 = record {
  first_answer = λ url. some release_2;
  second_answer = λ url. some release_2;
  download = λ url.
      if text_eq url (codes "https://a")
      then some (codes "archive")
      else some (codes "ab  *ctr-go_v2.0.0_linux_amd64.tar.gz");
  goos = codes "linux";
  goarch = codes "amd64";
  executable = some (codes "/bin/ctr-go");
  clean_path = λ path. path;
  mkdir_fails = false;
  sha256_hex = λ archive. codes "AB";
  entries = λ zip archive. directory (codes "bin") ∷ file (codes "bin/ctr-go") (codes "new") ∷ [];
  faults = no_faults;
}

abbrev options_1 : Options
options_1 = record {
  repo = [];
  current_version = codes "v1.9.10";
  target_version = [];
  target_path = [];
  api_base_url = [];
  goos = [];
  goarch = [];
  check_only = false;
}

abbrev old_disk : Disk
old_disk = record { target = some (codes "old"); staged = none }

-- The binary is replaced.
update-replaces :
    (update world_2 options_1 old_disk).1 ≡ record { target = some (codes "new"); staged = none }
unfolding update
update-replaces = refl

update_verified_example :
    Untouched old_disk (update world_2 options_1 old_disk)
    ⊎ Installed world_2
        (normalize_options (codes "linux") (codes "amd64") options_1)
        (update world_2 options_1 old_disk)
update_verified_example = update_verified world_2 options_1 old_disk

-- Parts compare as numbers.
compare-parts : compare_versions (codes "v1.10") (codes "1.9.9") ≡ greater
unfolding compare_versions
compare-parts = refl

abbrev full_disk : Faults
full_disk = record no_faults { copy_fails = some (codes "ne") }

stale_copy-blocks_example :
    let disk' =
      run_updates
        ((world_2, options_1) ∷ (world_2, options_1) ∷ [])
        (replace_binary (codes "linux") full_disk (codes "new") old_disk).1 in
    (disk'.target ≡ some (codes "old")) × (disk'.staged ≡ some (codes "ne"))
unfolding text_eq
stale_copy-blocks_example =
    stale_copy-blocks (codes "linux") full_disk (codes "new") (codes "ne") (codes "old") old_disk
      refl refl refl refl refl ((world_2, options_1) ∷ (world_2, options_1) ∷ [])
