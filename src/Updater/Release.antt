-- ===== src/Updater/Release.antt =====
-- internal/updater/updater.go: options, releases and their assets. `none` is an error; its message
-- is left out.
use codex_feishu.Prelude.{
  Bool, not, ◌&&◌, ◌||◌, Option, none, some, List, [], ◌∷◌, ◌++◌, ◌==◌, if◌then◌else◌, ◌>>=◌,
}
use codex_feishu.Prelude.Text.{Text, codes, text_eq, trim_right, is_empty, is_blank}
use codex_feishu.Updater.Version.{clean_version}

-- `Options`, without its HTTP client.
pub record Options : Type 0 where
  pub repo : Text
  pub current_version : Text
  pub target_version : Text
  pub target_path : Text
  pub api_base_url : Text
  pub goos : Text
  pub goarch : Text
  pub check_only : Bool

-- `Result`
pub record UpdateResult : Type 0 where
  pub current_version : Text
  pub latest_version : Text
  pub release_url : Text
  pub asset_name : Text
  pub target_path : Text
  pub updated : Bool
  pub already_latest : Bool

pub record Asset : Type 0 where
  pub name : Text
  pub browser_download_url : Text

-- `releaseInfo`
pub record ReleaseInfo : Type 0 where
  pub tag_name : Text
  pub html_url : Text
  pub assets : List Asset

abbrev pub default_repo : Text
default_repo = codes "ruoqianfengshao/codex-feishu"

abbrev pub default_api_url : Text
default_api_url = codes "https://api.github.com"

abbrev if_blank : Text → Text → Text
if_blank t given = if is_blank t then given else t

-- `normalizeOptions`, on the system `goos` and `goarch`.
unfoldable pub normalize_options : Text → Text → Options → Options
unfolding clean_version trim_right is_blank
normalize_options goos goarch opts = record opts {
  repo = if_blank opts.repo default_repo;
  api_base_url = trim_right (λ c. c == b'/') (if_blank opts.api_base_url default_api_url);
  goos = if_blank opts.goos goos;
  goarch = if_blank opts.goarch goarch;
  current_version = clean_version opts.current_version;
  target_version = clean_version opts.target_version;
}

-- The URL of the request that `fetchRelease` makes.
unfoldable pub release_request : Options → Text
release_request opts =
    let path =
      if is_empty opts.target_version
      then codes "latest"
      else codes "tags/v" ++ opts.target_version in
    opts.api_base_url ++ (codes "/repos/" ++ (opts.repo ++ (codes "/releases/" ++ path)))

-- `fetchRelease`, by the answer to the request: nothing where the request, the status or the
-- decoding fails.
unfoldable pub fetch_release : (Text → Option ReleaseInfo) → Options → Option ReleaseInfo
unfolding release_request clean_version
fetch_release answer opts = do
  rel ← answer (release_request opts)
  if is_empty (clean_version rel.tag_name) then none else some rel

-- `assetName`
unfoldable pub asset_name : Text → Text → Text → Option Text
unfolding text_eq
asset_name version goos goarch =
    let ext = if text_eq goos (codes "windows") then codes ".zip" else codes ".tar.gz" in
    if is_empty version
    then none
    else if text_eq goarch (codes "amd64") || text_eq goarch (codes "arm64")
    then some
        (codes "ctr-go_v" ++ (version ++ (codes "_" ++ (goos ++ (codes "_" ++ (goarch ++ ext))))))
    else none

-- `releaseAssetURL`
unfoldable pub release_asset_url : List Asset → Text → Option Text
unfolding text_eq is_blank
release_asset_url [] name = none
release_asset_url (a ∷ more) name =
    if text_eq a.name name && not (is_blank a.browser_download_url)
    then some a.browser_download_url
    else release_asset_url more name

-- `releaseAsset`
unfoldable pub release_asset : ReleaseInfo → Options → Option (Text × Text)
unfolding asset_name release_asset_url clean_version
release_asset rel opts = do
  name ← asset_name (clean_version rel.tag_name) opts.goos opts.goarch
  url ← release_asset_url rel.assets name
  some (name, url)
