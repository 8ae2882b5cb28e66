-- ===== src/Updater/Install.antt =====
-- internal/updater/updater.go: the checksum, the archive and the binary on disk. A file is a list of
-- bytes. An archive is the list of entries that the reader of `archive/tar` or `archive/zip` yields.
use codex_feishu.Prelude.{Bool, true, false, not, Option, none, some, List, [], ◌∷◌, if◌then◌else◌}
use codex_feishu.Prelude.Text.{Text, codes, text_eq, equal_fold}
use codex_feishu.Prelude.Text.Split.{split_on, fields_from, trim_prefix, has_suffix, base_name}

abbrev pub Data : Type 0
Data = Text

pub data Entry : Type 0 where
  broken : Entry
  directory : Text → Entry
  file : Text → Data → Entry

-- The target, and the file `target.new` beside it.
pub record Disk : Type 0 where
  pub target : Option Data
  pub staged : Option Data

-- The failures of the steps on the disk: the extracted file is not written, `target.new` is not
-- opened, the copy to it fails and leaves what it has written, the file is not made executable or not
-- closed, the rename fails.
pub record Faults : Type 0 where
  pub write_fails : Bool
  pub open_fails : Bool
  pub copy_fails : Option Data
  pub chmod_fails : Bool
  pub rename_fails : Bool

-- The loop of `checksumForAsset` over the lines.
unfoldable pub checksum_in : List Text → Text → Option Text
unfolding fields_from trim_prefix base_name text_eq
checksum_in [] asset = none
checksum_in (line ∷ lines) asset =
    let rest = checksum_in lines asset in
    elim (fields_from [] line) [
      | [] ↦ rest
      | sum ∷ names ↦ elim names [
        | [] ↦ rest
        | name ∷ _ ↦
            if text_eq (base_name (trim_prefix name (codes "*"))) asset then some sum else rest
      ]
    ]

-- `checksumForAsset`
unfoldable pub checksum_for_asset : Data → Text → Option Text
unfolding checksum_in split_on
checksum_for_asset sums asset = checksum_in (split_on 10 sums) asset

-- `verifyChecksum`, with the hash in hexadecimal.
unfoldable pub verify_checksum : (Data → Text) → Data → Data → Text → Bool
unfolding checksum_for_asset equal_fold
verify_checksum sha256_hex archive sums asset = elim (checksum_for_asset sums asset) [
  | none ↦ false
  | some expected ↦ equal_fold (sha256_hex archive) expected
]

-- `binaryName`
unfoldable pub binary_name : Text → Text
unfolding text_eq
binary_name goos = if text_eq goos (codes "windows") then codes "ctr-go.exe" else codes "ctr-go"

-- The loop of `extractTarGzBinary` and of `extractZipBinary`, with `writeExtracted`.
unfoldable pub extract_entry : Bool → Text → List Entry → Option Data
unfolding base_name text_eq
extract_entry write_fails name [] = none
extract_entry write_fails name (broken ∷ more) = none
extract_entry write_fails name (directory path ∷ more) = extract_entry write_fails name more
extract_entry write_fails name (file path content ∷ more) =
    let rest = extract_entry write_fails name more in
    if text_eq (base_name path) name then (if write_fails then none else some content) else rest

-- `extractBinary`: whether the archive is read as a zip goes by its name.
unfoldable pub extract_binary : (Bool → Data → List Entry) → Bool → Text → Text → Data → Option Data
unfolding extract_entry binary_name has_suffix
extract_binary entries write_fails goos asset archive =
    extract_entry write_fails (binary_name goos) (entries (has_suffix asset (codes ".zip")) archive)

-- `copyBinary` to `target.new`, which must not exist.
unfoldable pub copy_binary : Faults → Data → Disk → Bool × Disk
copy_binary faults binary disk = elim disk.staged [
  | some left ↦ (false, disk)
  | none ↦ if faults.open_fails then (false, disk) else elim faults.copy_fails [
    | some left ↦ (false, record disk { staged = some left })
    | none ↦ (not faults.chmod_fails, record disk { staged = some binary })
  ]
]

-- `replaceBinary` on the system `goos`: whether it succeeded, and the disk.
unfoldable pub replace_binary : Text → Faults → Data → Disk → Bool × Disk
unfolding copy_binary text_eq
replace_binary goos faults binary disk = elim disk.target [
  | none ↦ (false, disk)
  | some old ↦
      let (copied, disk') = copy_binary faults binary disk in
      if text_eq goos (codes "windows")
      then (false, disk)
      else if not copied
      then (false, disk')
      else if faults.rename_fails
      then (false, record disk' { staged = none })
      else (true, record { target = disk'.staged; staged = none })
]
