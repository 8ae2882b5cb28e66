-- ===== src/Updater/Update/Stale.antt =====
-- What a copy that failed halfway does to later updates.
use codex_feishu.Prelude.{◌≡◌, refl, false, Option, none, some, List, [], ◌∷◌, arith}
use codex_feishu.Prelude.Text.{Text, codes, text_eq}
use codex_feishu.Updater.Release.{Options, UpdateResult, normalize_options}
use codex_feishu.Updater.Install.{Data, Disk, Faults, copy_binary, replace_binary}
use codex_feishu.Updater.Update.{
  World, check, Prepared, prepare, install, update_checked, update, run_updates,
}

replace_binary-stale :
    (goos : Text) (faults : Faults) (binary left : Data) (disk : Disk)
    → disk.staged ≡ some left
    → (replace_binary goos faults binary disk).1 ≡ disk
unfolding replace_binary copy_binary
replace_binary-stale goos faults binary left disk h = ground arith

replace_binary-refuses :
    (goos : Text) (faults : Faults) (binary left : Data) (disk : Disk)
    → disk.staged ≡ some left
    → (replace_binary goos faults binary disk).0 ≡ false
unfolding replace_binary copy_binary
replace_binary-refuses goos faults binary left disk h = ground arith

install-stale :
    (world : World) (result : UpdateResult) (r : Option Prepared) (left : Data) (disk : Disk)
    → disk.staged ≡ some left
    → (install world result r disk).1 ≡ disk
unfolding install
install-stale world result none left disk h = refl
install-stale world result (some p) left disk h =
    rw (replace_binary-refuses world.goos world.faults p.binary left disk h)
      (replace_binary-stale world.goos world.faults p.binary left disk h)

update-stale :
    (world : World) (given : Options) (left : Data) (disk : Disk)
    → disk.staged ≡ some left
    → (update world given disk).1 ≡ disk
unfolding update
update-stale world given left disk h = checked_stale (check world opts)
  where
    opts : Options
    opts = normalize_options world.goos world.goarch given

    checked_stale : (r : Option UpdateResult) → (update_checked world opts r disk).1 ≡ disk
    checked_stale none = unfold update_checked in refl
    checked_stale (some result) =
        unfold update_checked in
        ground (arith, install-stale world result (prepare world opts) left disk h)

run_updates-stale :
    (us : List (World × Options)) (left : Data) (disk : Disk)
    → disk.staged ≡ some left
    → run_updates us disk ≡ disk
unfolding run_updates
run_updates-stale [] left disk h = refl
run_updates-stale ((world, given) ∷ us) left disk h =
    rw (update-stale world given left disk h) (run_updates-stale us left disk h)

-- Where a copy to `target.new` fails halfway, on a system other than Windows, that file is left
-- behind, and from then on no update replaces the target or removes the file, however many are run
-- and whatever the later releases and faults are: the copy refuses a file that exists.
pub stale_copy-blocks :
    (goos : Text) (faults : Faults) (binary left old : Data) (disk : Disk)
    → disk.target ≡ some old
    → disk.staged ≡ none
    → text_eq goos (codes "windows") ≡ false
    → faults.open_fails ≡ false
    → faults.copy_fails ≡ some left
    → (us : List (World × Options))
    → let disk' = run_updates us (replace_binary goos faults binary disk).1 in
      (disk'.target ≡ some old) × (disk'.staged ≡ some left)
stale_copy-blocks goos faults binary left old disk h k l o m us =
    let failed : (replace_binary goos faults binary disk).1
        ≡ record { target = some old; staged = some left } =
      unfold replace_binary copy_binary in ground arith in
    rw failed (
      rw (run_updates-stale us left (record { target = some old; staged = some left }) refl)
        (refl, refl))
