-- ===== src/Instance/Files.antt =====
-- pkg/fileutil (Insert, CopyFile) and pkg/ubuntuUtils/ubuntu.go (ChangeDirectoryOwner).
use greenplum_for_kubernetes.Prelude.{List, [], ◌∷◌}
use greenplum_for_kubernetes.Prelude.Int.{ℤ}
use greenplum_for_kubernetes.Prelude.Text.{String}
use greenplum_for_kubernetes.Prelude.Effects.{
  returned, Eff, Result, ok, err, call, pure, fail, attempt, wrapping, ◌>>=◌, ◌>>◌,
}
use greenplum_for_kubernetes.Instance.Machine.{
  Machine, Call, FileInfo, seek_start, lookup_user, walk, chown, nil_dereference, do_stat,
  do_open_file, do_read_all, do_write, do_copy, do_mkdir_all, finish_append,
}

module _ {K : Type 0} (m : Machine K) where
  -- FileWriter.Insert. A file that cannot be read is left open, as in the source.
  unfoldable pub insert : (dir file : String) → String → Eff Call (Unit {0})
  insert dir file text = do
    made ← attempt (do_mkdir_all m dir)
    do_open_file m file
    contents ← do_read_all m file
    sought ← call (seek_start file) (λ h. ok tt)
    written ← attempt (do_write m file text >> do_write m file contents)
    finish_append m file written

  -- CopyFile of pkg/fileutil/copy.go, where a failed Stat leaves no mode for the new file.
  abbrev pub copy_mode : Result FileInfo → Eff Call (Unit {0})
  copy_mode (ok _) = pure tt
  copy_mode (err _) = fail nil_dereference

  unfoldable pub copy_file : (from to : String) → Eff Call (Unit {0})
  copy_file from to = do
    info ← attempt (do_stat m from)
    wrapping "copy" (do_open_file m from)
    copy_mode info
    wrapping "copy" (do_open_file m to)
    wrapping "copy" (do_copy m from to)

  -- The callback of the walk: the error it is given, or a chown; the first error ends the walk.
  unfoldable pub chown_each : List (Result String) → ℤ → ℤ → Eff Call (Unit {0})
  chown_each [] uid gid = pure tt
  chown_each (err e ∷ _) uid gid = fail e
  chown_each (ok path ∷ rest) uid gid = do
    call (chown path uid gid) (λ h. m.chown h path uid gid)
    chown_each rest uid gid

  -- Ubuntu.ChangeDirectoryOwner of pkg/ubuntuUtils/ubuntu.go
  unfoldable pub change_directory_owner :
      (atoi : String → Result ℤ) (dir user : String) → Eff Call (Unit {0})
  unfolding chown_each
  change_directory_owner atoi dir name = do
    user ← call (lookup_user name) (λ h. m.lookup_user h name)
    uid ← returned (atoi user.uid)
    gid ← returned (atoi user.gid)
    paths ← call (walk dir) (λ h. ok (m.walk h dir))
    chown_each paths uid gid
