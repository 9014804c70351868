-- ===== src/Instance/Start/Cgroup.antt =====
-- CreateGpdbCgroup and ParseProcCgroupMounts of root_container_starter.go: the directories of the
-- control groups that the database uses.
pub mod Mounted
pub mod Only
use greenplum_for_kubernetes.Prelude.{
  zero, suc, Bool, ◌||◌, Option, none, some, ℕ, List, [], ◌∷◌, ◌≡◌, refl, if◌then◌else◌,
}
use greenplum_for_kubernetes.Prelude.Text.{String, ◌&◌, str_eq}
use greenplum_for_kubernetes.Prelude.Map.{Labels, lookup, insert}
use greenplum_for_kubernetes.Prelude.Split.{split}
use greenplum_for_kubernetes.Prelude.Effects.{
  returned, Eff, Result, ok, err, call, pure, wrapping, ◌>>=◌, ◌>>◌,
}
use greenplum_for_kubernetes.Instance.Machine.{
  Machine, Call, Cmd, close, read_all, do_run, do_open_file, plain_command, index_out_of_range,
}

-- `words[i]`, which panics past the end.
abbrev pub at : ℕ → List String → Result String
at i [] = err index_out_of_range
at zero (w ∷ _) = ok w
at (suc i) (_ ∷ ws) = at i ws

-- gpdbSubSystemNames
abbrev pub is_gpdb_sub_system : String → Bool
is_gpdb_sub_system name =
    str_eq name "cpu" || str_eq name "cpuacct" || str_eq name "cpuset" || str_eq name "memory"

-- The loop over the options of a mount.
unfoldable pub add_options : (point : String) (options : List String) → Labels → Labels
add_options point [] mounts = mounts
add_options point (option ∷ rest) mounts =
    let more = add_options point rest (insert option point mounts) in
    let same = add_options point rest mounts in if is_gpdb_sub_system option then more else same

abbrev pub then_add : (options point : Result String) → Labels → Result Labels
then_add (err e) _ mounts = err e
then_add (ok _) (err e) mounts = err e
then_add (ok options) (ok point) mounts = ok (add_options point (split "," options) mounts)

abbrev pub add_mount : List String → Result String → Labels → Result Labels
add_mount words (err e) mounts = err e
add_mount words (ok kind) mounts =
    if str_eq kind "cgroup" then then_add (at 3 words) (at 1 words) mounts else ok mounts

abbrev pub and_then : Result Labels → (Labels → Result Labels) → Result Labels
and_then (ok a) f = f a
and_then (err e) f = err e

-- The loop over the lines of /proc/mounts; a line that is too short panics.
unfoldable pub parse_lines : (lines : List String) → Labels → Result Labels
unfolding add_options split
parse_lines [] mounts = ok mounts
parse_lines (line ∷ rest) mounts =
    let words = split " " line in and_then (add_mount words (at 2 words) mounts) (parse_lines rest)

-- `defer file.Close()`
abbrev pub closing : {A : Type 0} → String → Eff Call A → Eff Call A
closing path body h = let (r, h') = body h in (r, close path ∷ h')

abbrev pub install_command : String → Cmd
install_command dir =
    plain_command ("install" ∷ "-d" ∷ "-o" ∷ "gpadmin" ∷ "-g" ∷ "gpadmin" ∷ dir ∷ [])

abbrev pub chown_command : String → Cmd
chown_command dir = plain_command ("chown" ∷ "-R" ∷ "gpadmin:gpadmin" ∷ dir ∷ [])

-- The lines that a bufio.Scanner finds in an open file.
abbrev pub do_scan_lines :
    (scanned : List Call → String → List String) → String → Eff Call (List String)
do_scan_lines scanned path = call (read_all path) (λ h. ok (scanned h path))

module _ {K : Type 0} (m : Machine K) where
  unfoldable pub make_dir : String → Eff Call (Unit {0})
  make_dir dir = do
    wrapping ("failed to create cgroup dir " & dir & " with gpadmin as owner")
        (do_run m (install_command dir))
    wrapping ("failed to change ownership of " & dir & " to gpadmin") (do_run m (chown_command dir))

  abbrev pub make_if_mounted : Option String → (path : Result String) → Eff Call (Unit {0})
  make_if_mounted none path = pure tt
  make_if_mounted (some point) path = do p ← returned path; make_dir (point & p & "/gpdb")

  -- The loop over the subsystems of a line.
  unfoldable pub make_dirs :
      (mounts : Labels) (names : List String) (path : Result String) → Eff Call (Unit {0})
  unfolding make_dir
  make_dirs mounts [] path = pure tt
  make_dirs mounts (name ∷ rest) path =
      make_if_mounted (lookup name mounts) path >> make_dirs mounts rest path

  -- The loop over the lines of /proc/self/cgroup.
  unfoldable pub make_lines : (mounts : Labels) (lines : List String) → Eff Call (Unit {0})
  unfolding make_dirs split
  make_lines mounts [] = pure tt
  make_lines mounts (line ∷ rest) =
      (do
        let words = split ":" line
        names ← returned (at 1 words)
        make_dirs mounts (split "," names) (at 2 words))
      >> make_lines mounts rest

module _ {K : Type 0} (m : Machine K) (scanned : List Call → String → List String) where
  unfoldable pub parse_proc_cgroup_mounts : Eff Call Labels
  unfolding parse_lines
  parse_proc_cgroup_mounts = do
    do_open_file m "/proc/mounts"
    closing "/proc/mounts"
        (do lines ← do_scan_lines scanned "/proc/mounts"; returned (parse_lines lines []))

  unfoldable pub create_gpdb_cgroup : Eff Call (Unit {0})
  unfolding parse_proc_cgroup_mounts make_lines
  create_gpdb_cgroup = do
    mounts ← parse_proc_cgroup_mounts
    do_open_file m "/proc/self/cgroup"
    closing "/proc/self/cgroup"
        (do lines ← do_scan_lines scanned "/proc/self/cgroup"; make_lines m mounts lines)
