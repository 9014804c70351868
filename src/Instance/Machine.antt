-- ===== src/Instance/Machine.antt =====
-- The pod as the programs see it: its commands, its files and the other hosts. Every answer is a
-- function of the calls made before, newest first. What is printed and logged is not modelled.
use greenplum_for_kubernetes.Prelude.{ℕ, Bool, false, List, [], ◌∷◌}
use greenplum_for_kubernetes.Prelude.Int.{ℤ}
use greenplum_for_kubernetes.Prelude.Map.{Labels}
use greenplum_for_kubernetes.Prelude.Text.{String}
use greenplum_for_kubernetes.Prelude.Effects.{
  Error, Eff, Result, ok, err, call, pure, fail, attempt, ◌>>=◌, ◌>>◌,
}

-- exec.Cmd: the command with its arguments, and what is appended to its environment.
pub record Cmd : Type 0 where
  pub args : List String
  pub env : Labels

-- os.FileInfo
pub record FileInfo : Type 0 where
  pub is_dir : Bool
  pub size : ℕ

-- The multihost operations: resolving a name, waiting for its known_hosts entry, the command
-- that waits on the other host.
pub data Operation : Type 0 where
  resolve wait_for_known_host : Operation
  ssh_execute : (command : String) → Operation

pub data Call : Type 0 where
  run : Cmd → Call
  output : Cmd → Call
  stat : (path : String) → Call
  lstat : (path : String) → Call
  read_file : (path : String) → Call
  mkdir_all : (path : String) → Call
  open_file : (path : String) → Call
  write : (path text : String) → Call
  close : (path : String) → Call
  write_file : (path text : String) → Call
  read_all : (path : String) → Call
  seek_start : (path : String) → Call
  copy : (from to : String) → Call
  symlink : (from to : String) → Call
  lookup_user : (name : String) → Call
  walk : (dir : String) → Call
  chown : (path : String) (uid gid : ℤ) → Call
  operate : Operation → (hosts : List String) → Call
  scan : (hosts : List String) → Call

-- user.User of os/user.
pub record User : Type 0 where
  pub uid : String
  pub gid : String

pub record HostKey (K : Type 0) : Type 0 where
  pub hostname : String
  pub public_key : Result K

-- `K` is ssh.PublicKey. `operate` gives what ParallelForeach receives on its channel, one answer
-- for every host, and `scan` what ScanHostKeys receives, both in the order of arrival. `walk` gives
-- the paths below a directory in the order of filepath.Walk, or its error for one of them.
pub record Machine (K : Type 0) : Type 0 where
  pub run : List Call → Cmd → Result (Unit {0})
  pub output : List Call → Cmd → Result String
  pub stat : List Call → String → Result FileInfo
  pub lstat : List Call → String → Result FileInfo
  pub read_file : List Call → String → Result String
  pub open_file : List Call → String → Result (Unit {0})
  pub write : List Call → String → String → Result (Unit {0})
  pub close : List Call → String → Result (Unit {0})
  pub write_file : List Call → String → String → Result (Unit {0})
  pub read_all : List Call → String → Result String
  pub copy : List Call → String → String → Result (Unit {0})
  pub mkdir_all : List Call → String → Result (Unit {0})
  pub symlink : List Call → String → String → Result (Unit {0})
  pub lookup_user : List Call → String → Result User
  pub walk : List Call → String → List (Result String)
  pub chown : List Call → String → ℤ → ℤ → Result (Unit {0})
  pub operate : List Call → Operation → List String → List (Result (Unit {0}))
  pub scan : List Call → List String → List (HostKey K)

-- cluster.NewGreenplumCommand(_).Command of cluster/greenplum_command.go
abbrev pub greenplum_command : List String → Cmd
greenplum_command args = record {
  args = args;
  env =
      ("HOME", "/home/gpadmin")
      ∷ ("USER", "gpadmin")
      ∷ ("LOGNAME", "gpadmin")
      ∷ ("GPHOME", "/usr/local/greenplum-db")
      ∷ (
        "PATH",
        "/usr/local/greenplum-db/bin:/usr/local/sbin:/usr/local/bin:/usr/sbin:/usr/bin:/sbin:/bin",
      )
      ∷ ("LD_LIBRARY_PATH", "/usr/local/greenplum-db/lib:/usr/local/greenplum-db/ext/python/lib")
      ∷ ("MASTER_DATA_DIRECTORY", "/greenplum/data-1")
      ∷ ("PYTHONHOME", "/usr/local/greenplum-db/ext/python")
      ∷ ("PYTHONPATH", "/usr/local/greenplum-db/lib/python")
      ∷ [];
}

abbrev pub plain_command : List String → Cmd
plain_command args = record { args = args; env = [] }

-- errors.New
abbrev pub plain : String → Error
plain message = record { message = message; is_not_found = false }

-- A panic ends the program; here it is an error, told apart by its text.
abbrev pub nil_dereference : Error
nil_dereference = plain "invalid memory address or nil pointer dereference"

abbrev pub index_out_of_range : Error
index_out_of_range = plain "index out of range"

-- The errors that ParallelForeach of pkg/net/multihost/parallel_foreach.go accumulates.
unfoldable pub errors_of : List (Result (Unit {0})) → List Error
errors_of [] = []
errors_of (ok _ ∷ rest) = errors_of rest
errors_of (err e ∷ rest) = e ∷ errors_of rest

module _ {K : Type 0} (m : Machine K) where
  abbrev pub do_run : Cmd → Eff Call (Unit {0})
  do_run c = call (run c) (λ h. m.run h c)

  abbrev pub do_output : Cmd → Eff Call String
  do_output c = call (output c) (λ h. m.output h c)

  abbrev pub do_stat : String → Eff Call FileInfo
  do_stat p = call (stat p) (λ h. m.stat h p)

  abbrev pub do_lstat : String → Eff Call FileInfo
  do_lstat p = call (lstat p) (λ h. m.lstat h p)

  abbrev pub do_read_file : String → Eff Call String
  do_read_file p = call (read_file p) (λ h. m.read_file h p)

  abbrev pub do_open_file : String → Eff Call (Unit {0})
  do_open_file p = call (open_file p) (λ h. m.open_file h p)

  abbrev pub do_write : String → String → Eff Call (Unit {0})
  do_write p text = call (write p text) (λ h. m.write h p text)

  abbrev pub do_close : String → Eff Call (Unit {0})
  do_close p = call (close p) (λ h. m.close h p)

  abbrev pub do_write_file : String → String → Eff Call (Unit {0})
  do_write_file p text = call (write_file p text) (λ h. m.write_file h p text)

  abbrev pub do_read_all : String → Eff Call String
  do_read_all p = call (read_all p) (λ h. m.read_all h p)

  abbrev pub do_copy : String → String → Eff Call (Unit {0})
  do_copy from to = call (copy from to) (λ h. m.copy h from to)

  abbrev pub do_mkdir_all : String → Eff Call (Unit {0})
  do_mkdir_all p = call (mkdir_all p) (λ h. m.mkdir_all h p)

  abbrev pub do_symlink : String → String → Eff Call (Unit {0})
  do_symlink from to = call (symlink from to) (λ h. m.symlink h from to)

  abbrev pub do_scan : List String → Eff Call (List (HostKey K))
  do_scan hosts = call (scan hosts) (λ h. ok (m.scan h hosts))

  -- `if errs := multihost.ParallelForeach(op, hosts); len(errs) != 0 { return errors.New(text) }`
  abbrev pub fail_if_any : List Error → String → Eff Call (Unit {0})
  fail_if_any [] text = pure tt
  fail_if_any (_ ∷ _) text = fail (plain text)

  unfoldable pub foreach_or_fail : Operation → List String → String → Eff Call (Unit {0})
  unfolding errors_of
  foreach_or_fail op hosts text = do
    answers ← call (operate op hosts) (λ h. ok (m.operate h op hosts))
    fail_if_any (errors_of answers) text

  -- FileWriter.Append of pkg/fileutil/file_writer.go, called with the file's directory `dir`.
  abbrev pub finish_append : String → Result (Unit {0}) → Eff Call (Unit {0})
  finish_append file (ok _) = do_close file
  finish_append file (err e) = do closed ← attempt (do_close file); fail e

  unfoldable pub append : (dir file : String) → String → Eff Call (Unit {0})
  append dir file text = do
    made ← attempt (do_mkdir_all dir)
    do_open_file file
    written ← attempt (do_write file text)
    finish_append file written
