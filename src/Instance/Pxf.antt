-- ===== src/Instance/Pxf.antt =====
-- greenplum-instance/cmd/startPXF: the download of the configuration and the start of PXF.
pub mod Download
use greenplum_for_kubernetes.Prelude.{
  Bool, true, false, not, ◌||◌, ◌&&◌, ℕ, suc, ltb, ◌==◌, List, [], ◌∷◌, ◌≡◌, refl, if◌then◌else◌,
}
use greenplum_for_kubernetes.Prelude.Text.{String, ◌&◌, str_eq, show, trim_space}
use greenplum_for_kubernetes.Prelude.Split.{split}
use greenplum_for_kubernetes.Prelude.Effects.{
  Eff, Error, Result, ok, err, call, pure, fail, wrapping, ◌>>=◌, ◌>>◌,
}
use greenplum_for_kubernetes.Instance.Machine.{Cmd, plain, plain_command}

-- minio.ObjectInfo; a listing error comes as an object with an error.
pub record ObjectInfo : Type 0 where
  pub key : String
  pub size : ℕ

pub record S3Location : Type 0 where
  pub access_key_id : String
  pub secret_access_key : String
  pub endpoint : String
  pub is_secure : Bool
  pub bucket : String
  pub folder : String

-- What the program calls: the environment, minio's client, the files and the commands.
pub data S3Call : Type 0 where
  new_downloader : S3Location → S3Call
  list_objects : (bucket folder : String) → S3Call
  get_object : (bucket key : String) → S3Call
  mkdir_all : (dir : String) → S3Call
  open_file : (name : String) → S3Call
  copy_object : (key name : String) → S3Call
  run : Cmd → S3Call
  read_file : (name : String) → S3Call

-- The answers, and path.Join and path.Dir, strings.HasSuffix and TrimPrefix of the standard library.
-- `copy_object` gives the number of bytes that io.Copy
-- wrote, `parse_bool` false for a text that strconv.ParseBool refuses.
pub record S3 : Type 0 where
  pub getenv : String → String
  pub parse_bool : String → Bool
  pub new_downloader : List S3Call → S3Location → Result (Unit {0})
  pub list_objects : List S3Call → String → String → List (Result ObjectInfo)
  pub get_object : List S3Call → String → String → Result (Unit {0})
  pub mkdir_all : List S3Call → String → Result (Unit {0})
  pub open_file : List S3Call → String → Result (Unit {0})
  pub copy_object : List S3Call → String → String → Result ℕ
  pub run : List S3Call → Cmd → Result (Unit {0})
  pub read_file : List S3Call → String → Result String
  pub join_path : String → String → String
  pub dir_of : String → String
  pub has_suffix : String → String → Bool
  pub trim_prefix : String → String → String

abbrev head : List String → String
head [] = ""
head (w ∷ _) = w

-- Up to the first "/", or all of the path.
unfoldable pub first_path_component : String → String
unfolding split
first_path_component path = head (split "/" path)

abbrev pub is_known_pxf_conf_subdir : String → Bool
is_known_pxf_conf_subdir d =
    str_eq d "conf"
    || str_eq d "keytabs"
    || str_eq d "lib"
    || str_eq d "logs"
    || str_eq d "servers"
    || str_eq d "templates"

-- The count of objects and whether a known subdirectory was seen, which only a warning shows.
pub record Seen : Type 0 where
  pub num_objects : ℕ
  pub saw_known : Bool

abbrev pub nothing_seen : Seen
nothing_seen = record { num_objects = 0; saw_known = false }

module _ (s : S3) where
  abbrev pub is_content : ObjectInfo → Bool
  is_content info = ltb 0 info.size && not (s.has_suffix info.key "/")

  abbrev pub file_key : (folder key : String) → String
  file_key folder key =
      if str_eq folder "" then key else s.trim_prefix (s.trim_prefix key folder) "/"

  abbrev pub file_name : (folder dir key : String) → String
  file_name folder dir key = s.join_path dir (file_key folder key)

  abbrev check_size : (name : String) (written size : ℕ) → Eff S3Call (Unit {0})
  check_size name written size =
      if ltb written size
      then fail (
          plain (
            "wrote "
            & show written
            & " bytes to \""
            & name
            & "\" but expected to write "
            & show size
            & " bytes"))
      else pure tt

  -- The body of the loop for an object with content.
  unfoldable pub download_object : (bucket folder dir : String) → ObjectInfo → Eff S3Call (Unit {0})
  download_object bucket folder dir info = do
    let name = file_name folder dir info.key
    wrapping "s3 get object"
        (call (get_object bucket info.key) (λ h. s.get_object h bucket info.key))
    wrapping "making download destination directory"
        (call (mkdir_all (s.dir_of name)) (λ h. s.mkdir_all h (s.dir_of name)))
    wrapping "open destination file" (call (open_file name) (λ h. s.open_file h name))
    written ←
        wrapping "writing destination file"
          (call (copy_object info.key name) (λ h. s.copy_object h info.key name))
    check_size name written info.size

  abbrev pub count_object : (folder : String) → ObjectInfo → Seen → Seen
  count_object folder info seen = record {
    num_objects = suc seen.num_objects;
    saw_known =
        seen.saw_known
        || is_known_pxf_conf_subdir (first_path_component (file_key folder info.key));
  }

  -- The loop over the listing.
  unfoldable pub download_all :
      (bucket folder dir : String) → List (Result ObjectInfo) → Seen → Eff S3Call Seen
  unfolding download_object
  download_all bucket folder dir [] seen = pure seen
  download_all bucket folder dir (err e ∷ _) seen = wrapping "s3 list objects" (fail e)
  download_all bucket folder dir (ok info ∷ rest) seen =
      let next =
        download_object bucket folder dir info
        >> download_all bucket folder dir rest (count_object folder info seen) in
      let skip = download_all bucket folder dir rest seen in if is_content info then next else skip

  abbrev require_objects : (bucket folder : String) → Seen → Eff S3Call (Unit {0})
  require_objects bucket folder seen =
      if seen.num_objects == 0
      then fail (plain ("no objects found in pxfConf.s3Source location: " & bucket & "/" & folder))
      else pure tt

  unfoldable pub download_bucket_path : (bucket folder dir : String) → Eff S3Call (Unit {0})
  unfolding download_all
  download_bucket_path bucket folder dir = do
    objects ← call (list_objects bucket folder) (λ h. ok (s.list_objects h bucket folder))
    seen ← download_all bucket folder dir objects nothing_seen
    require_objects bucket folder seen

  unfoldable pub read_s3_location_from_env : S3Location
  read_s3_location_from_env = record {
    access_key_id = s.getenv "S3_ACCESS_KEY_ID";
    secret_access_key = s.getenv "S3_SECRET_ACCESS_KEY";
    endpoint = s.getenv "S3_ENDPOINT";
    is_secure = s.parse_bool (s.getenv "S3_ENDPOINT_IS_SECURE");
    bucket = s.getenv "S3_BUCKET";
    folder = s.getenv "S3_FOLDER";
  }

  abbrev pub start_command : Cmd
  start_command = plain_command ("/usr/local/pxf-gp6/bin/pxf" ∷ "start" ∷ [])

  abbrev tail_command : String → Cmd
  tail_command pid = plain_command (
      "tail"
      ∷ ("--pid=" & trim_space pid)
      ∷ "-f"
      ∷ "/etc/pxf/logs/pxf-service.log"
      ∷ "-n"
      ∷ "+0"
      ∷ [])

  abbrev do_run : Cmd → Eff S3Call (Unit {0})
  do_run c = call (run c) (λ h. s.run h c)

  abbrev pub download_from : S3Location → Eff S3Call (Unit {0})
  download_from s3 = do
    call (new_downloader s3) (λ h. s.new_downloader h s3)
    download_bucket_path s3.bucket s3.folder "/etc/pxf"

  abbrev pub download_if_given : S3Location → Eff S3Call (Unit {0})
  download_if_given s3 = let go = download_from s3 in if str_eq s3.endpoint "" then pure tt else go

  -- Once the configuration is there: start, and follow the log as long as PXF runs.
  abbrev pub start_and_follow : Eff S3Call (Unit {0})
  start_and_follow = do
    do_run start_command
    pid ← wrapping "reading catalina.pid file" (
        call (read_file "/usr/local/pxf-gp6/run/catalina.pid")
          (λ h. s.read_file h "/usr/local/pxf-gp6/run/catalina.pid"))
    wrapping "reading logs" (do_run (tail_command pid))

  -- PXFStarter.Run
  unfoldable pub run_pxf : Eff S3Call (Unit {0})
  unfolding read_s3_location_from_env download_bucket_path
  run_pxf = download_if_given read_s3_location_from_env >> start_and_follow
