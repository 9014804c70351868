-- ===== src/Instance/Start/Gpadmin.antt =====
-- gpadmin_container_starter.go: the home directory of the database's user.
pub mod Bashrc
use greenplum_for_kubernetes.Prelude.{List, [], ◌∷◌, if◌then◌else◌}
use greenplum_for_kubernetes.Prelude.Text.{String, ◌&◌, str_eq}
use greenplum_for_kubernetes.Prelude.Effects.{
  Eff, Error, Result, ok, err, pure, fail, attempt, ◌>>=◌, ◌>>◌,
}
use greenplum_for_kubernetes.Instance.Machine.{
  Machine, Call, FileInfo, plain, do_stat, do_read_file, do_write_file, do_mkdir_all, do_symlink,
}
use greenplum_for_kubernetes.Instance.Files.{insert}

abbrev pub pxf_file : String
pxf_file = "/etc/config/pxfServiceName"

abbrev pub bashrc_source : String
bashrc_source = "source /usr/local/greenplum-db/greenplum_path.sh\n"

-- What goes before the contents of .bashrc, for a PXF service of that name.
abbrev pub bashrc_text : (pxf_service_name : String) → String
bashrc_text name =
    if str_eq name "" then bashrc_source else bashrc_source & "export PXF_HOST=" & name & "\n"

abbrev pub unreadable : Error
unreadable = plain "failed to read /etc/config/pxfServiceName, was configMap mounted properly?"

module _ {K : Type 0} (m : Machine K) where
  abbrev text_of : Result String → Eff Call String
  text_of (ok name) = pure (bashrc_text name)
  text_of (err e) = fail unreadable

  abbrev text_for : Result FileInfo → Eff Call String
  text_for (ok _) = do name ← attempt (do_read_file m pxf_file); text_of name
  text_for (err _) = pure bashrc_source

  unfoldable pub write_contents_to_bashrc : Eff Call (Unit {0})
  unfolding insert
  write_contents_to_bashrc = do
    info ← attempt (do_stat m pxf_file)
    text ← text_for info
    insert m "/home/gpadmin" "/home/gpadmin/.bashrc" text

  unfoldable pub write_files : List (String × String) → Eff Call (Unit {0})
  write_files [] = pure tt
  write_files ((name, content) ∷ rest) = do_write_file m name content >> write_files rest

  -- The keys that the pod has got, for the user; nothing is known of other hosts yet.
  abbrev pub ssh_files : (id_rsa id_rsa_pub : String) → List (String × String)
  ssh_files id_rsa id_rsa_pub =
      ("/home/gpadmin/.ssh/id_rsa", id_rsa)
      ∷ ("/home/gpadmin/.ssh/id_rsa.pub", id_rsa_pub)
      ∷ ("/home/gpadmin/.ssh/authorized_keys", id_rsa_pub)
      ∷ ("/home/gpadmin/.ssh/known_hosts", "")
      ∷ ("/home/gpadmin/.ssh/config", "Host *\n    ConnectionAttempts 5")
      ∷ []

  unfoldable pub setup_ssh_for_gpadmin : Eff Call (Unit {0})
  unfolding write_files
  setup_ssh_for_gpadmin = do
    do_mkdir_all m "/home/gpadmin/.ssh"
    id_rsa ← do_read_file m "/etc/ssh-key/id_rsa"
    id_rsa_pub ← do_read_file m "/etc/ssh-key/id_rsa.pub"
    write_files (ssh_files id_rsa id_rsa_pub)

  unfoldable pub create_sym_link : Eff Call (Unit {0})
  create_sym_link =
      do_mkdir_all m "/greenplum/gpAdminLogs"
      >> do_symlink m "/greenplum/gpAdminLogs" "/home/gpadmin/gpAdminLogs"

  unfoldable pub create_psql_history : Eff Call (Unit {0})
  create_psql_history = do_write_file m "/home/gpadmin/.psql_history" ""

  unfoldable pub create_mirror_dir : Eff Call (Unit {0})
  create_mirror_dir = do_mkdir_all m "/greenplum/mirror"

  -- GpadminContainerStarter.Run
  unfoldable pub run_gpadmin : Eff Call (Unit {0})
  unfolding write_contents_to_bashrc setup_ssh_for_gpadmin create_sym_link create_psql_history
      create_mirror_dir
  run_gpadmin =
      write_contents_to_bashrc >> setup_ssh_for_gpadmin >> create_sym_link >> create_psql_history
      >> create_mirror_dir
