-- ===== src/Operator/Job.antt =====
-- greenplum-operator/pkg/gpexpandjob/job.go and pkg/sshkeygen/sshkeygen.go: what the expansion job
-- and the secret of the ssh keys hold.
use greenplum_for_kubernetes.Prelude.{ℕ, Bool, false, Option, none, some, List, [], ◌∷◌}
use greenplum_for_kubernetes.Prelude.Int.{ℤ}
use greenplum_for_kubernetes.Prelude.Text.{String, show_ℤ}
use greenplum_for_kubernetes.Prelude.Map.{Labels, insert_all}
use greenplum_for_kubernetes.Prelude.Effects.{Result, ok, err}

-- A volume from a secret, with the mode of its files, and where a container mounts it.
pub record SecretVolume : Type 0 where
  pub name : String
  pub secret_name : String
  pub default_mode : ℕ

pub record VolumeMount : Type 0 where
  pub name : String
  pub read_only : Bool
  pub mount_path : String

pub record JobContainer : Type 0 where
  pub name : String
  pub image : String
  pub command : List String
  pub env : Labels
  pub image_pull_policy : String
  pub volume_mounts : List VolumeMount

pub record Job : Type 0 where
  pub backoff_limit : ℕ
  pub restart_policy : String
  pub volumes : List SecretVolume
  pub image_pull_secrets : List String
  pub containers : List JobContainer

-- A job that fails is not tried again: the limit is 0 and the pod is not restarted. 292 is 0444.
unfoldable pub generate_job : (image hostname : String) (new_seg_count : ℤ) → Job
generate_job image hostname new_seg_count = record {
  backoff_limit = 0;
  restart_policy = "Never";
  volumes = record { name = "ssh-key"; secret_name = "ssh-secrets"; default_mode = 292 } ∷ [];
  image_pull_secrets = "regsecret" ∷ [];
  containers =
      record {
        name = "gpexpand";
        image = image;
        command = "/home/gpadmin/tools/gpexpand_job.sh" ∷ [];
        env = ("GPEXPAND_HOST", hostname) ∷ ("NEW_SEG_COUNT", show_ℤ new_seg_count) ∷ [];
        image_pull_policy = "IfNotPresent";
        volume_mounts =
            record { name = "ssh-key"; read_only = false; mount_path = "/etc/ssh-key" } ∷ [];
      }
      ∷ [];
}

pub record Secret : Type 0 where
  pub data_ : Labels
  pub labels : Labels
  pub type_ : String

abbrev data_or : Option Labels → Labels → Labels
data_or none old = old
data_or (some keys) old = keys

unfoldable pub modify_secret : (cluster_name : String) → Option Labels → Secret → Secret
modify_secret cluster_name key_data secret = record {
  data_ = data_or key_data secret.data_;
  labels =
      insert_all (("app", "greenplum") ∷ ("greenplum-cluster", cluster_name) ∷ []) secret.labels;
  type_ = "Opaque";
}

-- SSHKeyGenerator, pem and ssh, for private keys `K`: the printed forms of both keys.
pub record KeyGen (K : Type 0) : Type 0 where
  pub generate_private_key : Result K
  pub encode_private_key : K → String
  pub encode_public_key : K → Result String

module _ {K : Type 0} (keygen : KeyGen K) where
  abbrev with_public : K → Result String → Result Labels
  with_public key (ok public) =
      ok (("id_rsa.pub", public) ∷ ("id_rsa", keygen.encode_private_key key) ∷ [])
  with_public key (err e) = err e

  abbrev with_private : Result K → Result Labels
  with_private (ok key) = with_public key (keygen.encode_public_key key)
  with_private (err e) = err e

  unfoldable pub generate_key : Result Labels
  generate_key = with_private keygen.generate_private_key
