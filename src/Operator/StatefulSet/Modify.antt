-- ===== src/Operator/StatefulSet/Modify.antt =====
-- ModifyGreenplumStatefulSet of greenplum-operator/pkg/sset/sset.go: how a StatefulSet is brought
-- to what the parameters ask. A nil map and an empty one are the same here.
pub mod Idempotent
use greenplum_for_kubernetes.Prelude.{ℕ, Option, none, some, List, [], ◌∷◌, Bool, if◌then◌else◌}
use greenplum_for_kubernetes.Prelude.Int.{ℤ, pos, ◌==ℤ◌}
use greenplum_for_kubernetes.Prelude.Map.{Labels, lookup, insert, insert_all}
use greenplum_for_kubernetes.Prelude.Text.{String, ◌&◌, str_eq}
use greenplum_for_kubernetes.Api.Quantity.{Quantities}
use greenplum_for_kubernetes.Operator.StatefulSet.{
  StatefulSetType, type_master, type_segment_a, type_segment_b, GreenplumStatefulSetParams,
}

pub record Probe : Type 0 where
  pub tcp_port : Option ℕ
  pub initial_delay_seconds : ℕ
  pub period_seconds : ℕ  -- not written by the operator

pub record Container (Q : Type 0) : Type 0 where
  pub name : String
  pub args : List String
  pub image : String
  pub image_pull_policy : String
  pub ports : List (ℕ × String)
  pub readiness_probe : Option Probe
  pub limits : List (String × Q)
  pub requests : List (String × Q)  -- not written by the operator
  pub env : List (String × String)
  pub volume_mounts : List (String × String)

pub record VolumeClaim (Q : Type 0) : Type 0 where
  pub name : String
  pub storage_class_name : Option String
  pub access_modes : List String
  pub limits : List (String × Q)
  pub requests : List (String × Q)

pub data VolumeSource : Type 0 where
  secret : (name : String) (default_mode : ℕ) → VolumeSource
  config : (name : String) (default_mode : ℕ) → VolumeSource
  host_path : (path type : String) → VolumeSource
  downward : (items : List (String × String × String)) (default_mode : ℕ) → VolumeSource

-- The node label with its allowed values, and the label and topology key that keep pods apart.
pub record Affinity : Type 0 where
  pub node_key : String
  pub node_values : List String
  pub apart : Option (String × List String × String)

pub record StatefulSet (Q : Type 0) : Type 0 where
  pub name : String
  pub namespace : String
  pub labels : Labels
  pub replicas : Option ℤ
  pub selector : Labels
  pub service_name : String
  pub pod_management_policy : String
  pub claims : List (VolumeClaim Q)
  pub template_labels : Labels
  pub dns_searches : List String
  pub node_selector : Labels
  pub image_pull_secrets : List String
  pub containers : List (Container Q)
  pub volumes : List (String × VolumeSource)
  pub affinity : Option Affinity
  pub service_account_name : String

abbrev headless_service_name : String
headless_service_name = "agent"

-- corev1's defaults are 0644; heapvalue.NewInt32(0444) is 292.
abbrev pub get_volume_definition : List (String × VolumeSource)
get_volume_definition =
    ("ssh-key-volume", secret "ssh-secrets" 292)
    ∷ ("config-volume", config "greenplum-config" 420)
    ∷ ("cgroups", host_path "/sys/fs/cgroup" "")
    ∷ (
      "podinfo",
      downward
          (("namespace", "v1", "metadata.namespace")
            ∷ ("greenplumClusterName", "v1", "metadata.labels['greenplum-cluster']")
            ∷ [])
          420,
    )
    ∷ []

abbrev pub get_affinity_definition : StatefulSetType → String → Affinity
get_affinity_definition type_master ns = record {
  node_key = "greenplum-affinity-" & ns & "-master";
  node_values = "true" ∷ [];
  apart = some ("type", "master" ∷ [], "kubernetes.io/hostname");
}
get_affinity_definition type_segment_a ns = record {
  node_key = "greenplum-affinity-" & ns & "-segment";
  node_values = "a" ∷ [];
  apart = none;
}
get_affinity_definition type_segment_b ns = record {
  node_key = "greenplum-affinity-" & ns & "-segment";
  node_values = "b" ∷ [];
  apart = none;
}

abbrev pub generate_gp_cluster_labels : String → String → Labels
generate_gp_cluster_labels typ cluster_name =
    ("app", "greenplum") ∷ ("type", typ) ∷ ("greenplum-cluster", cluster_name) ∷ []

abbrev ready_probe : Option Probe → Probe
ready_probe none = record { tcp_port = some 22; initial_delay_seconds = 5; period_seconds = 0 }
ready_probe (some p) = record p { tcp_port = some 22; initial_delay_seconds = 5 }

module _ {Q : Type 0} (quantity : Quantities Q) where
  abbrev found : Option Q → Q
  found none = quantity.zero
  found (some q) = q

  -- A limit is written only where it compares different, so an equal one keeps its spelling.
  unfoldable pub set_limit : String → Q → List (String × Q) → List (String × Q)
  set_limit key q limits =
      if quantity.cmp q (found (lookup key limits)) ==ℤ pos 0 then limits else insert key q limits

  module _ (p : GreenplumStatefulSetParams Q) where
    abbrev fill_claim : VolumeClaim Q → VolumeClaim Q
    fill_claim c = record {
      name = p.cluster_name & "-pgdata";
      storage_class_name = some p.gp_pod_spec.storage_class_name;
      access_modes = "ReadWriteOnce" ∷ [];
      limits = ("storage", p.gp_pod_spec.storage) ∷ [];
      requests = ("storage", p.gp_pod_spec.storage) ∷ [];
    }

    abbrev blank_claim : VolumeClaim Q
    blank_claim = record {
      name = "";
      storage_class_name = none;
      access_modes = [];
      limits = [];
      requests = [];
    }

    unfoldable pub modify_greenplum_pvc : List (VolumeClaim Q) → List (VolumeClaim Q)
    modify_greenplum_pvc [] = fill_claim blank_claim ∷ []
    modify_greenplum_pvc (c ∷ rest) = fill_claim c ∷ rest

    abbrev pub fill_container : Container Q → Container Q
    fill_container c = record c {
      name = "greenplum";
      args = "/home/gpadmin/tools/startGreenplumContainer" ∷ [];
      image = p.instance_image;
      image_pull_policy = "IfNotPresent";
      ports = (22, "TCP") ∷ [];
      readiness_probe = some (ready_probe c.readiness_probe);
      limits = set_limit "cpu" p.gp_pod_spec.cpu (set_limit "memory" p.gp_pod_spec.memory c.limits);
      env = ("MASTER_DATA_DIRECTORY", "/greenplum/data-1") ∷ [];
      volume_mounts =
          ("ssh-key-volume", "/etc/ssh-key")
          ∷ ("config-volume", "/etc/config")
          ∷ (p.cluster_name & "-pgdata", "/greenplum")
          ∷ ("cgroups", "/sys/fs/cgroup")
          ∷ ("podinfo", "/etc/podinfo")
          ∷ [];
    }

    abbrev pub blank_container : Container Q
    blank_container = record {
      name = "";
      args = [];
      image = "";
      image_pull_policy = "";
      ports = [];
      readiness_probe = none;
      limits = [];
      requests = [];
      env = [];
      volume_mounts = [];
    }

    unfoldable pub modify_greenplum_container : List (Container Q) → List (Container Q)
    modify_greenplum_container [] = fill_container blank_container ∷ []
    modify_greenplum_container (c ∷ rest) = fill_container c ∷ rest

    abbrev pub node_selector_of : Labels → Labels → Labels
    node_selector_of [] old = old
    node_selector_of (l ∷ rest) old = l ∷ rest

    unfoldable pub modify_greenplum_stateful_set : StatefulSet Q → StatefulSet Q
    modify_greenplum_stateful_set s =
        let labels = generate_gp_cluster_labels s.name p.cluster_name in
        record {
          name = s.name;
          namespace = s.namespace;
          labels = insert_all labels s.labels;
          replicas = some p.replicas;
          selector = labels;
          service_name = headless_service_name;
          pod_management_policy = "Parallel";
          claims = modify_greenplum_pvc s.claims;
          template_labels = insert_all labels s.template_labels;
          dns_searches = (headless_service_name & "." & s.namespace & ".svc.cluster.local") ∷ [];
          node_selector = node_selector_of p.gp_pod_spec.worker_selector s.node_selector;
          image_pull_secrets = "regsecret" ∷ [];
          containers = modify_greenplum_container s.containers;
          volumes = get_volume_definition;
          affinity =
              if str_eq p.gp_pod_spec.anti_affinity "yes"
              then some (get_affinity_definition p.type s.namespace)
              else s.affinity;
          service_account_name = "greenplum-system-pod";
        }
