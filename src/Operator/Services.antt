-- ===== src/Operator/Services.antt =====
-- greenplum-operator/pkg/service: the agent service and the service of the database.
pub mod Ports
use greenplum_for_kubernetes.Prelude.{
  ℕ, Bool, true, false, ◌||◌, ◌==◌, List, [], ◌∷◌, if◌then◌else◌,
}
use greenplum_for_kubernetes.Prelude.Int.{ℤ, pos, ◌==ℤ◌}
use greenplum_for_kubernetes.Prelude.Map.{Labels, insert_all}
use greenplum_for_kubernetes.Prelude.Text.{String, str_eq}

-- TargetPort by its IntVal; `node_port` is not written by the operator.
pub record ServicePort : Type 0 where
  pub name : String
  pub port : ℤ
  pub protocol : String
  pub target_port : ℤ
  pub node_port : ℤ

pub record Service : Type 0 where
  pub labels : Labels
  pub ports : List ServicePort
  pub selector : Labels
  pub type : String
  pub cluster_ip : String
  pub external_traffic_policy : String
  pub session_affinity : String

abbrev blank_port : ServicePort
blank_port = record {
  name = "";
  port = pos 0;
  protocol = "";
  target_port = pos 0;
  node_port = pos 0;
}

abbrev ssh_port : ServicePort → ServicePort
ssh_port p = record p { port = pos 22; protocol = "TCP"; target_port = pos 22 }

-- One port is kept and filled in; any other number of ports gives way to a new one.
abbrev agent_ports : List ServicePort → List ServicePort
agent_ports [] = ssh_port blank_port ∷ []
agent_ports (p ∷ []) = ssh_port p ∷ []
agent_ports (p ∷ _ ∷ _) = ssh_port blank_port ∷ []

abbrev pub cluster_labels : String → Labels
cluster_labels cluster_name = ("app", "greenplum") ∷ ("greenplum-cluster", cluster_name) ∷ []

unfoldable pub modify_greenplum_agent_service : String → Service → Service
modify_greenplum_agent_service cluster_name s = record s {
  labels = insert_all (cluster_labels cluster_name) s.labels;
  ports = agent_ports s.ports;
  selector = cluster_labels cluster_name;
  type = "ClusterIP";
  cluster_ip = "None";
}

abbrev pub is_psql : ServicePort → Bool
is_psql p = str_eq p.name "psql" || p.port ==ℤ pos 5432 || p.target_port ==ℤ pos 5432

abbrev pub psql_port : ServicePort → ServicePort
psql_port p = record p { name = "psql"; port = pos 5432; protocol = "TCP"; target_port = pos 5432 }

unfoldable pub has_psql : List ServicePort → Bool
has_psql [] = false
has_psql (p ∷ rest) = let later = has_psql rest in if is_psql p then true else later

-- The last port that looks like psql is filled in, and a new one where there is none.
unfoldable pub set_psql_port : List ServicePort → List ServicePort
unfolding has_psql
set_psql_port [] = psql_port blank_port ∷ []
set_psql_port (p ∷ rest) =
    let later = set_psql_port rest in
    if is_psql p then (if has_psql rest then p ∷ later else psql_port p ∷ rest) else p ∷ later

unfoldable pub modify_greenplum_service : String → Service → Service
unfolding set_psql_port
modify_greenplum_service cluster_name s = record s {
  labels = insert_all (cluster_labels cluster_name) s.labels;
  ports = set_psql_port s.ports;
  selector = ("statefulset.kubernetes.io/pod-name", "master-0") ∷ [];
  type = "LoadBalancer";
  external_traffic_policy = "Local";
  session_affinity = "None";
}
