-- ===== src/Tests/Fixtures.antt =====
-- Quantities as natural numbers, a cluster, and an API server that has nothing else.
use greenplum_for_kubernetes.Prelude.{
  ◌≡◌, ◌≢◌, arith, ℕ, true, false, none, [], ◌∷◌, ltb, ◌==◌, if◌then◌else◌,
}
use greenplum_for_kubernetes.Prelude.Int.{pos, negsuc}
use greenplum_for_kubernetes.Prelude.Text.{String, show, str_eq, eq_iff}
use greenplum_for_kubernetes.Prelude.Effects.{Error}
use greenplum_for_kubernetes.Api.Quantity.{Quantities}
use greenplum_for_kubernetes.Api.Cluster.{GreenplumCluster, GreenplumPodSpec, pending}
use greenplum_for_kubernetes.Api.Pxf.{GreenplumPxfService}
use greenplum_for_kubernetes.Api.Pxf

abbrev pub numbers : Quantities ℕ
numbers = record {
  zero = 0;
  sign = λ q. pos q;
  cmp = λ a b. if ltb a b then negsuc 0 else if a == b then pos 0 else pos 1;
  to_string = λ q. show q;
  same = λ a b. a == b;
}

abbrev pub missing : Error
missing = record { message = "not found"; is_not_found = true }

abbrev pub broken : Error
broken = record { message = "broken"; is_not_found = false }

abbrev pub pod : GreenplumPodSpec ℕ
pod = record {
  memory = 4;
  cpu = 2;
  storage_class_name = "standard";
  storage = 10;
  worker_selector = [];
  anti_affinity = "yes";
}

abbrev pub cluster : GreenplumCluster ℕ
cluster = record {
  name = "my-greenplum";
  namespace = "gp";
  finalizers = "stopcluster.greenplumcluster.pivotal.io" ∷ [];
  is_deleted = false;
  spec = record {
    master_and_standby = record { pod = pod; host_based_authentication = ""; standby = "yes" };
    segments = record { pod = pod; primary_segment_count = pos 2; mirrors = "yes" };
    pxf = record { service_name = "" };
  };
  status = record {
    instance_image = "greenplum:1";
    operator_version = "operator:1";
    phase = pending;
  };
}

abbrev pub pxf_service : GreenplumPxfService ℕ
pxf_service = record {
  name = "my-pxf";
  namespace = "gp";
  spec = record { replicas = pos 2; cpu = 2; memory = 4; worker_selector = []; pxf_conf = none };
  phase = Pxf.pending;
}

-- Texts that the test tells apart differ.
pub differ : (s t : String) → str_eq s t ≡ false → s ≢ t
differ s t h e = ground (arith, eq_iff s t)
