-- ===== src/Instance/Expand/Main/Expands.antt =====
-- What has happened where the expansion program succeeds.
use greenplum_for_kubernetes.Prelude.{◌≡◌, false, List, In}
use greenplum_for_kubernetes.Prelude.Int.{ℤ, pos, leb_ℤ}
use greenplum_for_kubernetes.Prelude.Text.{String}
use greenplum_for_kubernetes.Instance.Machine.{Machine, Call, run, write_file, plain_command}
use greenplum_for_kubernetes.Instance.Config.{Parsers}
use greenplum_for_kubernetes.Instance.Expand.{
  GenerateGpexpandConfigParams, expand_config, gpexpand_command,
}

abbrev dbid_query : String
dbid_query = "SELECT MAX(dbid) FROM gp_segment_configuration"

abbrev content_query : String
content_query = "SELECT MAX(content) FROM gp_segment_configuration"

abbrev namespace_file : String
namespace_file = "/var/run/secrets/kubernetes.io/serviceaccount/namespace"

module _ {K : Type 0} (m : Machine K) (parsers : Parsers) where
  -- A configuration for these counts was written, and both counts allow it.
  abbrev pub IsConfigured : GenerateGpexpandConfigParams → List Call → Type 0
  IsConfigured p h =
      (leb_ℤ p.new_segment_count (pos 0) ≡ false)
      × (leb_ℤ p.new_segment_count p.old_segment_count ≡ false)
      × (max_dbid : ℤ) × (max_content : ℤ) × (namespace : String) × In
          (write_file "/tmp/gpexpand_config" (expand_config p max_dbid max_content namespace)) h

  abbrev gpexpand : Call
  gpexpand = run (plain_command (gpexpand_command m parsers))
