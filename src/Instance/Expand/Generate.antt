-- ===== src/Instance/Expand/Generate.antt =====
-- When the configuration of gpexpand is written, and with what.
use greenplum_for_kubernetes.Prelude.{List, [], ◌∷◌, ◌≡◌, inl, inr, false, arith, Bool-cases}
use greenplum_for_kubernetes.Prelude.Int.{ℤ, pos, leb_ℤ}
use greenplum_for_kubernetes.Prelude.Text.{String, trim_space}
use greenplum_for_kubernetes.Prelude.Effects.{ok, Result-cases}
use greenplum_for_kubernetes.Instance.Machine.{
  Machine, Call, Cmd, output, read_file, write_file, greenplum_command,
}
use greenplum_for_kubernetes.Instance.Config.{Parsers}
use greenplum_for_kubernetes.Instance.Expand.{
  GenerateGpexpandConfigParams, expand_config, exec_psql_query_and_return_int, generate_config,
  run_generate,
}

-- psql run with a query, as the program runs it
abbrev pub psql : String → Cmd
psql query =
    greenplum_command ("/usr/local/greenplum-db/bin/psql" ∷ "-U" ∷ "gpadmin" ∷ "-tAc" ∷ query ∷ [])

abbrev pub max_dbid_query : Cmd
max_dbid_query = psql "SELECT MAX(dbid) FROM gp_segment_configuration"

abbrev pub max_content_query : Cmd
max_content_query = psql "SELECT MAX(content) FROM gp_segment_configuration"

abbrev pub namespace_file : String
namespace_file = "/var/run/secrets/kubernetes.io/serviceaccount/namespace"

module _ {K : Type 0} (m : Machine K) (parsers : Parsers) (p : GenerateGpexpandConfigParams) where
  abbrev pub asked : List Call
  asked = read_file namespace_file ∷ output max_content_query ∷ output max_dbid_query ∷ []

  abbrev pub before_file : List Call
  before_file = output max_content_query ∷ output max_dbid_query ∷ []

  -- What a written configuration was made from.
  pub record Inputs (text : String) : Type 0 where
    pub dbid_out : String
    pub content_out : String
    pub max_dbid : ℤ
    pub max_content : ℤ
    pub namespace : String
    pub positive : leb_ℤ p.new_segment_count (pos 0) ≡ false
    pub grows : leb_ℤ p.new_segment_count p.old_segment_count ≡ false
    pub dbid_answer : m.output [] max_dbid_query ≡ ok dbid_out
    pub dbid_parsed : parsers.atoi (trim_space dbid_out) ≡ ok max_dbid
    pub content_answer : m.output (output max_dbid_query ∷ []) max_content_query ≡ ok content_out
    pub content_parsed : parsers.atoi (trim_space content_out) ≡ ok max_content
    pub namespace_answer : m.read_file before_file namespace_file ≡ ok namespace
    pub text_is : text ≡ expand_config p max_dbid max_content namespace

  -- The last two steps.
  generate_config-writes :
      (n1 n2 : ℤ) (ns text : String) (rest : List Call)
      → (generate_config m parsers p n1 n2 ns asked).1
        ≡ write_file "/tmp/gpexpand_config" text ∷ rest
      → (rest ≡ asked)
        × (leb_ℤ p.new_segment_count p.old_segment_count ≡ false)
        × (text ≡ expand_config p n1 n2 ns)
  unfolding generate_config
  generate_config-writes n1 n2 ns text rest e =
      elim (Bool-cases (leb_ℤ p.new_segment_count p.old_segment_count)) [
        | inl a ↦ absurd (ground arith)
        | inr a ↦ (ground arith, a, ground arith)
      ]

  -- From an empty history, a configuration is written only where the new count is positive and above the old one, and the
  -- two queries and the namespace were answered; its text is made from the answers.
  pub run_generate-writes :
      (text : String) (rest : List Call)
      → (run_generate m parsers p []).1 ≡ write_file "/tmp/gpexpand_config" text ∷ rest
      → (rest ≡ asked) × Inputs text
  unfolding run_generate exec_psql_query_and_return_int generate_config
  run_generate-writes text rest e = elim (Bool-cases (leb_ℤ p.new_segment_count (pos 0))) [
    | inl a ↦ absurd (ground arith)
    | inr a ↦ elim (Result-cases (m.output [] max_dbid_query)) [
      | inr (x, b) ↦ absurd (ground arith)
      | inl (out1, b) ↦ elim (Result-cases (parsers.atoi (trim_space out1))) [
        | inr (x, c) ↦ absurd (ground arith)
        | inl (n1, c) ↦
            elim (Result-cases (m.output (output max_dbid_query ∷ []) max_content_query)) [
              | inr (x, d) ↦ absurd (ground arith)
              | inl (out2, d) ↦ elim (Result-cases (parsers.atoi (trim_space out2))) [
                | inr (x, f) ↦ absurd (ground arith)
                | inl (n2, f) ↦ elim (Result-cases (m.read_file before_file namespace_file)) [
                  | inr (x, g) ↦ absurd (ground arith)
                  | inl (ns, g) ↦
                      let (k, l, t) = generate_config-writes n1 n2 ns text rest (ground arith) in
                      (
                        k,
                        record {
                          dbid_out = out1;
                          content_out = out2;
                          max_dbid = n1;
                          max_content = n2;
                          namespace = ns;
                          positive = a;
                          grows = l;
                          dbid_answer = b;
                          dbid_parsed = c;
                          content_answer = d;
                          content_parsed = f;
                          namespace_answer = g;
                          text_is = t;
                        },
                      )
                ]
              ]
            ]
      ]
    ]
  ]
