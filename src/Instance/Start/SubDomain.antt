-- ===== src/Instance/Start/SubDomain.antt =====
-- AddSubDomain of root_container_starter.go: the agent's domain in /etc/resolv.conf.
pub mod Again
use text.Mathlib.Text.{starts_with}
use greenplum_for_kubernetes.Prelude.{
  ◌≡◌, refl, Bool, true, false, not, ◌&&◌, List, [], ◌∷◌, map, if◌then◌else◌,
}
use greenplum_for_kubernetes.Prelude.Text.{String, ◌&◌, str_eq}
use greenplum_for_kubernetes.Prelude.Split.{split, join, contains_char, trim_suffix}
use greenplum_for_kubernetes.Prelude.Effects.{Eff, ◌>>=◌}
use greenplum_for_kubernetes.Instance.Machine.{Machine, Call, do_read_file, do_write_file}

abbrev pub svc_domain : String
svc_domain = ".svc.cluster.local"

-- The test of getNamespaceDomain on one domain.
abbrev pub is_namespace_domain : String → Bool
is_namespace_domain domain =
    let namespace = trim_suffix domain svc_domain in
    not (str_eq namespace domain) && not (contains_char "." namespace)

unfoldable pub get_namespace_domain : List String → String
get_namespace_domain [] = ""
get_namespace_domain (domain ∷ rest) =
    if is_namespace_domain domain then domain else get_namespace_domain rest

-- The loop of addAgentDomain.
unfoldable pub without : String → List String → List String
without agent [] = []
without agent (domain ∷ rest) =
    let others = without agent rest in if str_eq domain agent then others else domain ∷ others

unfoldable pub add_agent_domain : List String → List String
unfolding get_namespace_domain without
add_agent_domain domains =
    let agent = "agent." & get_namespace_domain domains in agent ∷ without agent domains

-- `searchDomains[1:]`; a split gives one piece at least.
abbrev pub tail : List String → List String
tail [] = []
tail (_ ∷ rest) = rest

unfoldable pub sub_domain_line : String → String
unfolding add_agent_domain split join
sub_domain_line line =
    if starts_with line "search"
    then "search " & join " " (add_agent_domain (tail (split " " line)))
    else line

unfoldable pub sub_domain_text : String → String
unfolding sub_domain_line split join
sub_domain_text contents = join "\n" (map sub_domain_line (split "\n" contents))

module _ {K : Type 0} (m : Machine K) where
  unfoldable pub add_sub_domain : Eff Call (Unit {0})
  unfolding sub_domain_text
  add_sub_domain = do
    contents ← do_read_file m "/etc/resolv.conf"
    do_write_file m "/etc/resolv.conf" (sub_domain_text contents)

resolv_test :
    sub_domain_text "nameserver 10.0.0.1\nsearch gp.svc.cluster.local svc.cluster.local\n"
    ≡ "nameserver 10.0.0.1\nsearch agent.gp.svc.cluster.local gp.svc.cluster.local svc.cluster.local\n"
unfolding sub_domain_text trim_suffix contains_char
resolv_test = refl
