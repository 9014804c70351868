-- ===== src/Operator/Roles.antt =====
-- greenplum-operator/pkg/serviceaccount: the rules of the role of the database's pods, and the
-- binding of the role.
pub mod Permits
pub mod Refines
use greenplum_for_kubernetes.Prelude.{
  Bool, true, false, not, ◌||◌, ◌&&◌, List, [], ◌∷◌, ◌++◌, map, if◌then◌else◌,
}
use greenplum_for_kubernetes.Prelude.Text.{String, str_eq}
use greenplum_for_kubernetes.Prelude.Map.{Labels, insert}
use greenplum_for_kubernetes.Prelude.Effects.{Result, ok, err}
use greenplum_for_kubernetes.Instance.Machine.{index_out_of_range}

-- rbacv1.PolicyRule
pub record PolicyRule : Type 0 where
  pub verbs : List String
  pub api_groups : List String
  pub resources : List String
  pub resource_names : List String
  pub non_resource_urls : List String

unfoldable pub slice_contains_string : List String → String → Bool
slice_contains_string [] s = false
slice_contains_string (item ∷ rest) s = str_eq item s || slice_contains_string rest s

abbrev pub is_empty : List String → Bool
is_empty [] = true
is_empty (_ ∷ _) = false

-- The condition of the inner loop, from the left: the first resources, the first groups, which are
-- only looked at where the resources agree, and the resource names.
abbrev pub same_group : (rule add : List String) → (names : List String) → Result Bool
same_group [] _ names = err index_out_of_range
same_group (_ ∷ _) [] names = err index_out_of_range
same_group (g ∷ _) (h ∷ _) names = ok (str_eq g h && is_empty names)

abbrev pub same_resource : (rule add : List String) → Result Bool → Result Bool
same_resource [] _ rest = err index_out_of_range
same_resource (_ ∷ _) [] rest = err index_out_of_range
same_resource (r ∷ _) (s ∷ _) rest = if str_eq r s then rest else ok false

abbrev pub matches : (rule add : PolicyRule) → Result Bool
matches rule add =
    same_resource rule.resources add.resources
      (same_group rule.api_groups add.api_groups rule.resource_names)

-- The loop over the verbs of the rule to add.
unfoldable pub add_verbs : (verbs add : List String) → List String
unfolding slice_contains_string
add_verbs verbs [] = verbs
add_verbs verbs (verb ∷ rest) =
    add_verbs (if slice_contains_string verbs verb then verbs else verbs ++ (verb ∷ [])) rest

-- A rule to add, with `found`.
pub record Addition : Type 0 where
  pub is_found : Bool
  pub rule : PolicyRule

abbrev pub merged : PolicyRule → PolicyRule → PolicyRule
merged rule add = record rule { verbs = add_verbs rule.verbs add.verbs }

abbrev pub with_first :
    Addition → Result (PolicyRule × List Addition) → Result (PolicyRule × List Addition)
with_first a (ok (rule, rest)) = ok (rule, a ∷ rest)
with_first a (err e) = err e

abbrev pub choose : {A : Type 0} → Result Bool → (taken skipped : Result A) → Result A
choose (ok true) taken skipped = taken
choose (ok false) taken skipped = skipped
choose (err e) taken skipped = err e

-- The inner loop for one rule that is there.
unfoldable pub merge_rule : PolicyRule → List Addition → Result (PolicyRule × List Addition)
unfolding add_verbs
merge_rule rule [] = ok (rule, [])
merge_rule rule (a ∷ rest) =
    let taken = merge_rule (merged rule a.rule) rest in
    let skipped = merge_rule rule rest in
    choose (matches rule a.rule) (with_first (record a { is_found = true }) taken)
      (with_first a skipped)

abbrev pub with_rule :
    PolicyRule → Result (List PolicyRule × List Addition) → Result (List PolicyRule × List Addition)
with_rule rule (ok (rules, adds)) = ok (rule ∷ rules, adds)
with_rule rule (err e) = err e

abbrev pub after_rule :
    Result (PolicyRule × List Addition)
    → (List Addition → Result (List PolicyRule × List Addition))
    → Result (List PolicyRule × List Addition)
after_rule (ok (rule, adds)) rest = with_rule rule (rest adds)
after_rule (err e) rest = err e

unfoldable pub merge_rules :
    List PolicyRule → List Addition → Result (List PolicyRule × List Addition)
unfolding merge_rule
merge_rules [] adds = ok ([], adds)
merge_rules (rule ∷ rest) adds = after_rule (merge_rule rule adds) (λ more. merge_rules rest more)

-- The additions that no rule matched.
unfoldable pub not_found : List Addition → List PolicyRule
not_found [] = []
not_found (a ∷ rest) = let others = not_found rest in if a.is_found then others else a.rule ∷ others

abbrev appended : Result (List PolicyRule × List Addition) → Result (List PolicyRule)
appended (ok (rules, adds)) = ok (rules ++ not_found adds)
appended (err e) = err e

abbrev pub unfound : PolicyRule → Addition
unfound rule = record { is_found = false; rule = rule }

unfoldable pub merge_policy_rules : (existing add : List PolicyRule) → Result (List PolicyRule)
unfolding merge_rules not_found
merge_policy_rules existing add = appended (merge_rules existing (map unfound add))

abbrev pub plain_rule : (verbs : List String) → (resource : String) → PolicyRule
plain_rule verbs resource = record {
  verbs = verbs;
  api_groups = "" ∷ [];
  resources = resource ∷ [];
  resource_names = [];
  non_resource_urls = [];
}

abbrev pub wanted_rules : List PolicyRule
wanted_rules =
    plain_rule ("get" ∷ "patch" ∷ []) "persistentvolumeclaims"
    ∷ plain_rule ("get" ∷ []) "pods"
    ∷ plain_rule ("list" ∷ "watch" ∷ []) "endpoints"
    ∷ []

-- BreakdownRule and CompactRules of kubectl's rbac package, and sort.Stable by SortableRuleSlice.
pub record RbacLibrary : Type 0 where
  pub breakdown : PolicyRule → List PolicyRule
  pub compact : List PolicyRule → Result (List PolicyRule)
  pub sort : List PolicyRule → List PolicyRule

module _ (library : RbacLibrary) where
  unfoldable pub breakdown_all : List PolicyRule → List PolicyRule
  breakdown_all [] = []
  breakdown_all (rule ∷ rest) = library.breakdown rule ++ breakdown_all rest

  abbrev sorted : Result (List PolicyRule) → Result (List PolicyRule)
  sorted (ok rules) = ok (library.sort rules)
  sorted (err e) = err e

  abbrev merge_compact : Result (List PolicyRule) → Result (List PolicyRule)
  merge_compact (ok rules) = sorted (merge_policy_rules rules wanted_rules)
  merge_compact (err e) = err e

  -- modifyRules: the new rules, or the error that leaves them as they are.
  unfoldable pub modify_rules : List PolicyRule → Result (List PolicyRule)
  unfolding breakdown_all merge_policy_rules
  modify_rules rules = merge_compact (library.compact (breakdown_all rules))

pub record Subject : Type 0 where
  pub kind : String
  pub api_group : String
  pub name : String
  pub namespace : String

pub record RoleRef : Type 0 where
  pub api_group : String
  pub kind : String
  pub name : String

pub record RoleBinding : Type 0 where
  pub namespace : String
  pub labels : Labels
  pub subjects : List Subject
  pub role_ref : RoleRef

unfoldable pub modify_role_binding : RoleBinding → RoleBinding
modify_role_binding b = record b {
  labels = insert "app" "greenplum" b.labels;
  subjects =
      record {
        kind = "ServiceAccount";
        api_group = "";
        name = "greenplum-system-pod";
        namespace = b.namespace;
      }
      ∷ [];
  role_ref = record {
    api_group = "rbac.authorization.k8s.io";
    kind = "Role";
    name = "greenplum-system-pod";
  };
}
