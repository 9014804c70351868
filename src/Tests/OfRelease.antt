-- ===== src/Tests/OfRelease.antt =====
-- The rules of a role, and the check of a release, on concrete packages.
use greenplum_for_kubernetes.Prelude.{◌≡◌, ◌||◌, refl, some, List, [], ◌∷◌, ltb, ℕ}
use greenplum_for_kubernetes.Prelude.Text.{count}
use greenplum_for_kubernetes.Prelude.Map.{Labels}
use greenplum_for_kubernetes.Prelude.Split.{split}
use greenplum_for_kubernetes.Prelude.Effects.{ok}
use greenplum_for_kubernetes.Operator.Roles.{
  PolicyRule, RbacLibrary, breakdown_all, plain_rule, wanted_rules, modify_rules,
}
use greenplum_for_kubernetes.Operator.Roles.Permits.{permits}
use greenplum_for_kubernetes.Operator.Roles.Refines.{modify_rules-permits}
use greenplum_for_kubernetes.Release.{SecurityStory, DebLibrary}

-- Rules that are broken down already.
abbrev rbac : RbacLibrary
rbac = record { breakdown = λ r. r ∷ []; compact = λ rs. ok rs; sort = λ rs. rs }

abbrev pods_rules : List PolicyRule
pods_rules = plain_rule ("list" ∷ []) "pods" ∷ []

breaks_down : rbac.compact (breakdown_all rbac pods_rules) ≡ ok pods_rules
unfolding breakdown_all
breaks_down = refl

modify_rules-permits_example :
    (out : List PolicyRule) × (modify_rules rbac pods_rules ≡ ok out)
    × (permits "" "pods" "get" out
        ≡ (permits "" "pods" "get" pods_rules || permits "" "pods" "get" wanted_rules))
modify_rules-permits_example =
    modify_rules-permits rbac pods_rules pods_rules "" "pods" "get" breaks_down
      (("", "pods", refl, refl), tt) refl (λ l. refl)

-- Words are split at blanks, and a version is as new as it is long.
abbrev debian : DebLibrary ℕ
debian = record {
  lines = λ text. split "\n" text;
  fields = λ line. split " " line;
  match_usn = λ title. some (title, "curl vulnerability");
  match_link = λ description. some "https://usn.ubuntu.com/1";
  new_version = λ v. ok (count v);
  less_than = λ a b. ltb a b;
}

abbrev story : SecurityStory
story = record { id = "1"; title = "USN-1-1"; description = "**18.04 Packages:**\ncurl 7.58.1" }

abbrev receipt : Labels
receipt = ("curl", "7.58") ∷ []
