-- ===== src/Operator/Roles/Permits.antt =====
-- What rules permit, and what the inner loop of mergePolicyRules does to it.
use greenplum_for_kubernetes.Prelude.{
  inr, inl, ◌≡◌, refl, ap, Bool, true, false, ◌||◌, ◌&&◌, List, [], ◌∷◌, ◌++◌, map, arith, All,
  Bool-cases,
}
use greenplum_for_kubernetes.Prelude.Text.{String, eq_iff}
use greenplum_for_kubernetes.Prelude.Effects.{ok}
use greenplum_for_kubernetes.Operator.Roles.{
  PolicyRule, slice_contains_string, is_empty, matches, add_verbs, Addition, merged, merge_rule,
  not_found,
}

-- What a user of the role may do, as an abstract set: a rule on all objects of a resource permits
-- its verbs on its resources in its groups.
module _ (group resource verb : String) where
  abbrev pub rule_permits : PolicyRule → Bool
  rule_permits r =
      is_empty r.resource_names
      && slice_contains_string r.api_groups group
      && slice_contains_string r.resources resource
      && slice_contains_string r.verbs verb

  abbrev pub permits : List PolicyRule → Bool
  permits [] = false
  permits (r ∷ rest) = rule_permits r || permits rest

-- A rule for one resource of one group.
abbrev pub IsSimple : PolicyRule → Type 0
IsSimple r =
    (group : String) × (resource : String) × (r.api_groups ≡ group ∷ [])
    × (r.resources ≡ resource ∷ [])

contains-append :
    (xs ys : List String) (s : String)
    → slice_contains_string (xs ++ ys) s
      ≡ (slice_contains_string xs s || slice_contains_string ys s)
unfolding slice_contains_string
contains-append [] ys s = refl
contains-append (x ∷ xs) ys s = ground (arith, contains-append xs ys s)

-- Adding the verbs of a rule gives the union.
contains-add_verbs :
    (verbs add : List String) (s : String)
    → slice_contains_string (add_verbs verbs add) s
      ≡ (slice_contains_string verbs s || slice_contains_string add s)
unfolding add_verbs slice_contains_string
contains-add_verbs verbs [] s = ground arith
contains-add_verbs verbs (v ∷ rest) s = elim (Bool-cases (slice_contains_string verbs v)) [
  | inl e ↦ rw (e, contains-add_verbs verbs rest s) (ground (arith, e, eq_iff v s))
  | inr e ↦
      rw (e, contains-add_verbs (verbs ++ (v ∷ [])) rest s, contains-append verbs (v ∷ []) s)
        (ground arith)
]

abbrev first : List String → String
first [] = ""
first (s ∷ _) = s

-- Whether a rule is for the resource of a rule to add, with no names.
abbrev is_match : (rule add : PolicyRule) → Bool
is_match rule add =
    is_empty rule.resource_names
    && slice_contains_string rule.resources (first add.resources)
    && slice_contains_string rule.api_groups (first add.api_groups)

matches-simple :
    (rule add : PolicyRule)
    → IsSimple rule
    → IsSimple add
    → matches rule add ≡ ok (is_match rule add)
unfolding slice_contains_string
matches-simple rule add (g, r, eg, er) (h, s, eh, es) = rw (eg, er, eh, es) (ground arith)

-- A rule to add: simple, and for all objects.
abbrev pub IsPlain : PolicyRule → Type 0
IsPlain r = IsSimple r × (r.resource_names ≡ [])

module _ (group resource verb : String) where
  rule_permits-merged :
      (rule add : PolicyRule)
      → IsSimple rule
      → IsPlain add
      → is_match rule add ≡ true
      → rule_permits group resource verb (merged rule add)
        ≡ (rule_permits group resource verb rule || rule_permits group resource verb add)
  unfolding slice_contains_string
  rule_permits-merged rule add (g, r, eg, er) ((h, s, eh, es), en) e =
      rw (eg, er, eh, es, en, contains-add_verbs rule.verbs add.verbs verb)
        (let f = rw (eg, er, eh, es) at e in ground (arith, f, eq_iff r s, eq_iff g h))

  -- What the rule gains from the additions that match it.
  abbrev pub gained : PolicyRule → List PolicyRule → Bool
  gained rule [] = false
  gained rule (add ∷ rest) =
      (is_match rule add && rule_permits group resource verb add) || gained rule rest

  abbrev pub gained_all : (rules add : List PolicyRule) → Bool
  gained_all [] add = false
  gained_all (rule ∷ rest) add = gained rule add || gained_all rest add

  gained-le :
      (rule : PolicyRule) (add : List PolicyRule)
      → (gained rule add || permits group resource verb add) ≡ permits group resource verb add
  gained-le rule [] = refl
  gained-le rule (a ∷ rest) = ground (arith, gained-le rule rest)

  pub gained_all-le :
      (rules add : List PolicyRule)
      → (gained_all rules add || permits group resource verb add) ≡ permits group resource verb add
  gained_all-le [] add = refl
  gained_all-le (rule ∷ rest) add = ground (arith, gained-le rule add, gained_all-le rest add)

  -- The inner loop: the rule gains what matches it, and what is not found any more was gained.
  pub record RuleMerged (rule : PolicyRule) (adds : List Addition) (out : PolicyRule)
      (after : List Addition) : Type 0 where
    pub simple : IsSimple out
    pub same : map (λ a. a.rule) after ≡ map (λ a. a.rule) adds
    pub union :
        rule_permits group resource verb out
        ≡ (rule_permits group resource verb rule || gained rule (map (λ a. a.rule) adds))
    pub moved :
        (gained rule (map (λ a. a.rule) adds) || permits group resource verb (not_found after))
        ≡ (gained rule (map (λ a. a.rule) adds) || permits group resource verb (not_found adds))

  pub merge_rule-RuleMerged :
      (rule : PolicyRule) (adds : List Addition)
      → IsSimple rule
      → All IsPlain (map (λ a. a.rule) adds)
      → (out : PolicyRule) × (after : List Addition) × (merge_rule rule adds ≡ ok (out, after))
        × RuleMerged rule adds out after
  unfolding merge_rule not_found
  merge_rule-RuleMerged rule [] s p =
      (rule, [], refl, record { simple = s; same = refl; union = ground arith; moved = refl })
  merge_rule-RuleMerged rule (a ∷ rest) s (p, ps) = elim (Bool-cases (is_match rule a.rule)) [
    | inl e ↦
        let (out, after, f, h) = merge_rule-RuleMerged (merged rule a.rule) rest s ps in
        let u = rule_permits-merged rule a.rule s p e in
        (
          out,
          record a { is_found = true } ∷ after,
          rw (matches-simple rule a.rule s p.0, e, f) refl,
          record {
            simple = h.simple;
            same = ap (λ l. a.rule ∷ l) h.same;
            union = ground (arith, h.union, u, e);
            moved = ground (arith, h.moved, e);
          },
        )
    | inr e ↦
        let (out, after, f, h) = merge_rule-RuleMerged rule rest s ps in
        (
          out,
          a ∷ after,
          rw (matches-simple rule a.rule s p.0, e, f) refl,
          record {
            simple = h.simple;
            same = ap (λ l. a.rule ∷ l) h.same;
            union = ground (arith, h.union, e);
            moved = ground (arith, h.moved, e);
          },
        )
  ]
