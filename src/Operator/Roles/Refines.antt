-- ===== src/Operator/Roles/Refines.antt =====
-- The new rules permit what the rules permitted and what is asked for, and nothing else.
use greenplum_for_kubernetes.Operator.Roles.{
  ◌∷◌, breakdown_all, unfound, RbacLibrary, wanted_rules, map, Addition, modify_rules,
  merge_policy_rules, not_found, merge_rules, PolicyRule,
}
use greenplum_for_kubernetes.Prelude.{
  ◌||◌, ◌++◌, [], refl, sym, subst, ◌∙◌, arith, ap, All, ◌≡◌, List,
}
use greenplum_for_kubernetes.Prelude.Text.{String}
use greenplum_for_kubernetes.Prelude.Effects.{ok}
use greenplum_for_kubernetes.Operator.Roles.Permits.{
  permits, IsSimple, IsPlain, gained_all, gained_all-le, merge_rule-RuleMerged,
}

module _ (group resource verb : String) where
  permits-append :
      (xs ys : List PolicyRule)
      → permits group resource verb (xs ++ ys)
        ≡ (permits group resource verb xs || permits group resource verb ys)
  permits-append [] ys = refl
  permits-append (x ∷ xs) ys = ground (arith, permits-append xs ys)

  merge_rules-unions :
      (rules : List PolicyRule) (adds : List Addition)
      → All IsSimple rules
      → All IsPlain (map (λ a. a.rule) adds)
      → (out : List PolicyRule) × (after : List Addition) × (merge_rules rules adds
          ≡ ok (out, after))
        × (permits group resource verb out ≡ (
            permits group resource verb rules
            || gained_all group resource verb rules (map (λ a. a.rule) adds)))
        × ((gained_all group resource verb rules (map (λ a. a.rule) adds)
              || permits group resource verb (not_found after))
            ≡ (gained_all group resource verb rules (map (λ a. a.rule) adds)
                || permits group resource verb (not_found adds)))
  unfolding merge_rules
  merge_rules-unions [] adds s p = ([], adds, refl, refl, refl)
  merge_rules-unions (rule ∷ rest) adds (s, ss) p =
      let (one, more, e, h) = merge_rule-RuleMerged group resource verb rule adds s p in
      let (out, after, f, i, j) =
        merge_rules-unions rest more ss (subst (λ l. All IsPlain l) (sym h.same) p) in
      let i2 = rw h.same at i in
      let j2 = rw h.same at j in
      (one ∷ out, after, rw (e, f) refl, ground (arith, h.union, i2), ground (arith, h.moved, j2))

  map-unfound : (add : List PolicyRule) → map (λ a. a.rule) (map unfound add) ≡ add
  map-unfound [] = refl
  map-unfound (r ∷ rest) = ap (λ l. r ∷ l) (map-unfound rest)

  not_found-unfound : (add : List PolicyRule) → not_found (map unfound add) ≡ add
  unfolding not_found
  not_found-unfound [] = refl
  not_found-unfound (r ∷ rest) = ap (λ l. r ∷ l) (not_found-unfound rest)

  merge_policy_rules-permits :
      (rules add : List PolicyRule)
      → All IsSimple rules
      → All IsPlain add
      → (out : List PolicyRule) × (merge_policy_rules rules add ≡ ok out)
        × (permits group resource verb out
            ≡ (permits group resource verb rules || permits group resource verb add))
  unfolding merge_policy_rules
  merge_policy_rules-permits rules add s p =
      let (out, after, e, i, j) =
        merge_rules-unions rules (map unfound add) s
          (subst (λ l. All IsPlain l) (sym (map-unfound add)) p) in
      let i2 = rw (map-unfound add) at i in
      let j2 = rw (map-unfound add, not_found-unfound add) at j in
      (
        out ++ not_found after,
        rw e refl,
        permits-append out (not_found after)
            ∙ ground (arith, i2, j2, gained_all-le group resource verb rules add),
      )

wanted-IsPlain : All IsPlain wanted_rules
wanted-IsPlain = (
  (("", "persistentvolumeclaims", refl, refl), refl),
  ((("", "pods", refl, refl), refl), ((("", "endpoints", refl, refl), refl), tt)),
)

-- Where the compact form of the broken down rules has simple rules that permit what the rules
-- permit, and sorting keeps what rules permit, modifyRules succeeds, without a panic, and its rules
-- permit a verb on a resource exactly if the rules permitted it or it is one of the five that the
-- pods need.
pub modify_rules-permits :
    (library : RbacLibrary) (rules compacted : List PolicyRule) (group resource verb : String)
    → library.compact (breakdown_all library rules) ≡ ok compacted
    → All IsSimple compacted
    → permits group resource verb compacted ≡ permits group resource verb rules
    → ((l : List PolicyRule)
        → permits group resource verb (library.sort l) ≡ permits group resource verb l)
    → (out : List PolicyRule) × (modify_rules library rules ≡ ok out)
      × (permits group resource verb out
          ≡ (permits group resource verb rules || permits group resource verb wanted_rules))
unfolding modify_rules
modify_rules-permits library rules compacted group resource verb c s k sorting =
    let (out, e, f) =
      merge_policy_rules-permits group resource verb compacted wanted_rules s wanted-IsPlain in
    (
      library.sort out,
      rw (c, e) refl,
      sorting out ∙ f ∙ ap (λ b. b || permits group resource verb wanted_rules) k,
    )
