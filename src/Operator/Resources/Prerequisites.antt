-- ===== src/Operator/Resources/Prerequisites.antt =====
-- What is there when a stateful set is written.
use mathlib.Core.List.{append_assoc}
use greenplum_for_kubernetes.Prelude.{
  ◌∙◌, In-pushed_iff, List, [], ◌∷◌, ◌++◌, ◌≡◌, ◌⊎◌, inl, inr, refl, ap, sym, arith, In, Empty,
  subst, map, pushed, if◌then◌else◌,
}
use greenplum_for_kubernetes.Prelude.Text.{String, str_eq}
use greenplum_for_kubernetes.Prelude.Effects.{ok, Result-cases}
use greenplum_for_kubernetes.Api.Cluster.{GreenplumCluster}
use greenplum_for_kubernetes.Operator.StatefulSet.{
  GreenplumStatefulSetParams, type_master, type_segment_a, generate_stateful_set_params,
}
use greenplum_for_kubernetes.Operator.World.{
  Object, config_map, ssh_secret, agent_service, greenplum_service, service_account, role,
  role_binding, stateful_set, Call, create_or_update, World, Reconciler,
}
use greenplum_for_kubernetes.Operator.Resources.{
  mirror_object, write_all, create_or_update_cluster_resources,
}

In-middle : {A : Type 0} (x : A) (newer older : List A) → In x (newer ++ (x ∷ older))
In-middle x [] older = inl refl
In-middle x (_ ∷ newer) older = inr (In-middle x newer older)

-- Two ways to cut a list, one of them before a part that `x` is not in: what follows `x` ends in
-- that part.
rest_of :
    {A : Type 0} (x : A) (new old newer older : List A)
    → (In x old → Empty {0})
    → new ++ old ≡ newer ++ (x ∷ older)
    → (between : List A) × (older ≡ between ++ old)
rest_of x [] old newer older n e =
    elim (n (subst (λ l. In x l) (sym e) (In-middle x newer older))) [ ]
rest_of x (a ∷ new) old [] older n e = (new, ground arith)
rest_of x (a ∷ new) old (z ∷ newer) older n e = rest_of x new old newer older n (ground arith)

module _ {Q : Type 0} (w : World Q) (ns : String) where
  -- The object was written, without an error, when only `before` was called.
  abbrev pub IsWritten : (history : List (Call Q)) → Object Q → Type 0
  IsWritten history o =
      (after before : List (Call Q)) × (history ≡ after ++ (create_or_update ns o ∷ before))
      × (w.create_or_update before ns o ≡ ok tt)

  later :
      (new : List (Call Q)) (h : List (Call Q)) (o : Object Q)
      → IsWritten h o
      → IsWritten (new ++ h) o
  later new h o (after, before, e, f) =
      (new ++ after, before, ap (λ l. new ++ l) e ∙ sym (append_assoc new after _), f)

  write_all_grows :
      (os : List (Object Q)) (h : List (Call Q))
      → (new : List (Call Q)) × ((write_all w ns os h).1 ≡ new ++ h)
  unfolding write_all
  write_all_grows [] h = ([], refl)
  write_all_grows (o ∷ rest) h = elim (Result-cases (w.create_or_update h ns o)) [
    | inr (e, f) ↦ (create_or_update ns o ∷ [], rw f refl)
    | inl (u, f) ↦
        let (new, e) = write_all_grows rest (create_or_update ns o ∷ h) in
        (
          new ++ (create_or_update ns o ∷ []),
          rw f (e ∙ sym (append_assoc new (create_or_update ns o ∷ []) h)),
        )
  ]

  -- Either the row stops among the first objects, or all of these are written and the rest comes
  -- after them.
  write_all-cut :
      (first rest : List (Object Q)) (h : List (Call Q))
      → ((call : Call Q)
          → In call (write_all w ns (first ++ rest) h).1
          → In call (map (create_or_update ns) first) ⊎ In call h)
        ⊎ ((new : List (Call Q)) × ((write_all w ns (first ++ rest) h).1
              ≡ new ++ pushed (map (create_or_update ns) first) h)
            × ((o : Object Q)
                → In o first
                → IsWritten (pushed (map (create_or_update ns) first) h) o))
  unfolding write_all
  write_all-cut [] rest h = let (new, e) = write_all_grows rest h in inr (new, e, λ o i. elim i [ ])
  write_all-cut (o ∷ first) rest h =
      let f = create_or_update ns in
      elim (Result-cases (w.create_or_update h ns o)) [
        | inr (x, e) ↦
            inl (λ call i. let z = rw e at i in elim z [ inl g ↦ inl (inl g) | inr k ↦ inr k ])
        | inl (u, e) ↦ elim (write_all-cut first rest (f o ∷ h)) [
          | inl stops ↦ inl (λ call i.
              let z = rw e at i in
              elim (stops call z) [
                | inl k ↦ inl (inr k)
                | inr k ↦ elim k [ inl g ↦ inl (inl g) | inr j ↦ inr j ]
              ])
          | inr (new, g, all) ↦
              let (others, p) = pushed_grows (map f first) (f o ∷ h) in
              inr (
                new,
                rw e g,
                λ d i. elim i [
                  | inl same ↦ (
                    others,
                    h,
                    p ∙ ap (λ x. others ++ (f x ∷ h)) (sym same),
                    ap (λ x. w.create_or_update h ns x) same ∙ e,
                  )
                  | inr k ↦ all d k
                ],
              )
        ]
      ]
    where
      pushed_grows : (cs h : List (Call Q)) → (new : List (Call Q)) × (pushed cs h ≡ new ++ h)
      pushed_grows [] h = ([], refl)
      pushed_grows (c ∷ cs) h =
          let (new, e) = pushed_grows cs (c ∷ h) in
          (new ++ (c ∷ []), e ∙ sym (append_assoc new (c ∷ []) h))

module _ {Q : Type 0} (r : Reconciler) (c : GreenplumCluster Q) where
  -- What the pods of a stateful set need.
  abbrev pub prerequisites : List (Object Q)
  prerequisites =
      config_map c
      ∷ ssh_secret c.name
      ∷ agent_service c.name
      ∷ greenplum_service c.name
      ∷ service_account
      ∷ role
      ∷ role_binding
      ∷ []

  no_set :
      (name : String) (params : GreenplumStatefulSetParams Q)
      → In
          (create_or_update c.namespace (stateful_set name params))
          (map (create_or_update c.namespace) prerequisites)
      → Empty {0}
  no_set name params i = absurd (ground arith)

  -- Whenever a stateful set is written, whatever the server answers, the config map, the ssh
  -- secret, the two services, the service account, the role and its binding were all written
  -- before it, each without an error.
  pub create_or_update_cluster_resources-prerequisites :
      (w : World Q) (name : String) (params : GreenplumStatefulSetParams Q)
      (newer older : List (Call Q))
      → (create_or_update_cluster_resources w r c []).1
        ≡ newer ++ (create_or_update c.namespace (stateful_set name params) ∷ older)
      → (o : Object Q) → In o prerequisites
      → IsWritten w c.namespace older o
  unfolding create_or_update_cluster_resources
  create_or_update_cluster_resources-prerequisites w name params newer older e o i =
      let ns = c.namespace in
      let set = create_or_update ns (stateful_set name params) in
      let f : Object Q → Call Q = create_or_update ns in
      let rest : List (Object Q) =
        stateful_set "master" (generate_stateful_set_params type_master c r.instance_image)
        ∷ stateful_set "segment-a" (generate_stateful_set_params type_segment_a c r.instance_image)
        ∷ (if str_eq c.spec.segments.mirrors "yes" then mirror_object r c ∷ [] else []) in
      elim (write_all-cut w ns prerequisites rest []) [
        | inl stops ↦ elim (stops set (subst (λ l. In set l) (sym e) (In-middle set newer older))) [
          | inl k ↦ elim (no_set name params k) [ ]
          | inr k ↦ elim k [ ]
        ]
        | inr (new, g, all) ↦
            let old = pushed (map f prerequisites) [] in
            let none_there : In set old → Empty {0} = λ k.
              elim ((In-pushed_iff set (map f prerequisites) []).0 k) [
                | inl j ↦ no_set name params j
                | inr j ↦ j
              ] in
            let (between, p) = rest_of set new old newer older none_there (sym g ∙ e) in
            subst (λ l. IsWritten w ns l o) (sym p) (later w ns between old o (all o i))
      ]
