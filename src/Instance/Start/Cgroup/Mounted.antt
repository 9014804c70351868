-- ===== src/Instance/Start/Cgroup/Mounted.antt =====
-- Which mounts ParseProcCgroupMounts keeps.
use greenplum_for_kubernetes.Prelude.{
  ap, ◌∙◌, ◌≡◌, inl, inr, true, some, List, [], ◌∷◌, arith, refl, subst, In, Bool-cases,
}
use greenplum_for_kubernetes.Prelude.Text.{String, str_eq, eq_iff}
use greenplum_for_kubernetes.Prelude.Map.{Labels, lookup, insert, lookup-insert}
use greenplum_for_kubernetes.Prelude.Split.{split}
use greenplum_for_kubernetes.Prelude.Effects.{ok, Result-cases}
use greenplum_for_kubernetes.Instance.Start.Cgroup.{
  at, is_gpdb_sub_system, add_options, add_mount, parse_lines,
}

-- gpdbSubSystemNames
abbrev pub sub_systems : List String
sub_systems = "cpu" ∷ "cpuacct" ∷ "cpuset" ∷ "memory" ∷ []

is_gpdb_sub_system-In : (name : String) → is_gpdb_sub_system name ≡ true → In name sub_systems
is_gpdb_sub_system-In name e =
    let a = eq_iff name "cpu" in
    let b = eq_iff name "cpuacct" in
    let c = eq_iff name "cpuset" in
    let d = eq_iff name "memory" in
    elim (Bool-cases (str_eq name "cpu")) [
      | inl f ↦ inl (a.0 f)
      | inr f ↦ elim (Bool-cases (str_eq name "cpuacct")) [
        | inl g ↦ inr (inl (b.0 g))
        | inr g ↦ elim (Bool-cases (str_eq name "cpuset")) [
          | inl k ↦ inr (inr (inl (c.0 k)))
          | inr k ↦ inr (inr (inr (inl (d.0 (ground arith)))))
        ]
      ]
    ]

-- The subsystem is one of the four, and a line of /proc/mounts mounts a control group with it at
-- the point.
abbrev pub IsMounted : (mounts : List String) (name point : String) → Type 0
IsMounted mounts name point =
    (line : String) × (options : String) × In line mounts
    × In name sub_systems
    × (at 2 (split " " line) ≡ ok "cgroup")
    × (at 1 (split " " line) ≡ ok point)
    × (at 3 (split " " line) ≡ ok options)
    × In name (split "," options)

module _ (all : List String) where
  -- Every mount that is kept is one of a subsystem of the database, and stands in the lines.
  abbrev pub HasOwn : Labels → Type 0
  HasOwn mounts = (name point : String) → lookup name mounts ≡ some point → IsMounted all name point

  add_options-HasOwn :
      (point : String) (options : List String) (mounts : Labels)
      → ((name : String) → In name options → In name sub_systems → IsMounted all name point)
      → HasOwn mounts
      → HasOwn (add_options point options mounts)
  unfolding add_options
  add_options-HasOwn point [] mounts i h = h
  add_options-HasOwn point (o ∷ rest) mounts i h = elim (Bool-cases (is_gpdb_sub_system o)) [
    | inr f ↦ rw f (add_options-HasOwn point rest mounts (λ n k. i n (inr k)) h)
    | inl f ↦ rw f (
        add_options-HasOwn point rest (insert o point mounts) (λ n k. i n (inr k))
          (λ name p e.
            let l = lookup-insert o name point mounts in
            elim (Bool-cases (str_eq o name)) [
              | inl g ↦
                  let same = (eq_iff o name).0 g in
                  let q : point ≡ p = ground (arith, l, e) in
                  subst (λ (x : String). IsMounted all name x) q
                    (subst (λ (x : String). IsMounted all x point) same
                      (i o (inl refl) (is_gpdb_sub_system-In o f)))
              | inr g ↦ h name p (ground (arith, l, e))
            ]))
  ]

  pub empty-HasOwn : HasOwn []
  unfolding lookup
  empty-HasOwn name point e = absurd (ground arith)

  add_mount-HasOwn :
      (line : String) (mounts out : Labels)
      → In line all
      → HasOwn mounts
      → add_mount (split " " line) (at 2 (split " " line)) mounts ≡ ok out
      → HasOwn out
  add_mount-HasOwn line mounts out i h e =
      let words = split " " line in
      elim (Result-cases (at 2 words)) [
        | inr (x, k) ↦ absurd (let z = rw k at e in ground arith)
        | inl (kind, k) ↦ elim (Bool-cases (str_eq kind "cgroup")) [
          | inr g ↦ subst HasOwn (let z = rw (k, g) at e in ground arith) h
          | inl g ↦
              let cgroup : at 2 words ≡ ok "cgroup" =
                k ∙ ap (λ t. ok t) ((eq_iff kind "cgroup").0 g) in
              elim (Result-cases (at 3 words)) [
                | inr (x, l) ↦ absurd (let z = rw (k, g, l) at e in ground arith)
                | inl (options, l) ↦ elim (Result-cases (at 1 words)) [
                  | inr (x, p) ↦ absurd (let z = rw (k, g, l, p) at e in ground arith)
                  | inl (point, p) ↦
                      let z : ok (add_options point (split "," options) mounts) ≡ ok out =
                        rw (k, g, l, p) at e in
                      subst HasOwn (ground arith) (
                        add_options-HasOwn point (split "," options) mounts
                          (λ name n own. (line, options, i, own, cgroup, p, l, n)) h)
                ]
              ]
        ]
      ]

  pub parse_lines-HasOwn :
      (lines : List String) (mounts out : Labels)
      → ((line : String) → In line lines → In line all)
      → HasOwn mounts
      → parse_lines lines mounts ≡ ok out
      → HasOwn out
  unfolding parse_lines
  parse_lines-HasOwn [] mounts out i h e = subst HasOwn (ground arith) h
  parse_lines-HasOwn (line ∷ rest) mounts out i h e =
      let words = split " " line in
      elim (Result-cases (add_mount words (at 2 words) mounts)) [
        | inl (more, f) ↦
            parse_lines-HasOwn rest more out (λ l k. i l (inr k))
              (add_mount-HasOwn line mounts more (i line (inl refl)) h f) (rw f at e)
        | inr (x, f) ↦ absurd (ground arith)
      ]
