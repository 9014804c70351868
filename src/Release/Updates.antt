-- ===== src/Release/Updates.antt =====
-- The packages that the check lists, and when there is a release note.
use greenplum_for_kubernetes.Prelude.{
  subst, ◌≡◌, refl, ap, sym, ◌⊎◌, ◌↔◌, inl, inr, Option, none, some, Bool, true, false, List, [],
  ◌∷◌, ◌++◌, In, arith,
}
use greenplum_for_kubernetes.Prelude.Text.{◌&◌, String}
use greenplum_for_kubernetes.Prelude.Map.{Labels, lookup}
use greenplum_for_kubernetes.Prelude.Effects.{Result, ok, err}
use greenplum_for_kubernetes.Release.{
  require_match, add_found, SecurityStory, Usn, DebLibrary, Found, and_then, is_older, step,
  find_loop, find_packages_requiring_update, parse_usn, process_loop, nothing_found,
  generate_release_note,
}

module _ {A B : Type 0} where
  -- A chain that succeeds.
  pub and_then-ok :
      (r : Result A) (f : A → Result B) (b : B)
      → and_then r f ≡ ok b
      → (a : A) × (r ≡ ok a) × (f a ≡ ok b)
  and_then-ok (ok a) f b e = (a, refl, e)
  and_then-ok (err x) f b e = absurd (ground arith)

In-append {ℓ} : {A : Type ℓ} (x : A) (xs ys : List A) → In x (xs ++ ys) ↔ (In x xs ⊎ In x ys)
In-append x [] ys = (λ i. inr i, λ j. elim j [ inl k ↦ elim k [ ] | inr k ↦ k ])
In-append x (y ∷ xs) ys =
    let ih = In-append x xs ys in
    (
      λ i. elim i [
        | inl e ↦ inl (inl e)
        | inr k ↦ elim (ih.0 k) [ inl l ↦ inl (inr l) | inr l ↦ inr l ]
      ],
      λ j. elim j [
        | inl k ↦ elim k [ inl e ↦ inl e | inr l ↦ inr (ih.1 (inl l)) ]
        | inr l ↦ inr (ih.1 (inr l))
      ],
    )

module _ {V : Type 0} (library : DebLibrary V) where
  -- The receipt has the package, in a version that is older than the one of the notice.
  abbrev pub IsOutdated : (dpkg : Labels) (name story_version : String) → Type 0
  IsOutdated dpkg name story_version =
      (version : String) × (lookup name dpkg ≡ some version)
      × (is_older library name story_version version ≡ ok true)

  -- The package is listed with a version, and outdated.
  abbrev pub Lists : (dpkg : Labels) (packages : Labels) (name : String) → Type 0
  Lists dpkg packages name =
      (version : String) × In (name, version) packages × IsOutdated dpkg name version

  added-In :
      (dpkg : Labels) (name version v : String) (b : Bool) (found : Found) (x : String)
      → lookup name dpkg ≡ some v
      → is_older library name version v ≡ ok b
      → In x (add_found name b found).result
        ↔ (In x found.result ⊎ ((x ≡ name) × IsOutdated dpkg name version))
  added-In dpkg name version v true found x l g =
      let split = In-append x found.result (name ∷ []) in
      (
        λ i. elim (split.0 i) [
          | inl k ↦ inl k
          | inr k ↦ elim k [ inl e ↦ inr (e, (v, l, g)) | inr z ↦ elim z [ ] ]
        ],
        λ j. elim j [ inl k ↦ split.1 (inl k) | inr (e, o) ↦ split.1 (inr (inl e)) ],
      )
  added-In dpkg name version v false found x l g = (
    λ i. inl i,
    λ j. elim j [
      | inl k ↦ k
      | inr (e, (w, k, o)) ↦
          let same : v ≡ w = ground arith in
          let both : is_older library name version v ≡ ok true = rw same o in
          absurd (ground (arith, g, both))
    ],
  )

  step-In :
      (dpkg : Labels) (name version : String) (have : Option String) (found out : Found)
      (x : String)
      → lookup name dpkg ≡ have
      → step library name version have found ≡ ok out
      → In x out.result ↔ (In x found.result ⊎ ((x ≡ name) × IsOutdated dpkg name version))
  step-In dpkg name version none found out x l e =
      let q : found ≡ out = ground arith in
      subst
        (λ (o : Found).
          In x o.result ↔ (In x found.result ⊎ ((x ≡ name) × IsOutdated dpkg name version)))
        q (λ i. inl i, λ j. elim j [ inl i ↦ i | inr (q, (v, k, o)) ↦ absurd (ground arith) ])
  step-In dpkg name version (some v) found out x l e =
      let (b, g, f) =
        and_then-ok (is_older library name version v) (λ b. ok (add_found name b found)) out e in
      let q : add_found name b found ≡ out = ground arith in
      subst
        (λ (o : Found).
          In x o.result ↔ (In x found.result ⊎ ((x ≡ name) × IsOutdated dpkg name version)))
        q (added-In dpkg name version v b found x l g)

  IsOutdated-same :
      (dpkg : Labels) (x name v version : String)
      → ◌≡◌ {A = String × String} (x, v) (name, version)
      → IsOutdated dpkg x v
      → IsOutdated dpkg name version
  IsOutdated-same dpkg x name v version q o =
      subst (λ (p : String × String). IsOutdated dpkg p.0 p.1) q o

  find_loop-In :
      (dpkg packages : Labels) (found out : Found) (x : String)
      → find_loop library dpkg packages found ≡ ok out
      → In x out.result ↔ (In x found.result ⊎ Lists dpkg packages x)
  unfolding find_loop
  find_loop-In dpkg [] found out x e =
      let q : found ≡ out = ground arith in
      subst (λ (o : Found). In x o.result ↔ (In x found.result ⊎ Lists dpkg [] x)) q
        (λ i. inl i, λ j. elim j [ inl i ↦ i | inr (v, i, o) ↦ elim i [ ] ])
  find_loop-In dpkg ((name, version) ∷ rest) found out x e =
      let (more, f, g) =
        and_then-ok (step library name version (lookup name dpkg) found)
          (λ m. find_loop library dpkg rest m) out e in
      let one = step-In dpkg name version (lookup name dpkg) found more x refl f in
      let ih = find_loop-In dpkg rest more out x g in
      (
        λ i. elim (ih.0 i) [
          | inl k ↦ elim (one.0 k) [
            | inl l ↦ inl l
            | inr (q, o) ↦ inr (version, inl (ap (λ n. (n, version)) q), rw q o)
          ]
          | inr (v, l, o) ↦ inr (v, inr l, o)
        ],
        λ j. elim j [
          | inl k ↦ ih.1 (inl (one.1 (inl k)))
          | inr (v, l, o) ↦ elim l [
            | inl q ↦ ih.1 (
                inl (
                  one.1 (
                    inr (
                      ap (λ (p : String × String). p.0) q,
                      IsOutdated-same dpkg x name v version q o,
                    ))))
            | inr k ↦ ih.1 (inr (v, k, o))
          ]
        ],
      )

  find_packages-In :
      (dpkg : Labels) (story_id : String) (usn : Usn) (out : List String) (x : String)
      → find_packages_requiring_update library dpkg story_id usn ≡ ok out
      → In x out ↔ Lists dpkg usn.packages x
  unfolding find_packages_requiring_update
  find_packages-In dpkg story_id usn out x e =
      let (found, f, g) =
        and_then-ok (find_loop library dpkg usn.packages nothing_found)
          (λ found. require_match story_id found) out e in
      let all = find_loop-In dpkg usn.packages nothing_found found x f in
      let same : found.result ≡ out = ground arith in
      subst (λ (l : List String). In x l ↔ Lists dpkg usn.packages x) same
        (λ i. elim (all.0 i) [ inl k ↦ elim k [ ] | inr l ↦ l ], λ l. all.1 (inr l))

  -- Some story's notice lists the package, outdated.
  abbrev pub Needs : (dpkg : Labels) → List SecurityStory → String → Type 0
  Needs dpkg stories name =
      (story : SecurityStory) × (usn : Usn) × In story stories
      × (parse_usn library story ≡ ok usn)
      × Lists dpkg usn.packages name

  pub process_loop-In :
      (dpkg : Labels) (stories : List SecurityStory) (updates : List String) (note : String)
      (out : List String × String) (x : String)
      → process_loop library dpkg stories updates note ≡ ok out
      → In x out.0 ↔ (In x updates ⊎ Needs dpkg stories x)
  unfolding process_loop
  process_loop-In dpkg [] updates note out x e =
      let q : updates ≡ out.0 = ground arith in
      subst (λ (l : List String). In x l ↔ (In x updates ⊎ Needs dpkg [] x)) q
        (λ i. inl i, λ j. elim j [ inl i ↦ i | inr (s, u, i, p, l) ↦ elim i [ ] ])
  process_loop-In dpkg (story ∷ rest) updates note out x e =
      let (usn, p, e1) =
        and_then-ok (parse_usn library story)
          (λ usn. and_then (find_packages_requiring_update library dpkg story.id usn) (λ more.
            process_loop library dpkg rest (updates ++ more) (note & generate_release_note usn)))
          out e in
      let (more, f, e2) =
        and_then-ok (find_packages_requiring_update library dpkg story.id usn)
          (λ more.
            process_loop library dpkg rest (updates ++ more) (note & generate_release_note usn))
          out e1 in
      let one = find_packages-In dpkg story.id usn more x f in
      let both = In-append x updates more in
      let ih =
        process_loop-In dpkg rest (updates ++ more) (note & generate_release_note usn) out x e2 in
      (
        λ i. elim (ih.0 i) [
          | inl k ↦ elim (both.0 k) [
            | inl l ↦ inl l
            | inr l ↦ inr (story, usn, inl refl, p, one.0 l)
          ]
          | inr (s, u, l, r, w) ↦ inr (s, u, inr l, r, w)
        ],
        λ j. elim j [
          | inl k ↦ ih.1 (inl (both.1 (inl k)))
          | inr (s, u, l, r, w) ↦ elim l [
            | inl q ↦
                let r2 : parse_usn library story ≡ ok u = rw (sym q) r in
                let v : u ≡ usn = ground (arith, r2, p) in
                ih.1 (inl (both.1 (inr (one.1 (subst (λ (z : Usn). Lists dpkg z.packages x) v w)))))
            | inr k ↦ ih.1 (inr (s, u, k, r, w))
          ]
        ],
      )
