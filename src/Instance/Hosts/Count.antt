-- ===== src/Instance/Hosts/Count.antt =====
-- Which hosts are in the list.
use greenplum_for_kubernetes.Prelude.{
  ℕ, zero, suc, ◌+◌, ◌-◌, ◌*◌, subst, ◌==◌, Bool-cases, ◌<◌, ◌≤◌, Bool, true, false, List, [], ◌∷◌,
  ◌++◌, ◌≡◌, refl, arith, In, inl, inr, length, length-append, if◌then◌else◌,
}
use greenplum_for_kubernetes.Prelude.Int.{pos}
use greenplum_for_kubernetes.Prelude.Text.{String, str_eq}
use greenplum_for_kubernetes.Instance.Hosts.{
  segment_hosts, master_hosts, segments_from, generate_host_list_with_dns_suffix,
  generate_host_list,
}

-- 2 for true and 1 for false
abbrev pub copies : Bool → ℕ
copies true = 2
copies false = 1

length-segments_from :
    (n i : ℕ) (mirrors : Bool) (suffix : String)
    → length (segments_from n i mirrors suffix) ≡ n * copies mirrors
unfolding segments_from
length-segments_from zero i true suffix = omega arith
length-segments_from zero i false suffix = omega arith
length-segments_from (suc n) i true suffix =
    omega (arith, length-segments_from n (suc i) true suffix)
length-segments_from (suc n) i false suffix =
    omega (arith, length-segments_from n (suc i) false suffix)

In-append_right {ℓ} : {A : Type ℓ} (x : A) (xs ys : List A) → In x ys → In x (xs ++ ys)
In-append_right x [] ys h = h
In-append_right x (y ∷ xs) ys h = inr (In-append_right x xs ys h)

In-append_left {ℓ} : {A : Type ℓ} (x : A) (xs ys : List A) → In x xs → In x (xs ++ ys)
In-append_left x [] ys h = elim h [ ]
In-append_left x (y ∷ xs) ys (inl e) = inl e
In-append_left x (y ∷ xs) ys (inr h) = inr (In-append_left x xs ys h)

minus_zero : (n : ℕ) → n - 0 ≡ n
minus_zero n = omega arith

length-copies :
    (n : ℕ) (mirrors standby : Bool) (suffix : String)
    → length (generate_host_list_with_dns_suffix (pos n) mirrors standby suffix)
      ≡ n * copies mirrors + copies standby
unfolding generate_host_list_with_dns_suffix
length-copies n mirrors true suffix =
    rw
      (
        minus_zero n,
        length-append (segments_from n 0 mirrors suffix) (master_hosts true suffix),
        length-segments_from n 0 mirrors suffix,
      )
      refl
length-copies n mirrors false suffix =
    rw
      (
        minus_zero n,
        length-append (segments_from n 0 mirrors suffix) (master_hosts false suffix),
        length-segments_from n 0 mirrors suffix,
      )
      refl

-- A segment within the rounds of the loop is reached.
segments_from-In :
    (n j i : ℕ) (mirrors : Bool) (suffix host : String)
    → j ≤ i
    → i < j + n
    → In host (segment_hosts mirrors suffix i)
    → In host (segments_from n j mirrors suffix)
unfolding segments_from
segments_from-In zero j i mirrors suffix host a b h = absurd (omega arith)
segments_from-In (suc n) j i mirrors suffix host a b h =
    let now = segment_hosts mirrors suffix j in
    let later = segments_from n (suc j) mirrors suffix in
    elim (Bool-cases (j == i)) [
      | inl e ↦
          let f : i ≡ j = ground arith in
          In-append_left host now later (subst (λ k. In host (segment_hosts mirrors suffix k)) f h)
      | inr e ↦
          In-append_right host now later
            (segments_from-In n (suc j) i mirrors suffix host (ground arith) (ground arith) h)
    ]

-- The list names one host for every segment, two with mirrors, and one master, two with a
-- standby, once as they are and, where a suffix is given, once more with it.
pub length-generate_host_list :
    (n : ℕ) (mirrors standby : Bool) (suffix : String)
    → length (generate_host_list (pos n) mirrors standby suffix)
      ≡ (if str_eq suffix "" then 1 else 2) * (n * copies mirrors + copies standby)
unfolding generate_host_list
length-generate_host_list n mirrors standby suffix =
    let bare = generate_host_list_with_dns_suffix (pos n) mirrors standby "" in
    let full = generate_host_list_with_dns_suffix (pos n) mirrors standby suffix in
    let a = length-copies n mirrors standby "" in
    let b = length-copies n mirrors standby suffix in
    elim (Bool-cases (str_eq suffix "")) [
      | inl e ↦ rw e (omega (arith, a, length-append bare []))
      | inr e ↦ rw e (omega (arith, a, b, length-append bare full))
    ]

-- Every segment below the count is in the list, with its mirror where there are mirrors.
pub generate_host_list-segments :
    (n i : ℕ) (mirrors standby : Bool) (suffix host : String)
    → i < n
    → In host (segment_hosts mirrors "" i)
    → In host (generate_host_list (pos n) mirrors standby suffix)
unfolding generate_host_list generate_host_list_with_dns_suffix
generate_host_list-segments n i mirrors standby suffix host h m =
    let s = segments_from-In n 0 i mirrors "" host (omega arith) (omega arith) m in
    rw (minus_zero n) (
      In-append_left host (segments_from n 0 mirrors "" ++ master_hosts standby "") _
        (In-append_left host (segments_from n 0 mirrors "") (master_hosts standby "") s))
