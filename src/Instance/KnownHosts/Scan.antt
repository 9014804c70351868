-- ===== src/Instance/KnownHosts/Scan.antt =====
-- Which scans are accepted, and what is written for them.
use greenplum_for_kubernetes.Prelude.{
  Option, none, some, Option-cases, Bool-cases, true, false, List, [], ◌∷◌, ◌≡◌, ◌↔◌, ◌⊎◌, inl, inr,
  refl, arith, All, Empty, ◌∙◌, ap,
}
use greenplum_for_kubernetes.Prelude.Map.{lookup}
use greenplum_for_kubernetes.Prelude.Text.{
  String, ◌&◌, str_eq, eq_iff, append_assoc, append-nil, nil-append,
}
use greenplum_for_kubernetes.Prelude.Effects.{Error, Result, ok, err, Result-cases}
use greenplum_for_kubernetes.Instance.Machine.{HostKey, plain}
use greenplum_for_kubernetes.Instance.KnownHosts.{Keys, key_line, step, collect, finish}

module _ {K : Type 0} (keys : Keys K) (known : List (String × K)) where
  -- The scan gave a key, and not another one than the host is known by.
  pub Accepted : HostKey K → Type 0
  Accepted k =
      (key : K) × (k.public_key ≡ ok key)
      × ((old : K) → lookup k.hostname known ≡ some old → keys.marshal key ≡ keys.marshal old)

  -- The line of a host that was not known.
  abbrev line_for : Result K → Option K → String → String
  line_for (ok key) none host = key_line keys host key
  line_for (ok key) (some _) host = ""
  line_for (err _) _ host = ""

  abbrev pub line_of : HostKey K → String
  line_of k = line_for k.public_key (lookup k.hostname known) k.hostname

  abbrev pub lines : List (HostKey K) → String
  lines [] = ""
  lines (k ∷ rest) = line_of k & lines rest

  -- The four ways a scan's answer goes.
  module _ (k : HostKey K) (out : String) (e : Option Error) where
    step-failed : (x : Error) → k.public_key ≡ err x → step keys known k out e ≡ (out, some x)
    step-failed x f = rw f refl

    step-new :
        (key : K)
        → k.public_key ≡ ok key
        → lookup k.hostname known ≡ none
        → step keys known k out e ≡ (out & key_line keys k.hostname key, e)
    step-new key f n = rw (f, n) refl

    step-same :
        (key old : K)
        → k.public_key ≡ ok key
        → lookup k.hostname known ≡ some old
        → str_eq (keys.marshal key) (keys.marshal old) ≡ true
        → step keys known k out e ≡ (out, e)
    step-same key old f n b = rw (f, n, b) refl

    step-differs :
        (key old : K)
        → k.public_key ≡ ok key
        → lookup k.hostname known ≡ some old
        → str_eq (keys.marshal key) (keys.marshal old) ≡ false
        → step keys known k out e ≡ (out, some (plain "scanned key does not match known key"))
    step-differs key old f n b = rw (f, n, b) refl

  -- An error is never forgotten.
  collect-fails :
      (ks : List (HostKey K)) (out : String) (e : Error)
      → (x : Error) × (finish (collect keys known ks out (some e)) ≡ err x)
  unfolding collect
  collect-fails [] out e = (e, refl)
  collect-fails (k ∷ rest) out e = elim (Result-cases k.public_key) [
    | inr (x, f) ↦
        let (y, g) = collect-fails rest out x in (y, rw (step-failed k out (some e) x f) g)
    | inl (key, f) ↦ elim (Option-cases (lookup k.hostname known)) [
      | inl n ↦
          let (y, g) = collect-fails rest (out & key_line keys k.hostname key) e in
          (y, rw (step-new k out (some e) key f n) g)
      | inr (old, n) ↦ elim (Bool-cases (str_eq (keys.marshal key) (keys.marshal old))) [
        | inl b ↦
            let (y, g) = collect-fails rest out e in
            (y, rw (step-same k out (some e) key old f n b) g)
        | inr b ↦
            let (y, g) = collect-fails rest out (plain "scanned key does not match known key") in
            (y, rw (step-differs k out (some e) key old f n b) g)
      ]
    ]
  ]

  line-new :
      (k : HostKey K) (key : K)
      → k.public_key ≡ ok key
      → lookup k.hostname known ≡ none
      → line_of k ≡ key_line keys k.hostname key
  line-new k key f n = rw (f, n) refl

  line-known :
      (k : HostKey K) (key old : K)
      → k.public_key ≡ ok key
      → lookup k.hostname known ≡ some old
      → line_of k ≡ ""
  line-known k key old f n = rw (f, n) refl

  -- The first answer decides, or leaves it to the others.
  Outcome : List (HostKey K) → String → Type 0
  Outcome ks out =
      (All Accepted ks × (finish (collect keys known ks out none) ≡ ok (out & lines ks)))
      ⊎ ((All Accepted ks → Empty {0})
          × ((x : Error) × (finish (collect keys known ks out none) ≡ err x)))

  collect-cases : (ks : List (HostKey K)) (out : String) → Outcome ks out
  unfolding Outcome collect Accepted
  collect-cases [] out = inl (tt, rw (append-nil out) refl)
  collect-cases (k ∷ rest) out = elim (Result-cases k.public_key) [
    | inr (x, f) ↦
        let (y, g) = collect-fails rest out x in
        inr (λ ((key, a, _), _). absurd (ground arith), (y, rw (step-failed k out none x f) g))
    | inl (key, f) ↦ elim (Option-cases (lookup k.hostname known)) [
      | inl n ↦
          let line = key_line keys k.hostname key in
          rw (step-new k out none key f n) (elim (collect-cases rest (out & line)) [
            | inl (a, g) ↦ inl (
              ((key, f, λ o h. absurd (ground arith)), a),
              rw (line-new k key f n) (g ∙ ap ok (append_assoc out line (lines rest))),
            )
            | inr (a, (y, g)) ↦ inr (λ (_, rest_ok). a rest_ok, (y, g))
          ])
      | inr (old, n) ↦ elim (Bool-cases (str_eq (keys.marshal key) (keys.marshal old))) [
        | inl b ↦
            let same = eq_iff (keys.marshal key) (keys.marshal old) in
            rw (step-same k out none key old f n b) (elim (collect-cases rest out) [
              | inl (a, g) ↦ inl (
                ((key, f, λ o h. ground arith), a),
                rw (line-known k key old f n, nil-append (lines rest)) g,
              )
              | inr (a, (y, g)) ↦ inr (λ (_, rest_ok). a rest_ok, (y, g))
            ])
        | inr b ↦
            let (y, g) = collect-fails rest out (plain "scanned key does not match known key") in
            inr (
              λ ((key', a, c), _).
                  let same = eq_iff (keys.marshal key) (keys.marshal old) in
                  let d = c old n in absurd (ground arith),
              (y, rw (step-differs k out none key old f n b) g),
            )
      ]
    ]
  ]

  -- Whatever the order in which the scans arrive, they give a text exactly when each of them found a key that
  -- does not contradict the one that its host is known by; the text then has the lines of the
  -- hosts that were not known, in the order of arrival.
  pub collect-ok_iff :
      (ks : List (HostKey K)) (text : String)
      → (finish (collect keys known ks "" none) ≡ ok text) ↔ (All Accepted ks × (text ≡ lines ks))
  unfolding Outcome
  collect-ok_iff ks text = elim (collect-cases ks "") [
    | inl (a, g) ↦ (
      λ h. (a, let t : text ≡ ("" & lines ks) = cc in t ∙ nil-append (lines ks)),
      λ (_, h). rw (h, g) (rw (nil-append (lines ks)) refl),
    )
    | inr (a, (y, g)) ↦ (λ h. absurd (ground arith), λ (b, _). elim (a b) [ ])
  ]
