-- ===== src/Instance/Ssh/Scanned.antt =====
-- Where a scanned key comes from.
use greenplum_for_kubernetes.Prelude.{
  ap, ◌⊎◌, ◌++◌, [], ◌≡◌, refl, ℕ, inl, inr, Option, some, none, List, ◌∷◌, arith, subst,
}
use greenplum_for_kubernetes.Prelude.Text.{String, ◌&◌}
use greenplum_for_kubernetes.Prelude.Effects.{Error, err, Eff, ok, Result-cases}
use greenplum_for_kubernetes.Instance.Ssh.{
  Ssh, SshCall, read_private_key, dial, close, last_key, scan_once, ssh_key_scan, key_or_none,
}

module _ {K P : Type 0} (s : Ssh K P) where
  -- The last of the keys that were shown, and nil where none was.
  abbrev pub IsLast : Option K → List K → Type 0
  IsLast key keys =
      ((keys ≡ []) × (key ≡ none))
      ⊎ ((before : List K) × (k : K) × (keys ≡ before ++ (k ∷ [])) × (key ≡ some k))

  last_key-kept :
      (kept : Option K) (keys : List K)
      → ((keys ≡ []) × (last_key kept keys ≡ kept))
        ⊎ ((before : List K) × (k : K) × (keys ≡ before ++ (k ∷ []))
            × (last_key kept keys ≡ some k))
  unfolding last_key
  last_key-kept kept [] = inl (refl, refl)
  last_key-kept kept (k ∷ rest) = elim (last_key-kept (some k) rest) [
    | inl (e, f) ↦ inr ([], k, ap (λ l. k ∷ l) e, f)
    | inr (before, j, e, f) ↦ inr (k ∷ before, j, ap (λ l. k ∷ l) e, f)
  ]

  -- The private key of a dial is the one that is read and parsed, or none where that fails.
  abbrev pub IsPrivate : List (SshCall K P) → P → Type 0
  IsPrivate h private =
      ((text : String) × (s.read_private_key h ≡ ok text) × (s.parse_private_key text ≡ ok private))
      ⊎ ((private ≡ s.no_key)
          × (((e : Error) × (s.read_private_key h ≡ err e))
              ⊎ ((text : String) × (e : Error) × (s.read_private_key h ≡ ok text)
                  × (s.parse_private_key text ≡ err e))))

  key_or_none-IsPrivate :
      (h : List (SshCall K P)) → IsPrivate h (key_or_none s (s.read_private_key h))
  key_or_none-IsPrivate h = elim (Result-cases (s.read_private_key h)) [
    | inr (e, f) ↦ inr (rw f refl, inl (e, f))
    | inl (text, f) ↦ elim (Result-cases (s.parse_private_key text)) [
      | inr (e, g) ↦ inr (rw (f, g) refl, inr (text, e, f, g))
      | inl (p, g) ↦ inl (text, f, rw (f, g) refl)
    ]
  ]

  -- The dial of a round, and what the round has of it.
  pub IsShown : (host : String) → Option K → List (SshCall K P) → List (SshCall K P) → Type 0
  IsShown host key h end =
      (private : P) × (keys : List K) × (s.dial (read_private_key ∷ h) (host & ":22") none private
        ≡ ok keys)
      × IsPrivate h private
      × IsLast key keys
      × (end ≡ close (host & ":22") ∷ dial (host & ":22") none private ∷ read_private_key ∷ h)

  scan_once-IsShown :
      (host : String) (key : Option K) (h : List (SshCall K P))
      → (scan_once s host h).0 ≡ ok (some key)
      → IsShown host key h (scan_once s host h).1
  unfolding scan_once IsShown
  scan_once-IsShown host key h e =
      let private = key_or_none s (s.read_private_key h) in
      elim (Result-cases (s.dial (read_private_key ∷ h) (host & ":22") none private)) [
        | inl (keys, f) ↦ (
          private,
          keys,
          f,
          key_or_none-IsPrivate h,
          subst (λ (k : Option K). IsLast k keys) (ground arith) (last_key-kept none keys),
          rw f refl,
        )
        | inr (x, f) ↦ absurd (ground arith)
      ]

  module _
      (poll : (timeout : ℕ)
        → Eff (SshCall K P) (Option (Option K))
        → Eff (SshCall K P) (Option K)) where
    -- PollImmediate returns without an error only right after its condition was done.
    unfoldable pub EndsDone : Type 0
    EndsDone =
        (timeout : ℕ) (condition : Eff (SshCall K P) (Option (Option K))) (key : Option K)
        (h : List (SshCall K P))
        → (poll timeout condition h).0 ≡ ok key
        → (now : List (SshCall K P)) × ((condition now).0 ≡ ok (some key))
          × ((condition now).1 ≡ (poll timeout condition h).1)

    -- A scan without an error gives the last key that the server showed on a connection to port 22
    -- of the host, which was the last thing dialled, and which had to show no key in particular.
    pub ssh_key_scan-IsShown :
        EndsDone
        → (host : String) (timeout : ℕ) (h : List (SshCall K P)) (key : Option K)
        → (ssh_key_scan s poll host timeout h).0
          ≡ ok (record { hostname = host; error = none; public_key = key })
        → (now : List (SshCall K P)) × IsShown host key now (ssh_key_scan s poll host timeout h).1
    unfolding ssh_key_scan EndsDone
    ssh_key_scan-IsShown done host timeout h key e =
        elim (Result-cases (poll timeout (scan_once s host) h).0) [
          | inr (x, f) ↦ absurd (ground arith)
          | inl (k, f) ↦
              let (now, g, t) = done timeout (scan_once s host) k h f in
              let same : k ≡ key = ground arith in
              let shown = scan_once-IsShown host key now (rw same at g) in
              (now, subst (λ (end : List (SshCall K P)). IsShown host key now end) t shown)
        ]
