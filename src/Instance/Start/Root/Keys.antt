-- ===== src/Instance/Start/Root/Keys.antt =====
-- When the host key of the container is generated.
use greenplum_for_kubernetes.Prelude.{arith, ◌≡◌, ◌↔◌, ◌⊎◌, inl, inr, List, ◌∷◌, In, Empty, refl}
use greenplum_for_kubernetes.Prelude.Text.{String}
use greenplum_for_kubernetes.Prelude.Effects.{
  Eff, Error, Result, ok, err, Result-cases, attempt, wrapping, ◌>>=◌,
}
use greenplum_for_kubernetes.Prelude.Effects.Within.{
  IsWithin, call-IsWithin, bind-IsWithin, IsGrowing, call-IsGrowing, bind-IsGrowing,
}
use greenplum_for_kubernetes.Instance.Machine.{
  Machine, Call, FileInfo, run, stat, open_file, copy, lstat, mkdir_all, do_stat, do_open_file,
  do_copy,
}
use greenplum_for_kubernetes.Instance.Files.{copy_mode, copy_file}
use greenplum_for_kubernetes.Instance.Start.Root.{
  host_key_path, keygen_command, generate_unless, setup_ssh_host_keys,
}

abbrev IsQuiet : Call → Type 0
IsQuiet (run _) = Empty
IsQuiet _ = Unit

module _ {K : Type 0} (m : Machine K) where
  copy_mode-IsWithin : (info : Result FileInfo) → IsWithin IsQuiet (copy_mode m info)
  copy_mode-IsWithin (ok _) h c i = inl i
  copy_mode-IsWithin (err _) h c i = inl i

  -- The steps of CopyFile from its end.
  abbrev copying : (from to : String) → Eff Call (Unit {0})
  copying from to = wrapping "copy" (do_copy m from to)

  abbrev opening_to : (from to : String) → Eff Call (Unit {0})
  opening_to from to = wrapping "copy" (do_open_file m to) >>= λ u. copying from to

  abbrev with_mode : (from to : String) → Result FileInfo → Eff Call (Unit {0})
  with_mode from to info = copy_mode m info >>= λ u. opening_to from to

  abbrev opening_from : (from to : String) → Result FileInfo → Eff Call (Unit {0})
  opening_from from to info = wrapping "copy" (do_open_file m from) >>= λ u. with_mode from to info

  with_mode-IsWithin :
      (from to : String) (info : Result FileInfo) → IsWithin IsQuiet (with_mode from to info)
  with_mode-IsWithin from to info =
      bind-IsWithin IsQuiet (copy_mode m info) (λ u. opening_to from to) (copy_mode-IsWithin info)
        (λ u.
          bind-IsWithin IsQuiet (wrapping "copy" (do_open_file m to)) (λ v. copying from to)
            (call-IsWithin IsQuiet (open_file to) (λ h. m.open_file h to) tt)
            (λ v. call-IsWithin IsQuiet (copy from to) (λ h. m.copy h from to) tt))

  copy_file-IsWithin : (from to : String) → IsWithin IsQuiet (copy_file m from to)
  unfolding copy_file
  copy_file-IsWithin from to =
      bind-IsWithin IsQuiet (attempt (do_stat m from)) (opening_from from to)
        (call-IsWithin IsQuiet (stat from) (λ h. m.stat h from) tt)
        (λ info.
          bind-IsWithin IsQuiet (wrapping "copy" (do_open_file m from))
            (λ u. with_mode from to info)
            (call-IsWithin IsQuiet (open_file from) (λ h. m.open_file h from) tt)
            (λ u. with_mode-IsWithin from to info))

  copy_mode-IsGrowing : (info : Result FileInfo) → IsGrowing (copy_mode m info)
  copy_mode-IsGrowing (ok _) h c i = i
  copy_mode-IsGrowing (err _) h c i = i

  with_mode-IsGrowing :
      (from to : String) (info : Result FileInfo) → IsGrowing (with_mode from to info)
  with_mode-IsGrowing from to info =
      bind-IsGrowing (copy_mode m info) (λ u. opening_to from to) (copy_mode-IsGrowing info)
        (λ u.
          bind-IsGrowing (wrapping "copy" (do_open_file m to)) (λ v. copying from to)
            (call-IsGrowing (open_file to) (λ h. m.open_file h to))
            (λ v. call-IsGrowing (copy from to) (λ h. m.copy h from to)))

  copy_file-IsGrowing : (from to : String) → IsGrowing (copy_file m from to)
  unfolding copy_file
  copy_file-IsGrowing from to =
      bind-IsGrowing (attempt (do_stat m from)) (opening_from from to)
        (call-IsGrowing (stat from) (λ h. m.stat h from))
        (λ info.
          bind-IsGrowing (wrapping "copy" (do_open_file m from)) (λ u. with_mode from to info)
            (call-IsGrowing (open_file from) (λ h. m.open_file h from))
            (λ u. with_mode-IsGrowing from to info))

  abbrev keygen : Call
  keygen = run keygen_command

  no_new_run :
      (h : List Call) (e : Eff Call (Unit {0}))
      → IsWithin IsQuiet e
      → In keygen (e h).1
      → In keygen h
  no_new_run h e w i = elim (w h keygen i) [ inl k ↦ k | inr x ↦ elim x [ ] ]

  -- What follows the lookup of the key.
  abbrev copying_key : Eff Call (Unit {0})
  copying_key =
      wrapping "failed to copy SSH host key to /etc/ssh/ssh_host_rsa_key"
        (copy_file m host_key_path "/etc/ssh/ssh_host_rsa_key")

  after_missing :
      (h : List Call) (e : Error) → In keygen ((generate_unless m (err e) >>= λ u. copying_key) h).1
  after_missing h e =
      bind-IsGrowing (λ g. ((generate_unless m (err e) h).0, g)) (λ u. copying_key) (λ g c i. i)
        (λ u. copy_file-IsGrowing host_key_path "/etc/ssh/ssh_host_rsa_key")
        (keygen ∷ mkdir_all "/greenplum/hostKeyDir" ∷ h) keygen (inl refl)

  kept :
      (h : List Call) (info : FileInfo)
      → In keygen (copying_key (lstat host_key_path ∷ h)).1
        ↔ (In keygen h ⊎ ((e : Error) × (ok info ≡ err e)))
  kept h info = (
    λ i.
        elim (no_new_run (lstat host_key_path ∷ h) copying_key
          (copy_file-IsWithin host_key_path "/etc/ssh/ssh_host_rsa_key") i) [
            | inl g ↦ absurd (ground arith)
            | inr k ↦ inl k
          ],
    λ j. elim j [
      | inl k ↦
          copy_file-IsGrowing host_key_path "/etc/ssh/ssh_host_rsa_key" (lstat host_key_path ∷ h)
            keygen (inr k)
      | inr (x, f) ↦ absurd (ground arith)
    ],
  )

  -- SetupSSHHostKeys runs ssh-keygen exactly if Lstat gives an error for the host key, unless it was
  -- run before: a key that is there is not generated again.
  pub setup_ssh_host_keys-keygen_iff :
      (h : List Call)
      → In (run keygen_command) (setup_ssh_host_keys m h).1
        ↔ (In (run keygen_command) h ⊎ ((e : Error) × (m.lstat h host_key_path ≡ err e)))
  unfolding setup_ssh_host_keys
  setup_ssh_host_keys-keygen_iff h = elim (Result-cases (m.lstat h host_key_path)) [
    | inl (info, e) ↦ rw e (kept h info)
    | inr (x, e) ↦ rw e (λ i. inr (x, refl), λ i. after_missing (lstat host_key_path ∷ h) x)
  ]
