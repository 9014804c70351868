-- ===== src/Instance/Ssh/Known.antt =====
-- A command on another host is run over a connection that shows the known key.
use greenplum_for_kubernetes.Prelude.{◌≡◌, refl, inl, inr, some, List, ◌∷◌, arith, Option-cases}
use greenplum_for_kubernetes.Prelude.Text.{String, ◌&◌}
use greenplum_for_kubernetes.Prelude.Map.{lookup}
use greenplum_for_kubernetes.Prelude.Effects.{ok, Result-cases}
use greenplum_for_kubernetes.Instance.Ssh.{
  Ssh, SshCall, read_known_hosts, dial, new_session, combined_output, close, run_ssh_command,
  get_host_public_key,
}

module _ {K P : Type 0} (s : Ssh K P) where
  -- Where RunSSHCommand succeeds, the known_hosts have a key for the host, the connection had to
  -- show this key, and the command was run on it, once, before it was closed.
  pub run_ssh_command-known :
      (host command : String) (private : P) (h : List (SshCall K P))
      → (run_ssh_command s host command private h).0 ≡ ok tt
      → (known : List (String × K)) × (key : K) × (s.known_hosts h ≡ ok known)
        × (lookup host known ≡ some key)
        × ((run_ssh_command s host command private h).1
            ≡ close (host & ":22")
              ∷ combined_output (host & ":22") command
              ∷ new_session (host & ":22")
              ∷ dial (host & ":22") (some key) private
              ∷ read_known_hosts
              ∷ h)
  unfolding run_ssh_command get_host_public_key
  run_ssh_command-known host command private h e =
      let address = host & ":22" in
      let h1 = read_known_hosts ∷ h in
      elim (Result-cases (s.known_hosts h)) [
        | inr (x, f) ↦ absurd (ground arith)
        | inl (known, f) ↦ elim (Option-cases (lookup host known)) [
          | inl g ↦ absurd (ground arith)
          | inr (key, g) ↦
              let h2 = dial address (some key) private ∷ h1 in
              elim (Result-cases (s.dial h1 address (some key) private)) [
                | inr (x, i) ↦ absurd (ground arith)
                | inl (ks, i) ↦ elim (Result-cases (s.new_session h2 address)) [
                  | inr (x, j) ↦ absurd (ground arith)
                  | inl (u, j) ↦ (known, key, f, g, rw (f, g, i, j) refl)
                ]
              ]
        ]
      ]
