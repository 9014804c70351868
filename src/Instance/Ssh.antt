-- ===== src/Instance/Ssh.antt =====
-- pkg/net/ssh: commands on other hosts, the wait for an entry of known_hosts, and the scan of a
-- host's key (exec.go, exec_multihost.go, known_hosts_waiter.go, keyscanner/keyscanner.go).
pub mod Known
pub mod Scanned
use greenplum_for_kubernetes.Prelude.{ℕ, Bool, true, false, Option, none, some, List, [], ◌∷◌}
use greenplum_for_kubernetes.Prelude.Text.{String, ◌&◌}
use greenplum_for_kubernetes.Prelude.Map.{lookup}
use greenplum_for_kubernetes.Prelude.Effects.{
  Eff, Error, Result, ok, err, call, pure, fail, attempt, wrapping, ◌>>=◌, ◌>>◌,
}
use greenplum_for_kubernetes.Instance.Machine.{HostKey, plain}

-- What the code calls. `dial` names the host key that the connection has to show, if it has to show
-- one; `P` is the private key.
pub data SshCall (K P : Type 0) : Type 0 where
  read_known_hosts : SshCall K P
  read_private_key : SshCall K P
  dial : (address : String) → (expected : Option K) → P → SshCall K P
  new_session : (address : String) → SshCall K P
  combined_output : (address command : String) → SshCall K P
  close : (address : String) → SshCall K P

-- `known_hosts` is GetKnownHosts. A dial gives the host keys that the server showed, in order.
pub record Ssh (K P : Type 0) : Type 0 where
  pub known_hosts : List (SshCall K P) → Result (List (String × K))
  pub read_private_key : List (SshCall K P) → Result String
  pub parse_private_key : String → Result P
  pub no_key : P
  pub dial : List (SshCall K P) → String → Option K → P → Result (List K)
  pub new_session : List (SshCall K P) → String → Result (Unit {0})
  pub combined_output : List (SshCall K P) → String → String → Result (Unit {0})

-- GetHostPublicKey: the key, HostNotFound, or another error.
pub data KeyLookup (K : Type 0) : Type 0 where
  found : K → KeyLookup K
  host_not_found : (host : String) → KeyLookup K
  failed : Error → KeyLookup K

module _ {K : Type 0} where
  abbrev from_map : Option K → (host : String) → KeyLookup K
  from_map none host = host_not_found host
  from_map (some key) host = found key

  unfoldable pub get_host_public_key : Result (List (String × K)) → (host : String) → KeyLookup K
  get_host_public_key (ok known) host = from_map (lookup host known) host
  get_host_public_key (err e) host = failed e

  -- The last of the keys, as NewCompressingChan keeps it.
  unfoldable pub last_key : Option K → List K → Option K
  last_key kept [] = kept
  last_key kept (k ∷ rest) = last_key (some k) rest

-- HostNotFound.Error
abbrev pub not_known : String → Error
not_known host = plain ("host " & host & " was not found in the known_hosts file")

-- keyscanner.HostKey: an error, and a key that may be nil.
pub record ScannedKey (K : Type 0) : Type 0 where
  pub hostname : String
  pub error : Option Error
  pub public_key : Option K

module _ {K : Type 0} where
  abbrev pub scanned_key : (host : String) → Result (Option K) → ScannedKey K
  scanned_key host (ok key) = record { hostname = host; error = none; public_key = key }
  scanned_key host (err e) = record {
    hostname = host;
    error = some (plain ("timed out waiting for keyscan on " & host & ":22"));
    public_key = none;
  }

module _ {K P : Type 0} (s : Ssh K P) where
  -- `defer c.Close()`
  abbrev pub closing : {A : Type 0} → String → Eff (SshCall K P) A → Eff (SshCall K P) A
  closing address body h = let (r, h') = body h in (r, close address ∷ h')

  abbrev pub run_with : (host command : String) → P → KeyLookup K → Eff (SshCall K P) (Unit {0})
  run_with host command private (failed e) =
      wrapping ("failed to get host key for " & host) (fail e)
  run_with host command private (host_not_found name) =
      wrapping ("failed to get host key for " & host) (fail (not_known name))
  run_with host command private (found key) = do
    let address = host & ":22"
    call (dial address (some key) private) (λ h. s.dial h address (some key) private)
    closing address (do
      wrapping "could not create ssh session"
          (call (new_session address) (λ h. s.new_session h address))
      call (combined_output address command) (λ h. s.combined_output h address command))

  -- Exec.RunSSHCommand; the output is only logged by its caller.
  unfoldable pub run_ssh_command : (host command : String) → P → Eff (SshCall K P) (Unit {0})
  unfolding get_host_public_key
  run_ssh_command host command private = do
    known ← attempt (call read_known_hosts (λ h. s.known_hosts h))
    run_with host command private (get_host_public_key known host)

  abbrev parsed : Result P → Eff (SshCall K P) P
  parsed r h = (r, h)

  -- MultiHostExec.Execute
  unfoldable pub execute : (command host : String) → Eff (SshCall K P) (Unit {0})
  unfolding run_ssh_command
  execute command host = do
    text ← call read_private_key (λ h. s.read_private_key h)
    private ← wrapping "failed to parse private key" (parsed (s.parse_private_key text))
    run_ssh_command host command private

  abbrev condition_of : KeyLookup K → Eff (SshCall K P) Bool
  condition_of (found _) = pure true
  condition_of (host_not_found _) = pure false
  condition_of (failed e) = fail e

  -- What KnownHostsWaiter.Execute polls.
  unfoldable pub host_is_known : (host : String) → Eff (SshCall K P) Bool
  unfolding get_host_public_key
  host_is_known host = do
    known ← attempt (call read_known_hosts (λ h. s.known_hosts h))
    condition_of (get_host_public_key known host)

  module _ (poll : (timeout : ℕ) → Eff (SshCall K P) Bool → Eff (SshCall K P) (Unit {0})) where
    -- KnownHostsWaiter.Execute; `poll` is PollImmediate of the API machinery at an interval of one
    -- second.
    unfoldable pub wait_for_host : (host : String) → Eff (SshCall K P) (Unit {0})
    unfolding host_is_known
    wait_for_host host = poll 30 (host_is_known host)

  abbrev parsed_or_none : Result P → P
  parsed_or_none (ok key) = key
  parsed_or_none (err e) = s.no_key

  -- getSSHConfig goes on without a key where GetGpadminPrivateKey fails.
  abbrev pub key_or_none : Result String → P
  key_or_none (err e) = s.no_key
  key_or_none (ok text) = parsed_or_none (s.parse_private_key text)

  abbrev scanned : (address : String) → Result (List K) → Eff (SshCall K P) (Option (Option K))
  scanned address (err e) = pure none
  scanned address (ok keys) = closing address (pure (some (last_key none keys)))

  -- One round of SSHKeyScan: nothing where the dial fails, else the key that the server showed last.
  unfoldable pub scan_once : (host : String) → Eff (SshCall K P) (Option (Option K))
  unfolding last_key
  scan_once host = do
    let address = host & ":22"
    text ← attempt (call read_private_key (λ h. s.read_private_key h))
    let private = key_or_none text
    answer ← attempt (call (dial address none private) (λ h. s.dial h address none private))
    scanned address answer

  module _
      (poll : (timeout : ℕ)
        → Eff (SshCall K P) (Option (Option K))
        → Eff (SshCall K P) (Option K)) where
    -- SSHKeyScan; `poll` is PollImmediate of the API machinery at an interval of one second, and
    -- gives the key of the round that was done.
    unfoldable pub ssh_key_scan : (host : String) → ℕ → Eff (SshCall K P) (ScannedKey K)
    unfolding scan_once
    ssh_key_scan host timeout = do
      result ← attempt (poll timeout (scan_once host))
      pure (scanned_key host result)
