-- ===== src/Instance/KnownHosts.antt =====
-- The known_hosts file: pkg/net/ssh/knownhosts/reader.go,
-- pkg/net/ssh/keyscanner/scan_host_keys.go and
-- greenplum-instance/controllers/knownHosts_controller.go
pub mod Scan
pub mod Ready
pub mod Read
pub mod Controller
use greenplum_for_kubernetes.Prelude.{
  ℕ, zero, suc, ◌+◌, Option, none, some, Bool, true, false, not, List, [], ◌∷◌, ◌++◌, if◌then◌else◌,
}
use greenplum_for_kubernetes.Prelude.Map.{lookup, insert}
use greenplum_for_kubernetes.Prelude.Text.{String, ◌&◌, str_eq, count}
use greenplum_for_kubernetes.Prelude.Effects.{
  Error, Eff, Result, ok, err, wrap, pure, fail, attempt, ◌>>=◌, ◌>>◌,
}
use greenplum_for_kubernetes.Instance.Machine.{
  Machine, Call, HostKey, resolve, plain, do_read_file, do_scan, foreach_or_fail, append,
}

-- What ssh.ParseKnownHosts makes of a text.
pub data Parsed (K : Type 0) : Type 0 where
  eof : Parsed K
  bad : Error → Parsed K
  entry : (marker : String) (hosts : List String) (key : K) (rest : String) → Parsed K

-- golang.org/x/crypto/ssh: the parser, PublicKey.Marshal and MarshalAuthorizedKey.
pub record Keys (K : Type 0) : Type 0 where
  pub parse_known_hosts : String → Parsed K
  pub marshal : K → String
  pub marshal_authorized_key : K → String

abbrev pub known_hosts_filename : String
known_hosts_filename = "/home/gpadmin/.ssh/known_hosts"

module _ {K : Type 0} where
  abbrev pub put_all : List String → K → List (String × K) → List (String × K)
  put_all [] key known = known
  put_all (host ∷ rest) key known = put_all rest key (insert host key known)

-- Ready addresses by host name; a host that is known is set to false.
unfoldable pub mark : Bool → List String → List (String × Bool) → List (String × Bool)
mark b [] addresses = addresses
mark b (host ∷ rest) addresses = mark b rest (insert host b addresses)

abbrev pub finish : String × Option Error → Result String
finish (out, none) = ok out
finish (out, some e) = err e

abbrev pub joined : List (List String) → List String
joined [] = []
joined (subset ∷ rest) = subset ++ joined rest

unfoldable pub new_of : List (String × Bool) → List String
new_of [] = []
new_of ((host, true) ∷ rest) = host ∷ new_of rest
new_of ((host, false) ∷ rest) = new_of rest

-- The subsets by the host names of their ready addresses. Go goes through the map in no fixed
-- order; here the hosts come in the order in which they were met.
unfoldable pub get_new_ready_hosts : List String → List (List String) → List String
unfolding mark new_of
get_new_ready_hosts known_hosts subsets =
    new_of (mark false known_hosts (mark true (joined subsets) []))

module _ {K : Type 0} where
  abbrev pub names : List (String × K) → List String
  names [] = []
  names ((host, key) ∷ rest) = host ∷ names rest

module _ {K : Type 0} (keys : Keys K) where
  abbrev on_entry :
      String
      → List String
      → K
      → List (String × K)
      → Result (List (String × K))
      → Result (List (String × K))
  on_entry marker hosts key known rest =
      if not (str_eq marker "")
      then err (plain "known_hosts markers are not currently supported")
      else rest

  abbrev parse_error : Error → Error
  parse_error e = wrap ("could not parse " & known_hosts_filename) e

  -- What is done with one entry, `next` being the rounds after it.
  abbrev read_one :
      (next : String → List (String × K) → Result (List (String × K)))
      → Parsed K
      → List (String × K)
      → Result (List (String × K))
  read_one next eof known = ok known
  read_one next (bad e) known = err (parse_error e)
  read_one next (entry marker hosts key rest) known =
      on_entry marker hosts key known (next rest (put_all hosts key known))

  -- One round for every entry. Without fuel the answer is an error, which more fuel than the text
  -- has characters keeps away.
  unfoldable pub read_entries : ℕ → String → List (String × K) → Result (List (String × K))
  read_entries zero text known = err (plain "out of fuel")
  read_entries (suc fuel) text known =
      read_one (λ rest now. read_entries fuel rest now) (keys.parse_known_hosts text) known

  -- The loop of ScanHostKeys: the text so far and the last error.
  abbrev pub key_line : String → K → String
  key_line host key = host & " " & keys.marshal_authorized_key key

  abbrev against : Option K → String → K → String → Option Error → String × Option Error
  against none host key out e = (out & key_line host key, e)
  against (some known) host key out e =
      if not (str_eq (keys.marshal key) (keys.marshal known))
      then (out, some (plain "scanned key does not match known key"))
      else (out, e)

  abbrev pub step : List (String × K) → HostKey K → String → Option Error → String × Option Error
  step known k out e = elim k.public_key [
    | err x ↦ (out, some x)
    | ok key ↦ against (lookup k.hostname known) k.hostname key out e
  ]

  unfoldable pub collect :
      List (String × K) → List (HostKey K) → String → Option Error → String × Option Error
  collect known [] out e = (out, e)
  collect known (k ∷ rest) out e = let (out', e') = step known k out e in collect known rest out' e'

module _ {K : Type 0} (m : Machine K) (keys : Keys K) where
  abbrev pub lift : {A : Type 0} → Result A → Eff Call A
  lift r h = (r, h)

  abbrev pub parse_file : Result String → Eff Call (List (String × K))
  parse_file (ok text) = lift (read_entries keys (count text + 1) text [])
  parse_file (err e) =
      if e.is_not_found then pure [] else fail (wrap ("could not read " & known_hosts_filename) e)

  unfoldable pub get_known_hosts : Eff Call (List (String × K))
  unfolding read_entries
  get_known_hosts = do answer ← attempt (do_read_file m known_hosts_filename); parse_file answer

  -- The scans are started before the known hosts are read.
  unfoldable pub scan_host_keys : List String → Eff Call String
  unfolding get_known_hosts collect
  scan_host_keys hosts = do
    answers ← do_scan m hosts
    known ← get_known_hosts
    lift (finish (collect keys known answers "" none))

  abbrev pub scan_new : List String → Eff Call (Unit {0})
  scan_new [] = pure tt
  scan_new (host ∷ rest) = do
    let hosts = host ∷ rest
    foreach_or_fail m resolve hosts "failed to resolve dns entries for all hosts"
    text ← scan_host_keys hosts
    append m "/home/gpadmin/.ssh" known_hosts_filename text

  -- KnownHostsReconciler.Reconcile on an Endpoints object. It logs an error and returns nothing;
  -- here the error is the result.
  unfoldable pub reconcile_known_hosts : List (List String) → Eff Call (Unit {0})
  unfolding get_new_ready_hosts
  reconcile_known_hosts subsets = do
    known ← get_known_hosts
    scan_new (get_new_ready_hosts (names known) subsets)
