-- ===== src/Instance/KnownHosts/Controller/Touches.antt =====
-- What the controller touches.
use greenplum_for_kubernetes.Prelude.{
  List, [], ◌∷◌, In, ◌⊎◌, inl, inr, ◌≡◌, refl, Empty, Bool-cases, none, true,
}
use greenplum_for_kubernetes.Prelude.Text.{String, ◌&◌}
use greenplum_for_kubernetes.Prelude.Effects.{
  Error, Eff, Result, ok, err, pure, attempt, wrapping, call, ◌>>=◌,
}
use greenplum_for_kubernetes.Prelude.Effects.Within.{IsWithin, call-IsWithin, bind-IsWithin}
use greenplum_for_kubernetes.Instance.Machine.{
  Machine, Call, read_file, mkdir_all, open_file, write, close, operate, scan, resolve, errors_of,
  do_read_file, do_scan, do_mkdir_all, do_open_file, do_write, do_close, foreach_or_fail,
  fail_if_any, append, finish_append,
}
use greenplum_for_kubernetes.Instance.Config.{
  Parsers, read_string_helper, or_empty, get_namespace, get_greenplum_cluster_name,
}
use greenplum_for_kubernetes.Instance.KnownHosts.{
  Keys, known_hosts_filename, joined, names, lift, parse_file, get_known_hosts, scan_host_keys,
  scan_new, get_new_ready_hosts, reconcile_known_hosts, collect, finish,
}
use greenplum_for_kubernetes.Instance.KnownHosts.Ready.{get_new_ready_hosts-In_iff}
use greenplum_for_kubernetes.Instance.KnownHosts.Controller.{
  options_of, InformerOptions, EventObj, Event, endpoints, other, event_obj, reconcile_obj,
  handle_events, run_controller, watch_known_hosts,
}

-- The host is a ready one in the object of an event.
abbrev pub IsReady : List Event → String → Type 0
IsReady events host =
    (event : Event) × (subsets : List (List String)) × In event events
    × (event_obj event ≡ endpoints subsets)
    × In host (joined subsets)

abbrev read_paths : List String
read_paths =
    known_hosts_filename ∷ "/etc/podinfo/namespace" ∷ "/etc/podinfo/greenplumClusterName" ∷ []

-- The known_hosts file is read and written, two files of the pod are read, and hosts that are
-- ready are resolved and scanned.
pub Touched : (String → Type 0) → Call → Type 0
Touched ready (read_file path) = In path read_paths
Touched ready (mkdir_all path) = path ≡ "/home/gpadmin/.ssh"
Touched ready (open_file path) = path ≡ known_hosts_filename
Touched ready (write path text) = path ≡ known_hosts_filename
Touched ready (close path) = path ≡ known_hosts_filename
Touched ready (operate op hosts) = (op ≡ resolve) × ((host : String) → In host hosts → ready host)
Touched ready (scan hosts) = (host : String) → In host hosts → ready host
Touched ready _ = Empty

module _ {K : Type 0} (m : Machine K) (ready : String → Type 0) where
  abbrev Within : {A : Type 0} → Eff Call A → Type 0
  Within e = IsWithin (Touched ready) e

  then-Within :
      {A B : Type 0} (e : Eff Call A) (f : A → Eff Call B)
      → Within e
      → ((a : A) → Within (f a))
      → Within (e >>= f)
  then-Within e f w v = bind-IsWithin (Touched ready) e f w v

  read-Within : (path : String) → In path read_paths → Within (do_read_file m path)
  unfolding Touched
  read-Within path i = call-IsWithin (Touched ready) (read_file path) (λ h. m.read_file h path) i

  errors-Within : (errors : List Error) (text : String) → Within (fail_if_any m errors text)
  errors-Within [] text h c i = inl i
  errors-Within (_ ∷ _) text h c i = inl i

  foreach_or_fail-Within :
      (hosts : List String) (text : String)
      → ((host : String) → In host hosts → ready host)
      → Within (foreach_or_fail m resolve hosts text)
  unfolding foreach_or_fail Touched
  foreach_or_fail-Within hosts text r =
      then-Within (call (operate resolve hosts) (λ h. ok (m.operate h resolve hosts)))
        (λ answers. fail_if_any m (errors_of answers) text)
        (call-IsWithin (Touched ready) (operate resolve hosts) (λ h. ok (m.operate h resolve hosts))
          (refl, r))
        (λ answers. errors-Within (errors_of answers) text)

  close-Within : Within (do_close m known_hosts_filename)
  unfolding Touched
  close-Within =
      call-IsWithin (Touched ready) (close known_hosts_filename)
        (λ h. m.close h known_hosts_filename) refl

  finish_append-Within : (r : Result (Unit {0})) → Within (finish_append m known_hosts_filename r)
  finish_append-Within (ok _) h c i = close-Within h c i
  finish_append-Within (err e) h c i = close-Within h c i

  append-Within : (text : String) → Within (append m "/home/gpadmin/.ssh" known_hosts_filename text)
  unfolding append Touched
  append-Within text =
      let dir : String = "/home/gpadmin/.ssh" in
      let file = known_hosts_filename in
      let finished = λ (r : Result (Unit {0})). finish_append m file r in
      let writing = λ (u : Unit {0}). attempt (do_write m file text) >>= finished in
      let opening = λ (u : Result (Unit {0})). do_open_file m file >>= writing in
      then-Within (attempt (do_mkdir_all m dir)) opening
        (call-IsWithin (Touched ready) (mkdir_all dir) (λ h. m.mkdir_all h dir) refl)
        (λ _.
          then-Within (do_open_file m file) writing
            (call-IsWithin (Touched ready) (open_file file) (λ h. m.open_file h file) refl)
            (λ _.
              then-Within (attempt (do_write m file text)) finished
                (call-IsWithin (Touched ready) (write file text) (λ h. m.write h file text) refl)
                (λ r. finish_append-Within r)))

  parse_file-Within : (keys : Keys K) (r : Result String) → Within (parse_file m keys r)
  parse_file-Within keys (ok text) h c i = inl i
  parse_file-Within keys (err e) h c i = elim (Bool-cases e.is_not_found) [
    | inl f ↦ inl (rw f at i)
    | inr f ↦ inl (rw f at i)
  ]

  string-Within :
      (parsers : Parsers) (prefix key : String)
      → In (prefix & key) read_paths
      → Within (read_string_helper m parsers prefix key true)
  unfolding read_string_helper
  string-Within parsers prefix key p =
      then-Within (attempt (do_read_file m (prefix & key)))
        (λ answer. or_empty m parsers true answer) (read-Within (prefix & key) p)
        (λ answer. or_empty-Within answer)
    where
      or_empty-Within : (answer : Result String) → Within (or_empty m parsers true answer)
      or_empty-Within (ok text) h c i = inl i
      or_empty-Within (err e) h c i = inl i

  module _ (keys : Keys K) where
    get_known_hosts-Within : Within (get_known_hosts m keys)
    unfolding get_known_hosts
    get_known_hosts-Within =
        then-Within (attempt (do_read_file m known_hosts_filename)) (λ r. parse_file m keys r)
          (read-Within known_hosts_filename (inl refl)) (λ r. parse_file-Within keys r)

    scan_host_keys-Within :
        (hosts : List String)
        → ((host : String) → In host hosts → ready host)
        → Within (scan_host_keys m keys hosts)
    unfolding scan_host_keys Touched
    scan_host_keys-Within hosts r =
        then-Within (do_scan m hosts)
          (λ answers. get_known_hosts m keys >>= λ known.
            lift m keys (finish (collect keys known answers "" none)))
          (call-IsWithin (Touched ready) (scan hosts) (λ h. ok (m.scan h hosts)) r)
          (λ answers.
            then-Within (get_known_hosts m keys)
              (λ known. lift m keys (finish (collect keys known answers "" none)))
              get_known_hosts-Within (λ known h c i. inl i))

    scan_new-Within :
        (hosts : List String)
        → ((host : String) → In host hosts → ready host)
        → Within (scan_new m keys hosts)
    scan_new-Within [] r h c i = inl i
    scan_new-Within (host ∷ rest) r h c i =
        let hosts = host ∷ rest in
        let writing = λ (text : String). append m "/home/gpadmin/.ssh" known_hosts_filename text in
        let scanning = λ (u : Unit {0}). scan_host_keys m keys hosts >>= writing in
        then-Within (foreach_or_fail m resolve hosts "failed to resolve dns entries for all hosts")
          scanning (foreach_or_fail-Within hosts "failed to resolve dns entries for all hosts" r)
          (λ _.
            then-Within (scan_host_keys m keys hosts) writing (scan_host_keys-Within hosts r)
              append-Within)
          h c i

    reconcile_known_hosts-Within :
        (subsets : List (List String))
        → ((host : String) → In host (joined subsets) → ready host)
        → Within (reconcile_known_hosts m keys subsets)
    unfolding reconcile_known_hosts
    reconcile_known_hosts-Within subsets r =
        then-Within (get_known_hosts m keys)
          (λ known. scan_new m keys (get_new_ready_hosts (names known) subsets))
          get_known_hosts-Within
          (λ known.
            scan_new-Within (get_new_ready_hosts (names known) subsets)
              (λ host i. r host ((get_new_ready_hosts-In_iff host (names known) subsets).0 i).0))

    reconcile_obj-Within :
        (obj : EventObj)
        → ((subsets : List (List String))
            → obj ≡ endpoints subsets
            → (host : String) → In host (joined subsets)
            → ready host)
        → Within (reconcile_obj m keys obj)
    reconcile_obj-Within (endpoints subsets) r h c i =
        reconcile_known_hosts-Within subsets (r subsets refl) h c i
    reconcile_obj-Within other r h c i = inl i

    handle_events-Within :
        (events : List Event)
        → ((host : String) → IsReady events host → ready host)
        → Within (handle_events m keys events)
    unfolding handle_events
    handle_events-Within [] r h c i = inl i
    handle_events-Within (event ∷ rest) r h c i =
        then-Within (attempt (reconcile_obj m keys (event_obj event)))
          (λ _. handle_events m keys rest)
          (reconcile_obj-Within (event_obj event)
            (λ subsets e host k. r host (event, subsets, inl refl, e, k)))
          (λ _.
            handle_events-Within rest
              (λ host (now, subsets, k, e, l). r host (now, subsets, inr k, e, l)))
          h c i

    run_controller-Within :
        (parsers : Parsers) (client : Result (Unit {0}))
        → Within (run_controller m keys parsers client)
    unfolding run_controller
    run_controller-Within parsers (err e) h c i = inl i
    run_controller-Within parsers (ok u) h c i =
        let naming = λ (ns : String).
          wrapping "failed to read greenplumcluster name" (get_greenplum_cluster_name m parsers)
          >>= λ name. pure (options_of ns name) in
        then-Within (wrapping "failed to read namespace" (get_namespace m parsers)) naming
          (string-Within parsers "/etc/podinfo/" "namespace" (inr (inl refl)))
          (λ ns.
            then-Within
              (wrapping "failed to read greenplumcluster name"
                (get_greenplum_cluster_name m parsers))
              (λ name. pure (options_of ns name))
              (string-Within parsers "/etc/podinfo/" "greenplumClusterName" (inr (inr (inl refl))))
              (λ name k d j. inl j))
          h c i

    -- Whatever events come, with whatever is read and answered, the controller resolves and scans
    -- no host but one that the endpoints of an event name as ready (`ready` holds of those), reads
    -- the known_hosts file and two files of the pod, and writes to the known_hosts file only; it
    -- makes no call of another kind.
    pub watch_known_hosts-touches :
        (parsers : Parsers) (client : Result (Unit {0}))
        → (informer : InformerOptions → List Event)
        → ((options : InformerOptions) (host : String)
            → IsReady (informer options) host
            → ready host)
        → (h : List Call) (c : Call) → In c (watch_known_hosts m keys parsers client informer h).1
        → In c h ⊎ Touched ready c
    unfolding watch_known_hosts
    watch_known_hosts-touches parsers client informer r =
        then-Within (run_controller m keys parsers client)
          (λ options. handle_events m keys (informer options))
          (run_controller-Within parsers client)
          (λ options. handle_events-Within (informer options) (r options))
