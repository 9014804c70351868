-- ===== src/Instance/Start/Cgroup/Only.antt =====
-- Which directories CreateGpdbCgroup makes.
use greenplum_for_kubernetes.Prelude.{
  ◌≡◌, ◌⊎◌, inl, inr, Option, none, some, List, [], ◌∷◌, arith, refl, subst, sym, In, Empty,
}
use greenplum_for_kubernetes.Prelude.Text.{String, ◌&◌}
use greenplum_for_kubernetes.Prelude.Map.{Labels, lookup}
use greenplum_for_kubernetes.Prelude.Split.{split}
use greenplum_for_kubernetes.Prelude.Effects.{returned, Eff, Result, ok, err, Result-cases, ◌>>=◌}
use greenplum_for_kubernetes.Prelude.Effects.Within.{IsWithin, pure-IsWithin, bind-IsWithin}
use greenplum_for_kubernetes.Instance.Machine.{
  plain_command, Machine, Call, Cmd, run, close, read_all, open_file, do_open_file,
}
use greenplum_for_kubernetes.Instance.Start.Cgroup.Mounted.{
  IsMounted, HasOwn, empty-HasOwn, parse_lines-HasOwn,
}
use greenplum_for_kubernetes.Instance.Start.Cgroup.{
  create_gpdb_cgroup, do_scan_lines, parse_proc_cgroup_mounts, at, parse_lines, closing,
  install_command, chown_command, make_dir, make_if_mounted, make_dirs, make_lines,
}

-- A line of /proc/self/cgroup names the subsystem with the path.
abbrev pub IsGroup : (groups : List String) (name path : String) → Type 0
IsGroup groups name path =
    (line : String) × (names : String) × In line groups
    × (at 1 (split ":" line) ≡ ok names)
    × In name (split "," names)
    × (at 2 (split ":" line) ≡ ok path)

-- The two commands on the directory named gpdb below the pod's group of such a mount.
abbrev pub IsCgroupCommand : (mounts groups : List String) → Cmd → Type 0
IsCgroupCommand mounts groups c =
    (name : String) × (point : String) × (path : String) × IsMounted mounts name point
    × IsGroup groups name path
    × ((c
          ≡ plain_command (
              "install"
              ∷ "-d"
              ∷ "-o"
              ∷ "gpadmin"
              ∷ "-g"
              ∷ "gpadmin"
              ∷ (point & path & "/gpdb")
              ∷ []))
        ⊎ (c ≡ plain_command ("chown" ∷ "-R" ∷ "gpadmin:gpadmin" ∷ (point & path & "/gpdb") ∷ [])))

module _ (lines groups : List String) where
  -- What CreateGpdbCgroup may call: reading, and these commands.
  abbrev IsCgroupCall : Call → Type 0
  IsCgroupCall (run c) = IsCgroupCommand lines groups c
  IsCgroupCall (open_file _) = Unit
  IsCgroupCall (read_all _) = Unit
  IsCgroupCall (close _) = Unit
  IsCgroupCall _ = Empty

  abbrev Within : {A : Type 0} → Eff Call A → Type 0
  Within e = IsWithin IsCgroupCall e

  module _ {K : Type 0} (m : Machine K) where
    make_dir-Within :
        (name point path : String)
        → IsMounted lines name point
        → IsGroup groups name path
        → Within (make_dir m (point & path & "/gpdb"))
    unfolding make_dir
    make_dir-Within name point path o g h c i =
        let dir = point & path & "/gpdb" in
        let own : (d : Cmd) → IsCgroupCommand lines groups d → run d ≡ c → IsCgroupCall c =
          λ d o f. subst IsCgroupCall f o in
        let first : IsCgroupCommand lines groups (install_command dir) =
          (name, point, path, o, g, inl refl) in
        let second : IsCgroupCommand lines groups (chown_command dir) =
          (name, point, path, o, g, inr refl) in
        elim (Result-cases (m.run h (install_command dir))) [
          | inr (x, f) ↦ elim (rw f at i) [
            | inl g ↦ inr (own (install_command dir) first (sym g))
            | inr k ↦ inl k
          ]
          | inl (u, f) ↦ elim (rw f at i) [
            | inl g ↦ inr (own (chown_command dir) second (sym g))
            | inr j ↦ elim j [
              | inl g ↦ inr (own (install_command dir) first (sym g))
              | inr k ↦ inl k
            ]
          ]
        ]

    make_if_mounted-Within :
        (name : String) (mount : Option String) (path : Result String)
        → ((point : String) → mount ≡ some point → IsMounted lines name point)
        → ((p : String) → path ≡ ok p → IsGroup groups name p)
        → Within (make_if_mounted m mount path)
    make_if_mounted-Within name none path h g = pure-IsWithin IsCgroupCall tt
    make_if_mounted-Within name (some point) (err e) h g = λ k c i. inl i
    make_if_mounted-Within name (some point) (ok p) h g =
        make_dir-Within name point p (h point refl) (g p refl)

    make_dirs-Within :
        (mounts : Labels) (names : List String) (path : Result String)
        → HasOwn lines mounts
        → ((name p : String) → In name names → path ≡ ok p → IsGroup groups name p)
        → Within (make_dirs m mounts names path)
    unfolding make_dirs
    make_dirs-Within mounts [] path h g = pure-IsWithin IsCgroupCall tt
    make_dirs-Within mounts (name ∷ rest) path h g =
        bind-IsWithin IsCgroupCall (make_if_mounted m (lookup name mounts) path)
          (λ u. make_dirs m mounts rest path)
          (make_if_mounted-Within name (lookup name mounts) path (h name)
            (λ p e. g name p (inl refl) e))
          (λ u. make_dirs-Within mounts rest path h (λ n p k e. g n p (inr k) e))

    make_names-Within :
        (mounts : Labels) (names : Result String) (path : Result String)
        → HasOwn lines mounts
        → ((text name p : String)
            → names ≡ ok text
            → In name (split "," text)
            → path ≡ ok p
            → IsGroup groups name p)
        → Within (returned names >>= λ n. make_dirs m mounts (split "," n) path)
    make_names-Within mounts (err e) path h g = λ k c i. inl i
    make_names-Within mounts (ok n) path h g =
        make_dirs-Within mounts (split "," n) path h (λ name p i e. g n name p refl i e)

    make_lines-Within :
        (mounts : Labels) (own : List String)
        → ((line : String) → In line own → In line groups)
        → HasOwn lines mounts
        → Within (make_lines m mounts own)
    unfolding make_lines
    make_lines-Within mounts [] i h = pure-IsWithin IsCgroupCall tt
    make_lines-Within mounts (line ∷ rest) i h =
        bind-IsWithin IsCgroupCall
          (returned (at 1 (split ":" line)) >>= λ n.
            make_dirs m mounts (split "," n) (at 2 (split ":" line)))
          (λ u. make_lines m mounts rest)
          (make_names-Within mounts (at 1 (split ":" line)) (at 2 (split ":" line)) h
            (λ text name p e k f. (line, text, i line (inl refl), e, k, f)))
          (λ u. make_lines-Within mounts rest (λ l k. i l (inr k)) h)

module _ {K : Type 0} (m : Machine K) (scanned : List Call → String → List String) where
  -- The calls that read /proc/mounts.
  abbrev pub after_mounts : List Call → List Call
  after_mounts h = close "/proc/mounts" ∷ read_all "/proc/mounts" ∷ open_file "/proc/mounts" ∷ h

  -- The lines of the two files, as they are found.
  abbrev pub mount_lines : List Call → List String
  mount_lines h = scanned (open_file "/proc/mounts" ∷ h) "/proc/mounts"

  abbrev pub group_lines : List Call → List String
  group_lines h = scanned (open_file "/proc/self/cgroup" ∷ after_mounts h) "/proc/self/cgroup"

  abbrev make_all : Labels → Eff Call (Unit {0})
  make_all mounts = do_open_file m "/proc/self/cgroup" >>= λ u.
      closing "/proc/self/cgroup"
        (do_scan_lines scanned "/proc/self/cgroup" >>= λ lines. make_lines m mounts lines)

  make_all-commands :
      (h : List Call) (mounts : Labels) (c : Cmd)
      → HasOwn (mount_lines h) mounts
      → In (run c) (make_all mounts (after_mounts h)).1
      → In (run c) h ⊎ IsCgroupCommand (mount_lines h) (group_lines h) c
  make_all-commands h mounts c own i =
      let h1 = after_mounts h in
      let path : String = "/proc/self/cgroup" in
      elim (Result-cases (m.open_file h1 path)) [
        | inr (x, f) ↦ let z = rw f at i in inl (ground arith)
        | inl (u, f) ↦
            let z = rw f at i in
            let made =
              make_lines-Within (mount_lines h) (group_lines h) m mounts (group_lines h) (λ l k. k)
                own (read_all path ∷ open_file path ∷ h1) (run c) in
            elim z [
              | inl e ↦ absurd (ground arith)
              | inr j ↦ elim (made j) [ inl k ↦ inl (ground arith) | inr p ↦ inr p ]
            ]
      ]

  -- Every command that CreateGpdbCgroup runs is `install -d` or `chown -R` on the directory gpdb
  -- below the pod's own group, at the point where a line of /proc/mounts mounts a control group:
  -- one of the four subsystems that the database uses, which is among the options of that mount
  -- and which a line of /proc/self/cgroup names with that group.
  pub create_gpdb_cgroup-commands :
      (h : List Call) (c : Cmd)
      → In (run c) (create_gpdb_cgroup m scanned h).1
      → In (run c) h ⊎ IsCgroupCommand (mount_lines h) (group_lines h) c
  unfolding create_gpdb_cgroup parse_proc_cgroup_mounts
  create_gpdb_cgroup-commands h c i = elim (Result-cases (m.open_file h "/proc/mounts")) [
    | inr (x, f) ↦ let z = rw f at i in inl (ground arith)
    | inl (u, f) ↦ elim (Result-cases (parse_lines (mount_lines h) [])) [
      | inr (x, g) ↦ let z = rw (f, g) at i in inl (ground arith)
      | inl (mounts, g) ↦
          make_all-commands h mounts c
            (parse_lines-HasOwn (mount_lines h) (mount_lines h) [] mounts (λ l k. k)
              (empty-HasOwn (mount_lines h)) g)
            (rw (f, g) at i)
    ]
  ]
