-- ===== src/Instance/Pxf/Download.antt =====
-- A download that succeeds is complete.
use greenplum_for_kubernetes.Prelude.{
  inl, inr, ◌≡◌, ◌∙◌, sym, refl, ap, ℕ, ◌<◌, ◌≤◌, ◌+◌, ltb, ◌==◌, List, [], ◌∷◌, ◌++◌, map, arith,
  pushed, length, All, if◌then◌else◌, Bool-cases,
}
use greenplum_for_kubernetes.Prelude.Text.{String}
use greenplum_for_kubernetes.Prelude.Effects.{Result, ok, err, Result-cases}
use greenplum_for_kubernetes.Prelude.Effects.Success.{bind-ok}
use greenplum_for_kubernetes.Instance.Pxf.{
  S3, S3Call, ObjectInfo, get_object, mkdir_all, open_file, copy_object, list_objects, is_content,
  file_name, Seen, count_object, nothing_seen, download_object, download_all, download_bucket_path,
}

module _ (s : S3) (bucket folder dir : String) where
  -- The calls for one object, and for all objects with content, in order.
  abbrev pub fetch : ObjectInfo → List S3Call
  fetch info =
      let name = file_name s folder dir info.key in
      get_object bucket info.key
      ∷ mkdir_all (s.dir_of name)
      ∷ open_file name
      ∷ copy_object info.key name
      ∷ []

  abbrev pub contents : List ObjectInfo → List ObjectInfo
  contents [] = []
  contents (info ∷ rest) =
      let others = contents rest in if is_content s info then info ∷ others else others

  abbrev pub fetches : List ObjectInfo → List S3Call
  fetches [] = []
  fetches (info ∷ rest) = fetch info ++ fetches rest

  -- io.Copy wrote no less than the object's size.
  abbrev pub IsWritten : ObjectInfo → Type 0
  IsWritten info =
      (g : List S3Call) × (n : ℕ) × (s.copy_object g info.key (file_name s folder dir info.key)
        ≡ ok n)
      × (info.size ≤ n)

  download_object-ok :
      (info : ObjectInfo) (h : List S3Call)
      → (download_object s bucket folder dir info h).0 ≡ ok tt
      → IsWritten info × ((download_object s bucket folder dir info h).1 ≡ pushed (fetch info) h)
  unfolding download_object
  download_object-ok info h e =
      let name = file_name s folder dir info.key in
      let h1 = get_object bucket info.key ∷ h in
      let h2 = mkdir_all (s.dir_of name) ∷ h1 in
      let h3 = open_file name ∷ h2 in
      elim (Result-cases (s.get_object h bucket info.key)) [
        | inr (x, f) ↦ absurd (ground arith)
        | inl (u, f) ↦ elim (Result-cases (s.mkdir_all h1 (s.dir_of name))) [
          | inr (x, g) ↦ absurd (ground arith)
          | inl (v, g) ↦ elim (Result-cases (s.open_file h2 name)) [
            | inr (x, i) ↦ absurd (ground arith)
            | inl (w, i) ↦ elim (Result-cases (s.copy_object h3 info.key name)) [
              | inr (x, j) ↦ absurd (ground arith)
              | inl (n, j) ↦ elim (Bool-cases (ltb n info.size)) [
                | inl k ↦ absurd (ground arith)
                | inr k ↦ ((h3, n, j, ground arith), rw (f, g, i, j, k) refl)
              ]
            ]
          ]
        ]
      ]

  pushed-append : (cs ds h : List S3Call) → pushed (cs ++ ds) h ≡ pushed ds (pushed cs h)
  pushed-append [] ds h = refl
  pushed-append (c ∷ cs) ds h = pushed-append cs ds (c ∷ h)

  -- What is true of a loop over the listing that ends well.
  record Downloaded (objects : List (Result ObjectInfo)) (seen out : Seen) (h after : List S3Call)
      : Type 0 where
    infos : List ObjectInfo
    listed : objects ≡ map (λ i. ok i) infos
    written : All IsWritten (contents infos)
    calls : after ≡ pushed (fetches (contents infos)) h
    counted : out.num_objects ≡ seen.num_objects + length (contents infos)

  download_all-ok :
      (objects : List (Result ObjectInfo)) (seen out : Seen) (h : List S3Call)
      → (download_all s bucket folder dir objects seen h).0 ≡ ok out
      → Downloaded objects seen out h (download_all s bucket folder dir objects seen h).1
  unfolding download_all
  download_all-ok [] seen out h e = record {
    infos = [];
    listed = refl;
    written = tt;
    calls = refl;
    counted = ground arith;
  }
  download_all-ok (err x ∷ rest) seen out h e = absurd (ground arith)
  download_all-ok (ok info ∷ rest) seen out h e = elim (Bool-cases (is_content s info)) [
    | inr f ↦
        let d = download_all-ok rest seen out h (rw f at e) in
        rw f (record {
          infos = info ∷ d.infos;
          listed = ap (λ l. ok info ∷ l) d.listed;
          written = rw f d.written;
          calls = rw f d.calls;
          counted = rw f d.counted;
        })
    | inl f ↦
        let more = count_object s folder info seen in
        let (u, e1, e2) =
          bind-ok (download_object s bucket folder dir info)
            (λ u. download_all s bucket folder dir rest more) h out (rw f at e) in
        let (w, t) = download_object-ok info h e1 in
        let d = download_all-ok rest more out (download_object s bucket folder dir info h).1 e2 in
        rw (f, e1)
          (record {
            infos = info ∷ d.infos;
            listed = ap (λ l. ok info ∷ l) d.listed;
            written = rw f (w, d.written);
            calls = rw f (
                d.calls
                ∙ ap (λ g. pushed (fetches (contents d.infos)) g) t
                ∙ sym (pushed-append (fetch info) (fetches (contents d.infos)) h));
            counted = rw f (omega (arith, d.counted));
          })
  ]

  -- Where DownloadBucketPath succeeds, the listing had no error and an object with content at
  -- least, and every object with content, and no other, was fetched and written, in the order of
  -- the listing, with no fewer bytes than its size.
  pub download_bucket_path_complete :
      (h : List S3Call)
      → (download_bucket_path s bucket folder dir h).0 ≡ ok tt
      → (infos : List ObjectInfo) × (s.list_objects h bucket folder ≡ map (λ i. ok i) infos)
        × (0 < length (contents infos))
        × All IsWritten (contents infos)
        × ((download_bucket_path s bucket folder dir h).1
            ≡ pushed (fetches (contents infos)) (list_objects bucket folder ∷ h))
  unfolding download_bucket_path
  download_bucket_path_complete h e =
      let objects = s.list_objects h bucket folder in
      let h1 = list_objects bucket folder ∷ h in
      elim (Result-cases (download_all s bucket folder dir objects nothing_seen h1).0) [
        | inr (x, f) ↦ absurd (ground arith)
        | inl (out, f) ↦
            let d = download_all-ok objects nothing_seen out h1 f in
            elim (Bool-cases (out.num_objects == 0)) [
              | inl g ↦ absurd (ground arith)
              | inr g ↦ (d.infos, d.listed, ground (arith, d.counted), d.written, rw (f, g) d.calls)
            ]
      ]
