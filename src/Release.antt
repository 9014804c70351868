-- ===== src/Release.antt =====
-- release/security_check.go: which packages of a release are older than the security notices ask
-- for, and the release note.
pub mod Updates
pub mod Note
use greenplum_for_kubernetes.Prelude.{
  Bool, true, false, ◌&&◌, ℕ, suc, ◌==◌, Option, none, some, List, [], ◌∷◌, ◌++◌, if◌then◌else◌,
}
use text.Mathlib.Text.{starts_with}
use greenplum_for_kubernetes.Prelude.Text.{String, ◌&◌, str_eq}
use greenplum_for_kubernetes.Prelude.Split.{split}
use greenplum_for_kubernetes.Prelude.Map.{Labels, lookup, insert}
use greenplum_for_kubernetes.Prelude.Effects.{Error, Result, ok, err, wrap}
use greenplum_for_kubernetes.Instance.Machine.{plain, index_out_of_range}

-- A story of the CSV file.
pub record SecurityStory : Type 0 where
  pub id : String
  pub title : String
  pub description : String

pub record Usn : Type 0 where
  pub id : String
  pub link : String
  pub headline : String
  pub packages : Labels

-- bufio.Scanner's lines, strings.Fields, the two regular expressions with their groups, and the
-- versions of go-deb-version.
pub record DebLibrary (V : Type 0) : Type 0 where
  pub lines : String → List String
  pub fields : String → List String
  pub match_usn : String → Option (String × String)
  pub match_link : String → Option String
  pub new_version : String → Result V
  pub less_than : V → V → Bool

abbrev head : List String → String
head [] = ""
head (w ∷ _) = w

-- A line of `dpkg -l`: state, name with architecture, version, and more.
abbrev pub add_receipt_line : List String → Labels → Labels
add_receipt_line (state ∷ pkg ∷ ver ∷ _ ∷ _) packages =
    if str_eq state "ii" then insert (head (split ":" pkg)) ver packages else packages
add_receipt_line _ packages = packages

-- `packages[fields[0]] = fields[1]`, which panics on a shorter line.
abbrev add_package : List String → Labels → Result Labels
add_package (pkg ∷ ver ∷ _) packages = ok (insert pkg ver packages)
add_package _ packages = err index_out_of_range

abbrev and_then : {A B : Type 0} → Result A → (A → Result B) → Result B
and_then (ok a) f = f a
and_then (err e) f = err e

abbrev usn_of : SecurityStory → Labels → Option (String × String) → Option String → Result Usn
usn_of story packages none link =
    err (plain ("could not parse USN title and ID from story: " & story.id))
usn_of story packages (some found) none =
    err (plain ("could not parse USN link from story: " & story.id))
usn_of story packages (some (id, headline)) (some link) =
    ok (record { id = id; link = link; headline = headline; packages = packages })

abbrev map_message : {A : Type 0} → String → Result A → Result A
map_message text (ok a) = ok a
map_message text (err e) = err (wrap text e)

-- The packages found so far, with the count of those that the receipt has.
pub record Found : Type 0 where
  pub result : List String
  pub matched_pkgs : ℕ

abbrev pub add_found : String → Bool → Found → Found
add_found name is_old found = record {
  result = if is_old then found.result ++ (name ∷ []) else found.result;
  matched_pkgs = suc found.matched_pkgs;
}

abbrev require_match : (story_id : String) → Found → Result (List String)
require_match story_id found =
    if found.matched_pkgs == 0
    then err (
        plain (
          "bug: expected dpkg list to contain at least one package from story " & story_id
          & ", but there were none"))
    else ok found.result

abbrev pub nothing_found : Found
nothing_found = record { result = []; matched_pkgs = 0 }

unfoldable pub generate_release_note : Usn → String
generate_release_note usn = "* [" & usn.id & "](" & usn.link & "): " & usn.headline & "\n"

abbrev pub note_title : String
note_title = "# Release Notes\nUpdated Ubuntu packages to address USNs:\n"

abbrev pub note_if_done : List String → String → String
note_if_done [] note = note
note_if_done (_ ∷ _) note = ""

module _ {V : Type 0} (library : DebLibrary V) where
  unfoldable pub parse_receipt_lines : List String → Labels → Labels
  unfolding split
  parse_receipt_lines [] packages = packages
  parse_receipt_lines (line ∷ rest) packages =
      parse_receipt_lines rest (add_receipt_line (library.fields line) packages)

  unfoldable pub parse_package_receipt : (receipt : String) → Labels
  unfolding parse_receipt_lines
  parse_package_receipt receipt = parse_receipt_lines (library.lines receipt) []

  -- The lines of the description, with `ourPackages`.
  unfoldable pub parse_description : List String → (our_packages : Bool) → Labels → Result Labels
  parse_description [] ours packages = ok packages
  parse_description (line ∷ rest) ours packages =
      let begins = parse_description rest true packages in
      let ends = parse_description rest false packages in
      let same = parse_description rest ours packages in
      let adds =
        and_then (add_package (library.fields line) packages)
          (λ more. parse_description rest ours more) in
      if str_eq line "**18.04 Packages:**"
      then begins
      else if starts_with line "**"
      then ends
      else if ours
      then adds
      else same

  unfoldable pub parse_usn : SecurityStory → Result Usn
  unfolding parse_description
  parse_usn story =
      and_then (parse_description (library.lines story.description) false []) (λ packages.
        usn_of story packages (library.match_usn story.title)
          (library.match_link story.description))

  -- Whether the system's version is older than the story's.
  abbrev pub is_older : (name story_version system_version : String) → Result Bool
  is_older name story_version system_version =
      and_then
        (map_message ("parsing version from story for package \"" & name & "\"")
          (library.new_version story_version))
        (λ story.
          and_then
            (map_message ("parsing version from receipt for package \"" & name & "\"")
              (library.new_version system_version))
            (λ system. ok (library.less_than system story)))

  abbrev pub step : (name story_version : String) → Option String → Found → Result Found
  step name story_version none found = ok found
  step name story_version (some version) found =
      and_then (is_older name story_version version) (λ is_old. ok (add_found name is_old found))

  -- The loop over the story's packages, in the order of the list: that of a Go map is any order.
  unfoldable pub find_loop : (dpkg packages : Labels) → Found → Result Found
  find_loop dpkg [] found = ok found
  find_loop dpkg ((name, version) ∷ rest) found =
      and_then (step name version (lookup name dpkg) found) (λ more. find_loop dpkg rest more)

  unfoldable pub find_packages_requiring_update :
      (dpkg : Labels) (story_id : String) → Usn → Result (List String)
  unfolding find_loop
  find_packages_requiring_update dpkg story_id usn =
      and_then (find_loop dpkg usn.packages nothing_found) (λ found. require_match story_id found)

  -- The loop over the stories; log.Fatal ends the program with the error.
  unfoldable pub process_loop :
      (dpkg : Labels)
      → List SecurityStory
      → (updates : List String) → (note : String) → Result (List String × String)
  unfolding parse_usn find_packages_requiring_update generate_release_note
  process_loop dpkg [] updates note = ok (updates, note)
  process_loop dpkg (story ∷ rest) updates note = and_then (parse_usn story) (λ usn.
      and_then (find_packages_requiring_update dpkg story.id usn)
        (λ more. process_loop dpkg rest (updates ++ more) (note & generate_release_note usn)))

  -- The names of the packages to update, and the note, which is "" where there are some.
  unfoldable pub process_security_stories :
      List SecurityStory → (dpkg : Labels) → Result (List String × String)
  unfolding process_loop
  process_security_stories stories dpkg =
      and_then (process_loop dpkg stories [] note_title)
        (λ done. ok (done.0, note_if_done done.0 done.1))
