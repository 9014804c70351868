-- ===== src/Release/Note.antt =====
-- When the check of a release gives a release note, and which.
use greenplum_for_kubernetes.Prelude.{◌≡◌, ◌⊎◌, List, [], ◌∷◌, map}
use greenplum_for_kubernetes.Prelude.Text.{String, ◌&◌}
use greenplum_for_kubernetes.Prelude.Effects.{ok}
use greenplum_for_kubernetes.Release.{
  SecurityStory, Usn, DebLibrary, parse_usn, note_title, generate_release_note,
}

-- The lines of the notices, in order, after the text so far.
abbrev pub notes : List Usn → String → String
notes [] note = note
notes (usn ∷ rest) note = notes rest (note & generate_release_note usn)

module _ {V : Type 0} (library : DebLibrary V) where
  -- There is nothing to update and the note has a line for every story, or there is and the note is
  -- empty.
  abbrev pub IsNote : List SecurityStory → (updates : List String) → (note : String) → Type 0
  IsNote stories updates note =
      ((updates ≡ [])
        × (usns : List Usn) × (map (λ s. parse_usn library s) stories ≡ map (λ u. ok u) usns)
        × (note ≡ notes usns note_title))
      ⊎ ((name : String) × (rest : List String) × (updates ≡ name ∷ rest) × (note ≡ ""))
