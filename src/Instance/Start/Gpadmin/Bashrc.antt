-- ===== src/Instance/Start/Gpadmin/Bashrc.antt =====
-- What .bashrc holds after the container's start.
use greenplum_for_kubernetes.Instance.Start.Gpadmin.{bashrc_text, bashrc_source, err, pxf_file}
use greenplum_for_kubernetes.Prelude.{◌⊎◌, ◌≡◌, List, ◌∷◌}
use greenplum_for_kubernetes.Prelude.Text.{String}
use greenplum_for_kubernetes.Prelude.Effects.{Error, ok}
use greenplum_for_kubernetes.Instance.Machine.{
  read_file, stat, Machine, Call, mkdir_all, open_file, read_all, seek_start, write, close,
}

abbrev bashrc : String
bashrc = "/home/gpadmin/.bashrc"

-- The calls of an insertion of `text` before `contents`, newest first.
abbrev pub inserted : (dir file text contents : String) → List Call → List Call
inserted dir file text contents h =
    close file
    ∷ write file contents
    ∷ write file text
    ∷ seek_start file
    ∷ read_all file
    ∷ open_file file
    ∷ mkdir_all dir
    ∷ h

module _ {K : Type 0} (m : Machine K) where
  -- The text that goes before the old contents, and the calls until it is known.
  abbrev pub IsText : (h : List Call) (text : String) (g : List Call) → Type 0
  IsText h text g =
      (((e : Error) × (m.stat h pxf_file ≡ err e))
        × (text ≡ bashrc_source)
        × (g ≡ stat pxf_file ∷ h))
      ⊎ ((name : String) × (m.read_file (stat pxf_file ∷ h) pxf_file ≡ ok name)
          × (text ≡ bashrc_text name)
          × (g ≡ read_file pxf_file ∷ stat pxf_file ∷ h))
