-- ===== src/Instance/KnownHosts/Read.antt =====
-- The loop over the entries of the known_hosts file, as a relation without fuel.
use greenplum_for_kubernetes.Prelude.{
  ℕ, zero, suc, ◌<◌, List, ◌≡◌, ◌⊎◌, inl, inr, refl, arith, true, false, Bool-cases,
}
use greenplum_for_kubernetes.Prelude.Text.{String, str_eq, count}
use greenplum_for_kubernetes.Prelude.Effects.{Error, Result, ok, err}
use greenplum_for_kubernetes.Instance.Machine.{plain}
use greenplum_for_kubernetes.Instance.KnownHosts.{
  Parsed, eof, bad, entry, Keys, put_all, parse_error, read_entries,
}

Parsed-cases :
    {K : Type 0} (p : Parsed K)
    → (p ≡ eof)
      ⊎ (((e : Error) × (p ≡ bad e))
          ⊎ ((marker : String) × (hosts : List String) × (key : K) × (rest : String) × (p
                ≡ entry marker hosts key rest)))
Parsed-cases eof = inl refl
Parsed-cases (bad e) = inr (inl (e, refl))
Parsed-cases (entry marker hosts key rest) = inr (inr (marker, hosts, key, rest, refl))

module _ {K : Type 0} (keys : Keys K) where
  -- What the loop gives from a text and the hosts met so far: it ends at the end of the text, at
  -- the first text that does not parse, or at the first marker.
  pub data Reads : String → List (String × K) → Result (List (String × K)) → Type 0 where
    ends :
        (text : String) (known : List (String × K))
        → keys.parse_known_hosts text ≡ eof
        → Reads text known (ok known)
    breaks :
        (text : String) (known : List (String × K)) (e : Error)
        → keys.parse_known_hosts text ≡ bad e
        → Reads text known (err (parse_error keys e))
    refuses :
        (text : String) (known : List (String × K)) (marker : String) (hosts : List String)
        (key : K) (rest : String)
        → keys.parse_known_hosts text ≡ entry marker hosts key rest
        → str_eq marker "" ≡ false
        → Reads text known (err (plain "known_hosts markers are not currently supported"))
    goes_on :
        (text : String) (known : List (String × K)) (marker : String) (hosts : List String)
        (key : K) (rest : String) (r : Result (List (String × K)))
        → keys.parse_known_hosts text ≡ entry marker hosts key rest
        → str_eq marker "" ≡ true
        → Reads rest (put_all hosts key known) r
        → Reads text known r

  -- If the parser leaves a shorter text after each entry, then with more fuel than the text has
  -- characters the loop ends by itself, with what the relation gives.
  pub read_entries-Reads :
      ((text marker : String) (hosts : List String) (key : K) (rest : String)
        → keys.parse_known_hosts text ≡ entry marker hosts key rest
        → count rest < count text)
      → (fuel : ℕ) (text : String) (known : List (String × K)) → count text < fuel
      → Reads text known (read_entries keys fuel text known)
  unfolding read_entries
  read_entries-Reads shrinks zero text known h = absurd (omega arith)
  read_entries-Reads shrinks (suc fuel) text known h =
      elim (Parsed-cases (keys.parse_known_hosts text)) [
        | inl e ↦ rw e (ends text known e)
        | inr (inl (x, e)) ↦ rw e (breaks text known x e)
        | inr (inr (marker, hosts, key, rest, e)) ↦
            let s = shrinks text marker hosts key rest e in
            elim (Bool-cases (str_eq marker "")) [
              | inl b ↦
                  rw (e, b)
                    (goes_on text known marker hosts key rest _ e b (
                      read_entries-Reads shrinks fuel rest (put_all hosts key known) (omega arith)))
              | inr b ↦ rw (e, b) (refuses text known marker hosts key rest e b)
            ]
      ]
