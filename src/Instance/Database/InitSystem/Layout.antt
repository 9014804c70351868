-- ===== src/Instance/Database/InitSystem/Layout.antt =====
-- The dbids that gpinitsystem is told.
use greenplum_for_kubernetes.Prelude.{ℕ, zero, suc, ◌+◌, ◌-◌, ◌≡◌, refl, ap, ◌∙◌, arith, true}
use greenplum_for_kubernetes.Prelude.Int.{pos}
use greenplum_for_kubernetes.Prelude.Text.{String, ◌&◌, show, append_assoc, append-nil}
use greenplum_for_kubernetes.Instance.Database.InitSystem.{
  primary_entry, mirror_entry, write_entries, config_text,
}

-- The entries of the segments from `k` on: segment `k` has the dbid `first + k`.
abbrev pub entries : (ℕ → String → ℕ → String) → (n k : ℕ) → String → (first : ℕ) → String
entries entry zero k subdomain first = ""
entries entry (suc n) k subdomain first =
    entry k subdomain (first + k) & entries entry n (suc k) subdomain first

write_entries-entries :
    (entry : ℕ → String → ℕ → String) (n k : ℕ) (subdomain : String) (first : ℕ) (out : String)
    → write_entries entry n k subdomain (first + k) out
      ≡ (out & entries entry n k subdomain first, first + k + n)
unfolding write_entries
write_entries-entries entry zero k subdomain first out =
    rw (append-nil out) (ap (λ d. (out, d)) (omega arith))
write_entries-entries entry (suc n) k subdomain first out =
    let e : first + k + 1 ≡ first + suc k = omega arith in
    let f : first + suc k + n ≡ first + k + suc n = omega arith in
    rw e (
      write_entries-entries entry n (suc k) subdomain first (out & entry k subdomain (first + k))
      ∙ rw
          (
            f,
            append_assoc out (entry k subdomain (first + k))
                (entries entry n (suc k) subdomain first),
          )
          refl)

from_zero :
    (entry : ℕ → String → ℕ → String) (n : ℕ) (subdomain : String) (first : ℕ) (out : String)
    → write_entries entry n 0 subdomain first out
      ≡ (out & entries entry n 0 subdomain first, first + n)
from_zero entry n subdomain first out =
    let a = write_entries-entries entry n 0 subdomain first out in
    let z : first + 0 ≡ first = omega arith in simp z at a

-- With mirrors, the file holds the master with dbid 1, then primary `k` with dbid `2 + k`, then
-- mirror `k` with dbid `2 + n + k`, for all the `n` segments, in this order.
pub config_text-mirrored :
    (n : ℕ) (subdomain : String)
    → config_text (pos n) true subdomain
      ≡ (((((("QD_PRIMARY_ARRAY=master-0." & subdomain & "~5432~/greenplum/data-1~1~-1~0\n")
                  & "declare -a PRIMARY_ARRAY=(\n")
                & entries primary_entry n 0 subdomain 2)
              & ")\n")
            & "declare -a MIRROR_ARRAY=(\n")
          & entries mirror_entry n 0 subdomain (2 + n))
        & ")\n"
        & "HBA_HOSTNAMES=1\n"
unfolding config_text show
config_text-mirrored n subdomain =
    let z : n - 0 ≡ n = omega arith in
    let head =
      ("QD_PRIMARY_ARRAY=master-0." & subdomain & "~5432~/greenplum/data-1~1~-1~0\n")
      & "declare -a PRIMARY_ARRAY=(\n" in
    let out = (head & entries primary_entry n 0 subdomain 2) & ")\n" in
    let a = from_zero primary_entry n subdomain 2 head in
    let b = from_zero mirror_entry n subdomain (2 + n) (out & "declare -a MIRROR_ARRAY=(\n") in
    rw
      (
        z,
        a,
        b,
        append_assoc
            ((out & "declare -a MIRROR_ARRAY=(\n") & entries mirror_entry n 0 subdomain (2 + n))
            ")\n" "HBA_HOSTNAMES=1\n",
      )
      refl
