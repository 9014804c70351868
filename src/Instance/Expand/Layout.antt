-- ===== src/Instance/Expand/Layout.antt =====
-- The ids that the new segments get.
use greenplum_for_kubernetes.Prelude.{
  ℕ, zero, suc, ◌+◌, ◌*◌, Bool, true, false, ◌≡◌, refl, sym, ap, arith, Bool-cases, inl, inr, ◌∙◌,
}
use greenplum_for_kubernetes.Prelude.Int.{ℤ, pos, negsuc, suc_ℤ, add_ℕ, rounds}
use greenplum_for_kubernetes.Prelude.Text.{String, ◌&◌, append_assoc, append-nil, nil-append}
use greenplum_for_kubernetes.Instance.Expand.{
  primary_line, mirror_line, expand_lines, expand_config, GenerateGpexpandConfigParams,
}

-- The lines of the new segment `k`, counted from 0, by what they should hold: without mirrors it
-- has the dbid `max + k + 1`; with them the primary has `max + 2k + 1` and its mirror the next.
abbrev pub lines_of : (k : ℕ) → Bool → String → (old max_dbid max_content : ℤ) → String
lines_of k true ns old max_dbid max_content =
    primary_line ns (add_ℕ old k) (add_ℕ max_dbid (2 * k + 1)) (add_ℕ max_content (k + 1))
    & mirror_line ns (add_ℕ old k) (add_ℕ max_dbid (2 * k + 2)) (add_ℕ max_content (k + 1))
lines_of k false ns old max_dbid max_content =
    primary_line ns (add_ℕ old k) (add_ℕ max_dbid (k + 1)) (add_ℕ max_content (k + 1))

abbrev pub layout : (n k : ℕ) → Bool → String → (old max_dbid max_content : ℤ) → String
layout zero k mirrored ns old max_dbid max_content = ""
layout (suc n) k mirrored ns old max_dbid max_content =
    lines_of k mirrored ns old max_dbid max_content
    & layout n (suc k) mirrored ns old max_dbid max_content

suc-add : (z : ℤ) (n k : ℕ) → n + 1 ≡ k → suc_ℤ (add_ℕ z n) ≡ add_ℕ z k
suc-add (pos a) n k h = ground arith
suc-add (negsuc a) n k h = ground arith

add-zero : (z : ℤ) (n : ℕ) → n ≡ 0 → add_ℕ z n ≡ z
add-zero (pos a) n h = ground arith
add-zero (negsuc a) n h = ground arith

same_add : (z : ℤ) (n k : ℕ) → n ≡ k → add_ℕ z n ≡ add_ℕ z k
same_add z n k h = ap (add_ℕ z) h

expand_lines-mirrored :
    (n k : ℕ) (ns : String) (old max_dbid max_content : ℤ) (out : String)
    → expand_lines n true ns (add_ℕ old k) (add_ℕ max_dbid (2 * k)) (add_ℕ max_content k) out
      ≡ out & layout n k true ns old max_dbid max_content
unfolding expand_lines
expand_lines-mirrored zero k ns old max_dbid max_content out = sym (append-nil out)
expand_lines-mirrored (suc n) k ns old max_dbid max_content out =
    let p =
      primary_line ns (add_ℕ old k) (add_ℕ max_dbid (2 * k + 1)) (add_ℕ max_content (suc k)) in
    let m = mirror_line ns (add_ℕ old k) (add_ℕ max_dbid (2 * suc k)) (add_ℕ max_content (suc k)) in
    let rest = layout n (suc k) true ns old max_dbid max_content in
    rw
      (
        suc-add max_dbid (2 * k) (2 * k + 1) refl,
        suc-add max_dbid (2 * k + 1) (2 * suc k) (omega arith),
        same_add max_dbid (2 * k + 2) (2 * suc k) (omega arith),
        suc-add max_content k (suc k) (omega arith),
        same_add max_content (k + 1) (suc k) (omega arith),
        suc-add old k (suc k) (omega arith),
      )
      (expand_lines-mirrored n (suc k) ns old max_dbid max_content ((out & p) & m)
        ∙ append_assoc (out & p) m rest
        ∙ append_assoc out p (m & rest)
        ∙ ap (λ t. out & t) (sym (append_assoc p m rest)))

expand_lines-bare :
    (n k : ℕ) (ns : String) (old max_dbid max_content : ℤ) (out : String)
    → expand_lines n false ns (add_ℕ old k) (add_ℕ max_dbid k) (add_ℕ max_content k) out
      ≡ out & layout n k false ns old max_dbid max_content
unfolding expand_lines
expand_lines-bare zero k ns old max_dbid max_content out = sym (append-nil out)
expand_lines-bare (suc n) k ns old max_dbid max_content out =
    let p = primary_line ns (add_ℕ old k) (add_ℕ max_dbid (suc k)) (add_ℕ max_content (suc k)) in
    let rest = layout n (suc k) false ns old max_dbid max_content in
    rw
      (
        suc-add max_dbid k (suc k) (omega arith),
        same_add max_dbid (k + 1) (suc k) (omega arith),
        suc-add max_content k (suc k) (omega arith),
        same_add max_content (k + 1) (suc k) (omega arith),
        suc-add old k (suc k) (omega arith),
      )
      (expand_lines-bare n (suc k) ns old max_dbid max_content (out & p) ∙ append_assoc out p rest)

-- The configuration holds the lines of the new segments in order and nothing else: segment
-- numbers go on from the old count, content ids from the largest one, and dbids from the largest
-- one, the primary's before its mirror's.
pub expand_config-layout :
    (p : GenerateGpexpandConfigParams) (max_dbid max_content : ℤ) (ns : String)
    → expand_config p max_dbid max_content ns
      ≡ layout
          (rounds p.old_segment_count p.new_segment_count)
          0
          p.is_mirrored
          ns
          p.old_segment_count
          max_dbid
          max_content
expand_config-layout p max_dbid max_content ns =
    let n = rounds p.old_segment_count p.new_segment_count in
    let old = p.old_segment_count in
    let a = add-zero old 0 refl in
    let b = add-zero max_dbid 0 refl in
    let c = add-zero max_content 0 refl in
    elim (Bool-cases p.is_mirrored) [
      | inl e ↦
          let f = expand_lines-mirrored n 0 ns old max_dbid max_content "" in
          simp e (simp (a, b, c, nil-append) at f)
      | inr e ↦
          let f = expand_lines-bare n 0 ns old max_dbid max_content "" in
          simp e (simp (a, b, c, nil-append) at f)
    ]
