-- ===== src/Instance/Hosts.antt =====
-- pkg/net/generate_host_list.go
pub mod Count
use greenplum_for_kubernetes.Prelude.{ℕ, zero, suc, Bool, List, [], ◌∷◌, ◌++◌, if◌then◌else◌}
use greenplum_for_kubernetes.Prelude.Int.{ℤ, pos, rounds}
use greenplum_for_kubernetes.Prelude.Text.{String, ◌&◌, show, str_eq}

-- The hosts of segment `i`.
abbrev pub segment_hosts : Bool → String → ℕ → List String
segment_hosts mirrors suffix i =
    ("segment-a-" & show i & suffix)
    ∷ (if mirrors then ("segment-b-" & show i & suffix) ∷ [] else [])

abbrev pub master_hosts : Bool → String → List String
master_hosts standby suffix =
    ("master-0" & suffix) ∷ (if standby then ("master-1" & suffix) ∷ [] else [])

-- The loop from segment `i` on, `n` rounds.
unfoldable pub segments_from : ℕ → ℕ → Bool → String → List String
segments_from zero i mirrors suffix = []
segments_from (suc n) i mirrors suffix =
    segment_hosts mirrors suffix i ++ segments_from n (suc i) mirrors suffix

unfoldable pub generate_host_list_with_dns_suffix : ℤ → Bool → Bool → String → List String
unfolding segments_from
generate_host_list_with_dns_suffix segment_count mirrors standby suffix =
    segments_from (rounds (pos 0) segment_count) 0 mirrors suffix ++ master_hosts standby suffix

unfoldable pub generate_host_list : ℤ → Bool → Bool → String → List String
unfolding generate_host_list_with_dns_suffix
generate_host_list segment_count mirrors standby dns_suffix =
    generate_host_list_with_dns_suffix segment_count mirrors standby ""
    ++ (if str_eq dns_suffix ""
        then []
        else generate_host_list_with_dns_suffix segment_count mirrors standby dns_suffix)
