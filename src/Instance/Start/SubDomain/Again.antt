-- ===== src/Instance/Start/SubDomain/Again.antt =====
-- A container that starts again finds the agent's domain in /etc/resolv.conf and changes nothing.
use Prim.Native.Char.{Char}
use Prim.Native.String.{◌∷◌}
use text.Mathlib.Text.{starts_with}
use text.Mathlib.TextPositions.{starts_with-append}
use text.Mathlib.TextLemmas.{cons-append}
use greenplum_for_kubernetes.Prelude.{
  ◌≡◌, ◌∙◌, refl, ap, sym, ◌⊎◌, inl, inr, true, false, List, [], ◌∷◌, map, arith, All, Bool-cases,
  subst,
}
use greenplum_for_kubernetes.Prelude.Text.{
  String, ◌&◌, str_eq, eq_iff, eq_refl, append_assoc, nil-append,
}
use greenplum_for_kubernetes.Prelude.Split.{split, join, contains_char, trim_suffix}
use greenplum_for_kubernetes.Prelude.Split.Laws.{
  IsFree, contains_char-append, split-All, split-IsFree, join-IsFree, split-more, split-join,
  split-cons, trim_suffix-cases, trim_suffix-append,
}
use greenplum_for_kubernetes.Instance.Start.SubDomain.{
  svc_domain, is_namespace_domain, get_namespace_domain, without, add_agent_domain, tail,
  sub_domain_line, sub_domain_text,
}

agent-dot : (n : String) → contains_char "." ("agent." & n) ≡ true
unfolding contains_char
agent-dot n = rw (contains_char-append "." "agent." n) refl

-- A domain below the agent's is no domain of a namespace.
agent-below : (d : String) → is_namespace_domain ("agent." & (d & svc_domain)) ≡ false
agent-below d =
    rw
      (
        sym (append_assoc "agent." d svc_domain),
        trim_suffix-append ("agent." & d) "." "svc.cluster.local",
        agent-dot d,
      )
      (ground arith)

namespace-form :
    (ds : List String)
    → (get_namespace_domain ds ≡ "") ⊎ ((n : String) × (get_namespace_domain ds ≡ n & svc_domain))
unfolding get_namespace_domain
namespace-form [] = inl refl
namespace-form (d ∷ ds) = elim (Bool-cases (is_namespace_domain d)) [
  | inl f ↦ rw f (elim (trim_suffix-cases d svc_domain) [
    | inl e ↦ absurd (ground (arith, eq_iff (trim_suffix d svc_domain) d))
    | inr e ↦ inr (trim_suffix d svc_domain, e)
  ])
  | inr f ↦ rw f (namespace-form ds)
]

abbrev agent_of : List String → String
agent_of ds = "agent." & get_namespace_domain ds

agent-empty : is_namespace_domain "agent." ≡ false
unfolding trim_suffix contains_char
agent-empty = refl

agent-unseen : (ds : List String) → is_namespace_domain (agent_of ds) ≡ false
agent-unseen ds = elim (namespace-form ds) [
  | inl e ↦ rw e agent-empty
  | inr (n, e) ↦ rw e (agent-below n)
]

get_namespace_domain-without :
    (a : String) (ds : List String)
    → is_namespace_domain a ≡ false
    → get_namespace_domain (without a ds) ≡ get_namespace_domain ds
unfolding get_namespace_domain without
get_namespace_domain-without a [] e = refl
get_namespace_domain-without a (d ∷ ds) e = elim (Bool-cases (str_eq d a)) [
  | inl f ↦
      rw (f, subst (λ x. is_namespace_domain x ≡ false) (sym ((eq_iff d a).0 f)) e)
        (get_namespace_domain-without a ds e)
  | inr f ↦ rw (f, get_namespace_domain-without a ds e) refl
]

without-twice : (a : String) (ds : List String) → without a (without a ds) ≡ without a ds
unfolding without
without-twice a [] = refl
without-twice a (d ∷ ds) = elim (Bool-cases (str_eq d a)) [
  | inl f ↦ rw f (without-twice a ds)
  | inr f ↦ rw (f, f, without-twice a ds) refl
]

without-head : (a : String) (ds : List String) → without a (a ∷ ds) ≡ without a ds
unfolding without
without-head a ds = rw (eq_refl a) refl

namespace-again :
    (ds : List String) → get_namespace_domain (add_agent_domain ds) ≡ get_namespace_domain ds
unfolding add_agent_domain get_namespace_domain
namespace-again ds =
    rw (agent-unseen ds) (get_namespace_domain-without (agent_of ds) ds (agent-unseen ds))

-- Adding the agent's domain twice is the same as once.
add_agent_domain-again :
    (ds : List String) → add_agent_domain (add_agent_domain ds) ≡ add_agent_domain ds
unfolding add_agent_domain
add_agent_domain-again ds =
    let a = agent_of ds in
    ap (λ n. ("agent." & n) ∷ without ("agent." & n) (add_agent_domain ds)) (namespace-again ds)
    ∙ ap (λ l. a ∷ l) (without-head a (without a ds) ∙ without-twice a ds)

namespace-IsFree :
    (c : Char) (ds : List String) → All (IsFree c) ds → IsFree c (get_namespace_domain ds)
unfolding get_namespace_domain contains_char
namespace-IsFree c [] a = refl
namespace-IsFree c (d ∷ ds) a = elim (Bool-cases (is_namespace_domain d)) [
  | inl f ↦ rw f a.0
  | inr f ↦ rw f (namespace-IsFree c ds a.1)
]

without-All :
    (c : Char) (x : String) (ds : List String) → All (IsFree c) ds → All (IsFree c) (without x ds)
unfolding without
without-All c x [] a = tt
without-All c x (d ∷ ds) a = elim (Bool-cases (str_eq d x)) [
  | inl f ↦ rw f (without-All c x ds a.1)
  | inr f ↦ rw f (a.0, without-All c x ds a.1)
]

tail-All : (c : Char) (ws : List String) → All (IsFree c) ws → All (IsFree c) (tail ws)
tail-All c [] a = tt
tail-All c (w ∷ ws) a = a.1

add_agent_domain-All :
    (c : Char) (ds : List String)
    → IsFree c "agent."
    → All (IsFree c) ds
    → All (IsFree c) (add_agent_domain ds)
unfolding add_agent_domain
add_agent_domain-All c ds e a = (
  ground
      (arith, contains_char-append c "agent." (get_namespace_domain ds), namespace-IsFree c ds a),
  without-All c (agent_of ds) ds a,
)

abbrev domains_of : String → List String
domains_of line = add_agent_domain (tail (split " " line))

domains-IsFree : (line : String) → All (IsFree " ") (domains_of line)
unfolding contains_char
domains-IsFree line =
    add_agent_domain-All " " (tail (split " " line)) refl
      (tail-All " " (split " " line) (split-IsFree " " line))

search-form : (rest : String) → "search " & rest ≡ "search" & (" " ∷ rest)
search-form rest =
    append_assoc "search" " " rest
    ∙ ap (λ t. "search" & t) (cons-append " " "" rest ∙ ap (λ t. " " ∷ t) (nil-append rest))

-- The domains of a line of domains are these domains.
tail-search :
    (d : String) (ds : List String)
    → All (IsFree " ") (d ∷ ds)
    → tail (split " " ("search " & join " " (d ∷ ds))) ≡ d ∷ ds
unfolding contains_char
tail-search d ds a =
    ap (λ t. tail (split " " t)) (search-form (join " " (d ∷ ds)))
    ∙ ap tail (split-more " " "search" (join " " (d ∷ ds)) refl)
    ∙ split-join " " d ds a

starts-search : (rest : String) → starts_with ("search " & rest) "search" ≡ true
starts-search rest = rw (search-form rest) (starts_with-append "search" (" " ∷ rest))

-- The line of domains that already have the agent's.
line-again :
    (d : String) (ds : List String)
    → All (IsFree " ") (d ∷ ds)
    → add_agent_domain (d ∷ ds) ≡ d ∷ ds
    → sub_domain_line ("search " & join " " (d ∷ ds)) ≡ "search " & join " " (d ∷ ds)
unfolding sub_domain_line
line-again d ds a e =
    rw (starts-search (join " " (d ∷ ds)))
      (ap (λ l. "search " & join " " l) (ap add_agent_domain (tail-search d ds a) ∙ e))

add_agent_domain-cons :
    (ds : List String) → add_agent_domain ds ≡ agent_of ds ∷ without (agent_of ds) ds
unfolding add_agent_domain
add_agent_domain-cons ds = refl

sub_domain_line-again :
    (line : String) → sub_domain_line (sub_domain_line line) ≡ sub_domain_line line
unfolding sub_domain_line
sub_domain_line-again line = elim (Bool-cases (starts_with line "search")) [
  | inr f ↦ rw (f, f) refl
  | inl f ↦
      let ds = tail (split " " line) in
      let e = add_agent_domain-cons ds in
      rw (f, e)
        (line-again (agent_of ds) (without (agent_of ds) ds)
          (subst (λ l. All (IsFree " ") l) e (domains-IsFree line))
          (subst (λ l. add_agent_domain l ≡ l) e (add_agent_domain-again ds)))
]

sub_domain_line-IsFree : (line : String) → IsFree "\n" line → IsFree "\n" (sub_domain_line line)
unfolding sub_domain_line contains_char
sub_domain_line-IsFree line e = elim (Bool-cases (starts_with line "search")) [
  | inr f ↦ rw f e
  | inl f ↦
      let ds = tail (split " " line) in
      let a =
        add_agent_domain-All "\n" ds refl
          (tail-All "\n" (split " " line) (split-All "\n" " " line e)) in
      rw (f, contains_char-append "\n" "search " (join " " (add_agent_domain ds)))
        (join-IsFree "\n" " " (add_agent_domain ds) refl a)
]

map-IsFree : (ws : List String) → All (IsFree "\n") ws → All (IsFree "\n") (map sub_domain_line ws)
map-IsFree [] a = tt
map-IsFree (w ∷ ws) a = (sub_domain_line-IsFree w a.0, map-IsFree ws a.1)

map-again :
    (ws : List String) → map sub_domain_line (map sub_domain_line ws) ≡ map sub_domain_line ws
map-again [] = refl
map-again (w ∷ ws) = rw (sub_domain_line-again w, map-again ws) refl

-- The contents of /etc/resolv.conf with the agent's domain added a second time, as when the
-- container starts again, are those with the domain added once.
pub sub_domain_text-idempotent :
    (contents : String) → sub_domain_text (sub_domain_text contents) ≡ sub_domain_text contents
unfolding sub_domain_text
sub_domain_text-idempotent contents =
    let (w, ws, e) = split-cons "\n" contents in
    let free =
      map-IsFree (w ∷ ws) (subst (λ l. All (IsFree "\n") l) e (split-IsFree "\n" contents)) in
    rw (e, split-join "\n" (sub_domain_line w) (map sub_domain_line ws) free)
      (ap (λ l. join "\n" l) (map-again (w ∷ ws)))
