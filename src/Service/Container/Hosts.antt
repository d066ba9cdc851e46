-- ===== src/Service/Container/Hosts.antt =====
-- The hosts that validatedTraefikLabels of internal/deployment/service.go puts into a Traefik rule.
use centralcloud_agent.Prelude.{
  ℕ, ◌≡◌, refl, Bool, true, false, ◌||◌, Option, none, some, List, [], ◌∷◌, Bytes, contains_byte,
  split, push_first, map, ap, ◌∙◌, arith, All, ◌==◌, ◌++◌, codes, join, lookup, remove_byte,
  same_refl, same, subst,
}
use centralcloud_agent.Errors.{Err, Result, ok, err}
use centralcloud_agent.Config.{Config}
use centralcloud_agent.Contracts.{CreateDeploymentRequest}
use centralcloud_agent.Packages.{Packages}
use centralcloud_agent.Domain.Syntax.{host_label_re, all_bytes, is_host_byte}
use centralcloud_agent.Domain.Validate.{validate_dns_hostname, validate_labels}
use centralcloud_agent.Service.Container.{
  traefik_rule, host_rules, host_rule, with_rule, labels_of, validated_traefik_labels,
}

abbrev any_contains : ℕ → List Bytes → Bool
any_contains c [] = false
any_contains c (l ∷ ls) = contains_byte c l || any_contains c ls

push_first-contains :
    (c b : ℕ) (ls : List Bytes) → any_contains c (push_first b ls) ≡ b == c || any_contains c ls
unfolding contains_byte
push_first-contains c b [] = ground arith
push_first-contains c b (l ∷ ls) = ground arith

-- A byte other than the separator is in a text if it is in one of the parts.
contains-split :
    (c sep : ℕ) (s : Bytes) → c == sep ≡ false → contains_byte c s ≡ any_contains c (split sep s)
unfolding contains_byte split
contains-split c sep [] h = refl
contains-split c sep (b ∷ s) h =
    ground (arith, contains-split c sep s h, push_first-contains c b (split sep s))

-- No host byte is a backquote.
host_bytes : (s : Bytes) → all_bytes is_host_byte s ≡ true → contains_byte b'`' s ≡ false
unfolding all_bytes contains_byte
host_bytes [] h = refl
host_bytes (b ∷ s) h = ground (arith, host_bytes s)

label_bytes : (l : Bytes) → host_label_re l ≡ true → contains_byte b'`' l ≡ false
unfolding host_label_re contains_byte
label_bytes [] h = cc
label_bytes (b ∷ s) h = ground (arith, host_bytes s)

labels_bytes : (ls : List Bytes) → validate_labels ls ≡ none → any_contains b'`' ls ≡ false
unfolding validate_labels
labels_bytes [] h = refl
labels_bytes (l ∷ ls) h = ground (arith, label_bytes l, labels_bytes ls)

pub hostname_bytes :
    (pkg : Packages) (v : Bytes) → validate_dns_hostname pkg v ≡ none → contains_byte b'`' v ≡ false
unfolding validate_dns_hostname
hostname_bytes pkg v h =
    rw (contains-split b'`' b'.' v refl) (labels_bytes (split b'.' v) (ground arith))

-- The rules that the loop makes: one for each host, in order, none with a backquote in its host.
rules_of_hosts :
    (pkg : Packages) (hosts rules : List Bytes)
    → host_rules pkg hosts ≡ ok rules
    → rules ≡ map host_rule hosts × All (λ h. contains_byte b'`' h ≡ false) hosts
unfolding host_rules
rules_of_hosts pkg [] rules e = (same_rules rules e, tt)
  where
    same_rules : (rules : List Bytes) → ok [] ≡ ok rules → rules ≡ []
    same_rules rules q = cc
rules_of_hosts pkg (h ∷ hs) rules e =
    made (validate_dns_hostname pkg h) (host_rules pkg hs) refl refl e
      (λ rs q. rules_of_hosts pkg hs rs q)
  where
    same_rules : (xs ys : List Bytes) → ok xs ≡ ok ys → ys ≡ xs
    same_rules xs ys q = cc

    made :
        (o : Option Err) (rest : Result (List Bytes))
        → validate_dns_hostname pkg h ≡ o
        → host_rules pkg hs ≡ rest
        → with_rule pkg h o rest ≡ ok rules
        → ((rs : List Bytes)
            → host_rules pkg hs ≡ ok rs
            → rs ≡ map host_rule hs × All (λ h. contains_byte b'`' h ≡ false) hs)
        → rules ≡ map host_rule (h ∷ hs) × All (λ h. contains_byte b'`' h ≡ false) (h ∷ hs)
    made (some f) rest v r q k = cc
    made none (err f) v r q k = cc
    made none (ok rs) v r q k =
        let (rules_are, clean) = k rs r in
        (
          same_rules (host_rule h ∷ rs) rules q ∙ ap (λ xs. host_rule h ∷ xs) rules_are,
          (hostname_bytes pkg h v, clean),
        )

-- A text without a backquote is the field before the first one.
split-raw :
    (h rest : Bytes)
    → contains_byte b'`' h ≡ false
    → split b'`' (h ++ (b'`' ∷ rest)) ≡ h ∷ split b'`' rest
unfolding split contains_byte
split-raw [] rest n = refl
split-raw (b ∷ h) rest n = ground (arith, split-raw h rest)

append_assoc : (r s t : Bytes) → (r ++ s) ++ t ≡ r ++ (s ++ t)
append_assoc [] s t = refl
append_assoc (b ∷ r) s t = ap (λ x. b ∷ x) (append_assoc r s t)

-- What stands between the backquotes of a rule for these hosts: each host is one raw literal, and what
-- is around them is one matcher for each host, with "or" between two.
abbrev pub fields : Bytes → List Bytes → List Bytes
fields host [] = host ∷ codes ")" ∷ []
fields host (alias ∷ aliases) = host ∷ codes ") || Host(" ∷ fields alias aliases

split-rule :
    (h : Bytes) (hs : List Bytes)
    → All (λ h. contains_byte b'`' h ≡ false) (h ∷ hs)
    → split b'`' (traefik_rule (map host_rule (h ∷ hs))) ≡ codes "Host(" ∷ fields h hs
unfolding split traefik_rule join
split-rule h [] (n, _) = rw (split-raw h (codes ")") n) refl
split-rule h (a ∷ rs) (n, later) =
    let rest = join (codes " || ") (map host_rule (a ∷ rs)) in
    rw
      (
        append_assoc h (codes "`)") (codes " || " ++ rest),
        split-raw h (codes ") || " ++ rest) n,
        split-rule a rs later,
      )
      refl

-- A rule among the labels, under the name of the deployment's router, that is one matcher for each of
-- these hosts.
abbrev pub RulesFor : CreateDeploymentRequest → List (Bytes × Bytes) → Type 0
RulesFor r labels =
    (rule : Bytes) × ((lookup
          (codes "traefik.http.routers.cc" ++ (remove_byte b'-' r.deployment_id ++ codes ".rule"))
          labels
        ≡ some rule)
      × (split b'`' rule ≡ codes "Host(" ∷ fields r.hostname r.aliases))

rule_of_labels :
    (r : CreateDeploymentRequest) (c : Config) (frontend : Bytes) (rules : List Bytes)
    → lookup
        (codes "traefik.http.routers.cc" ++ (remove_byte b'-' r.deployment_id ++ codes ".rule"))
        (labels_of r c frontend rules)
      ≡ some (traefik_rule rules)
unfolding labels_of lookup same
rule_of_labels r c frontend rules =
    rw (same_refl (remove_byte b'-' r.deployment_id ++ codes ".rule")) refl

-- When validatedTraefikLabels renders its labels, the label for the rule of the deployment's router is
-- there. Cut at its backquotes, its text is one Host matcher for the hostname and one for each alias,
-- in order, joined by "or": every host is a raw literal by itself, so that no name that a client has
-- chosen ends its literal or adds to the rule.
pub validated_traefik_labels_lem :
    (pkg : Packages) (r : CreateDeploymentRequest) (c : Config) (frontend : Bytes)
    (labels : List (Bytes × Bytes))
    → validated_traefik_labels pkg r c frontend ≡ ok labels
    → RulesFor r labels
unfolding validated_traefik_labels
validated_traefik_labels_lem pkg r c frontend labels e =
    rendered (host_rules pkg (r.hostname ∷ r.aliases)) refl e
  where
    same_labels : (xs ys : List (Bytes × Bytes)) → ok xs ≡ ok ys → xs ≡ ys
    same_labels xs ys q = cc

    rendered :
        (o : Result (List Bytes))
        → host_rules pkg (r.hostname ∷ r.aliases) ≡ o
        → elim o [ err e ↦ err e | ok rules ↦ ok (labels_of r c frontend rules) ] ≡ ok labels
        → RulesFor r labels
    rendered (err f) q p = absurd cc
    rendered (ok rules) q p =
        let (rules_are, clean) = rules_of_hosts pkg (r.hostname ∷ r.aliases) rules q in
        subst (RulesFor r) (same_labels (labels_of r c frontend rules) labels p) (
          traefik_rule rules,
          (
            rule_of_labels r c frontend rules,
            ap (λ rs. split b'`' (traefik_rule rs)) rules_are
                ∙ split-rule r.hostname r.aliases clean,
          ),
        )
