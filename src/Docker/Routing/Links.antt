-- ===== src/Docker/Routing/Links.antt =====
-- What links `serviceURL` makes.
use mathlib.Core.List.{not-mem-nil, eq-or-mem_of_mem-cons}
use mathlib.Core.Bool.{Bool-set}
use mathlib.Core.Logic.Or
use compose_monitor.Base.{
  ◌≡◌, ◌≢◌, refl, sym, ◌∙◌, ap, ◌⊎◌, inl, inr, Bool, true, List, [], ◌∷◌, ◌++◌, Mem, Text, bytes,
  ◌==◌, nat_eq, list_eq, list_beq, list_beq_iff, has_prefix, Bool-cases, Option-cases,
}
use compose_monitor.Docker.Routing.{
  find_host, is_hostname, rule_host, host_of, label, is_secure, link_step, first_link, routers_of,
  service_url,
}

-- A link that the page may carry: none, or one to a plain host name, with the scheme in front.
abbrev pub IsLink : Text → Type 0
IsLink url =
    (url ≡ [])
    ⊎ ((host : Text) × (is_hostname host ≡ true)
        × ((url ≡ bytes "https://" ++ host) ⊎ (url ≡ bytes "http://" ++ host)))

rule_host-is_hostname :
    (rule : Text) → (rule_host rule ≡ []) ⊎ (is_hostname (rule_host rule) ≡ true)
unfolding rule_host
rule_host-is_hostname rule = elim (Option-cases (find_host rule)) [
  | inl nothing ↦ inl (rw (nothing, rule_host) refl)
  | inr (host, found) ↦ elim (Bool-cases (is_hostname host)) [
    | inl good ↦ inr (rw (found, rule_host, good) good)
    | inr bad ↦ inl (rw (found, rule_host, bad) refl)
  ]
]

link_step-IsLink :
    (host insecure next noted : Text) (secure : Bool)
    → (host ≡ []) ⊎ (is_hostname host ≡ true)
    → IsLink next
    → ((is_hostname host ≡ true) → IsLink noted)
    → IsLink (link_step host secure insecure next noted)
unfolding link_step list_beq
link_step-IsLink host insecure next noted secure (inl nothing) h k = rw (nothing, link_step) h
link_step-IsLink host insecure next noted secure (inr good) h k = elim (Bool-cases (host == [])) [
  | inl nothing ↦ rw (nothing, link_step) h
  | inr something ↦ elim (Bool-cases secure) [
    | inl tls ↦ rw (something, link_step, tls) (inr (host, good, inl refl))
    | inr plain ↦ elim (Bool-cases (insecure == [])) [
      | inl first ↦ rw (something, link_step, plain, first) (k good)
      | inr later ↦ rw (something, link_step, plain, later) h
    ]
  ]
]

module _ (labels : List (Text × Text)) where
  first_link-IsLink :
      (routers : List Text) (insecure : Text)
      → IsLink insecure
      → IsLink (first_link labels routers insecure)
  unfolding first_link host_of
  first_link-IsLink [] insecure h = h
  first_link-IsLink (router ∷ routers) insecure h =
      link_step-IsLink (host_of labels router) insecure _ _ (is_secure labels router)
        (rule_host-is_hostname
          (label (bytes "traefik.http.routers." ++ router ++ bytes ".rule") labels))
        (first_link-IsLink routers insecure h)
        (λ good.
          first_link-IsLink routers (bytes "http://" ++ host_of labels router)
            (inr (host_of labels router, good, inr refl)))

  -- Whatever the labels say, the link is empty or names a plain host, with an optional port, behind
  -- `https://` or `http://`.
  pub service_url-IsLink : IsLink (service_url labels)
  unfolding service_url
  service_url-IsLink = first_link-IsLink (routers_of labels) [] (inl refl)

  link_step-here :
      (r insecure next noted : Text)
      → host_of labels r ≢ []
      → is_secure labels r ≡ true
      → has_prefix
          (link_step (host_of labels r) (is_secure labels r) insecure next noted)
          (bytes "https://")
        ≡ true
  unfolding link_step
  link_step-here r insecure next noted h s = elim (Bool-cases (host_of labels r == [])) [
    | inl nothing ↦ absurd (h ((list_beq_iff (host_of labels r) []).0 nothing))
    | inr something ↦ rw (something, link_step, s) (unfold has_prefix in refl)
  ]

  link_step-later :
      (r insecure next noted : Text)
      → has_prefix next (bytes "https://") ≡ true
      → has_prefix noted (bytes "https://") ≡ true
      → has_prefix
          (link_step (host_of labels r) (is_secure labels r) insecure next noted)
          (bytes "https://")
        ≡ true
  unfolding link_step
  link_step-later r insecure next noted h k = elim (Bool-cases (host_of labels r == [])) [
    | inl nothing ↦ rw (nothing, link_step) h
    | inr something ↦ elim (Bool-cases (is_secure labels r)) [
      | inl tls ↦ rw (something, link_step, tls) (unfold has_prefix in refl)
      | inr plain ↦ elim (Bool-cases (insecure == [])) [
        | inl first ↦ rw (something, link_step, plain, first) k
        | inr later ↦ rw (something, link_step, plain, later) h
      ]
    ]
  ]

  first_link-secure :
      (router : Text) (routers : List Text) (insecure : Text)
      → Mem router routers
      → host_of labels router ≢ []
      → is_secure labels router ≡ true
      → has_prefix (first_link labels routers insecure) (bytes "https://") ≡ true
  unfolding first_link
  first_link-secure router [] insecure m h s = absurd (not-mem-nil m)
  first_link-secure router (r ∷ routers) insecure m h s =
      Or.elim (Bool-set _ _) (eq-or-mem_of_mem-cons m)
        (λ e.
          link_step-here r insecure _ _ (λ n. h (ap (host_of labels) e ∙ n))
            (sym (ap (is_secure labels) e) ∙ s))
        (λ n.
          link_step-later r insecure _ _ (first_link-secure router routers insecure n h s)
            (first_link-secure router routers (bytes "http://" ++ host_of labels r) n h s))

  -- A secure router with a host is preferred: where there is one, the link is a secure one, whatever
  -- the routers are called.
  pub service_url-secure :
      (router : Text)
      → Mem router (routers_of labels)
      → host_of labels router ≢ []
      → is_secure labels router ≡ true
      → has_prefix (service_url labels) (bytes "https://") ≡ true
  unfolding service_url
  service_url-secure router m h s = first_link-secure router (routers_of labels) [] m h s
