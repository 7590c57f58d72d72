-- ===== src/Docker/Routing/Stable.antt =====
-- `serviceURL` ranges over a Go map, twice, in an order that Go leaves open.
use mathlib.Core.List.Perm
use mathlib.Core.List.{filter_map}
use compose_monitor.Base.{
  ◌≡◌, refl, ◌∙◌, ap, List, [], ◌∷◌, ◌++◌, Perm, none, some, Text, bytes, nat_eq, list_eq,
}
use compose_monitor.Base.Order.{Text-IsOrder, compare_text, compare_text-eq}
use compose_monitor.Base.Sort.{sort-IsSorted, sort-perm, IsSorted-eq_of_perm}
use compose_monitor.Base.Dict.{IsMap}
use compose_monitor.Base.Dict.Order.{lookup-perm, any-perm}
use compose_monitor.Docker.Routing.{
  match_rule, rule_host, is_secure_label, is_secure, label, host_of, link_step, first_link,
  routers_of, service_url,
}

routers_of-perm :
    (labels labels' : List (Text × Text))
    → Perm labels labels'
    → routers_of labels ≡ routers_of labels'
unfolding routers_of
routers_of-perm labels labels' same =
    IsSorted-eq_of_perm compare_text Text-IsOrder _ _ (λ a b m n. compare_text-eq a b)
      (sort-IsSorted compare_text Text-IsOrder (filter_map (λ entry. match_rule entry.0) labels))
      (sort-IsSorted compare_text Text-IsOrder (filter_map (λ entry. match_rule entry.0) labels'))
      (Perm.trans (sort-perm compare_text _) (
        Perm.trans (Perm.filter_map (λ entry. match_rule entry.0) same)
          (Perm.symm (sort-perm compare_text _))))

module _ (labels labels' : List (Text × Text)) (h : IsMap labels) (h' : IsMap labels')
    (same : Perm labels labels') where
  label-perm : (key : Text) → label key labels ≡ label key labels'
  unfolding label
  label-perm key =
      ap (λ o. elim o as (λ _. Text) [ none ↦ [] | some value ↦ value ])
        (lookup-perm key labels labels' h h' same)

  is_secure-perm : (router : Text) → is_secure labels router ≡ is_secure labels' router
  unfolding is_secure
  is_secure-perm router =
      any-perm (is_secure_label (bytes "traefik.http.routers." ++ router)) labels labels' same

  host_of-perm : (router : Text) → host_of labels router ≡ host_of labels' router
  unfolding host_of
  host_of-perm router =
      ap rule_host (label-perm (bytes "traefik.http.routers." ++ router ++ bytes ".rule"))

  first_link-perm :
      (routers : List Text) (insecure : Text)
      → first_link labels routers insecure ≡ first_link labels' routers insecure
  unfolding first_link
  first_link-perm [] insecure = refl
  first_link-perm (router ∷ routers) insecure =
      let next = first_link-perm routers insecure in
      let noted =
        first_link-perm routers (bytes "http://" ++ host_of labels router)
        ∙ ap (λ host. first_link labels' routers (bytes "http://" ++ host)) (host_of-perm router) in
      λ i. link_step (host_of-perm router i) (is_secure-perm router i) insecure (next i) (noted i)

  -- A container's labels give the same link in whatever order its map of labels is gone through.
  pub service_url-stable : service_url labels ≡ service_url labels'
  unfolding service_url
  service_url-stable =
      first_link-perm (routers_of labels) []
      ∙ ap (λ rs. first_link labels' rs []) (routers_of-perm labels labels' same)
