-- ===== src/Domain/Labels.antt =====
-- `GroupLabels` of internal/domain/service.go.
use mathlib.Core.List.{append-nil, append_assoc}
use compose_monitor.Base.{
  ◌≡◌, sym, ◌∙◌, ap, Bool, true, false, not, List, [], ◌∷◌, ◌++◌, Text, bytes, has_prefix, keep,
  if◌then◌else◌, Bool-cases, inl, inr,
}
use compose_monitor.Domain.{Label, LabelGroup}

-- `known`: the families of labels, title and prefix, in the order in which they are tried.
abbrev pub families : List (Text × Text)
families =
    (bytes "Compose", bytes "com.docker.compose.")
    ∷ (bytes "Image (OCI)", bytes "org.opencontainers.")
    ∷ (bytes "Traefik", bytes "traefik.")
    ∷ []

abbrev pub empty_group : Text → LabelGroup
empty_group title = record { title = title; labels = [] }

abbrev pub add_label : LabelGroup → Label → LabelGroup
add_label g l = record g { labels = g.labels ++ l ∷ [] }

-- `groups` and `other` of the loop.
abbrev pub Groups : Type 0
Groups = List LabelGroup × LabelGroup

-- One round of the loop over the labels, with the loop over the families in it.
unfoldable pub assign : List (Text × Text) → Label → Groups → Groups
unfolding has_prefix
assign [] l (groups, other) = (groups, add_label other l)
assign (family ∷ known) l ([], other) = ([], other)  -- never: there is a group for every family
assign ((title, prefix) ∷ known) l (g ∷ groups, other) =
    let rest = assign known l (groups, other) in
    if has_prefix l.key prefix then (add_label g l ∷ groups, other) else (g ∷ rest.0, rest.1)

unfoldable pub assign_all : List (Text × Text) → List Label → Groups → Groups
unfolding assign
assign_all known [] groups = groups
assign_all known (l ∷ labels) groups = assign_all known labels (assign known l groups)

abbrev pub titled : List (Text × Text) → List LabelGroup
titled [] = []
titled ((title, prefix) ∷ known) = empty_group title ∷ titled known

abbrev pub is_populated : LabelGroup → Bool
is_populated g = elim g.labels [ [] ↦ false | ◌∷◌ l ls ↦ true ]

unfoldable pub group_labels : List Label → List LabelGroup
unfolding assign_all keep
group_labels labels =
    let (groups, other) =
      assign_all families labels (titled families, empty_group (bytes "Other")) in
    keep is_populated (groups ++ other ∷ [])

-- The partition of labels by families: each takes those of its prefix from what the ones before it
-- left, and what none of them took is the last group.
abbrev pub partition : List (Text × Text) → List Label → List LabelGroup
partition [] labels = record { title = bytes "Other"; labels = labels } ∷ []
partition ((title, prefix) ∷ known) labels =
    record { title = title; labels = keep (λ l. has_prefix l.key prefix) labels }
    ∷ partition known (keep (λ l. not (has_prefix l.key prefix)) labels)

assign_all-none :
    (labels : List Label) (groups : List LabelGroup) (other : LabelGroup)
    → assign_all [] labels (groups, other)
      ≡ (groups, record other { labels = other.labels ++ labels })
unfolding assign_all assign
assign_all-none [] groups other =
    ap (λ ls. (groups, record other { labels = ls })) (sym (append-nil other.labels))
assign_all-none (l ∷ labels) groups other =
    assign_all-none labels groups (add_label other l)
    ∙ ap (λ ls. (groups, record other { labels = ls })) (append_assoc other.labels (l ∷ []) labels)

-- The first family takes its labels, and the loop goes on as if it were run on the others alone.
assign_all-family :
    (title prefix : Text) (known : List (Text × Text)) (labels : List Label) (g : LabelGroup)
    (groups : List LabelGroup) (other : LabelGroup)
    → assign_all ((title, prefix) ∷ known) labels (g ∷ groups, other) ≡ (
        let rest =
          assign_all known (keep (λ l. not (has_prefix l.key prefix)) labels) (groups, other) in
        (
          record g { labels = g.labels ++ keep (λ l. has_prefix l.key prefix) labels } ∷ rest.0,
          rest.1,
        ))
unfolding assign_all assign keep
assign_all-family title prefix known [] g groups other =
    ap (λ ls. (record g { labels = ls } ∷ groups, other)) (sym (append-nil g.labels))
assign_all-family title prefix known (l ∷ labels) g groups other =
    elim (Bool-cases (has_prefix l.key prefix)) [
      | inl own ↦ rw own (
          assign_all-family title prefix known labels (add_label g l) groups other
          ∙ ap (λ ls. (record g { labels = ls } ∷ (rest_of labels).0, (rest_of labels).1))
              (append_assoc g.labels (l ∷ []) (keep (λ x. has_prefix x.key prefix) labels)))
      | inr foreign ↦
          let next = assign known l (groups, other) in
          rw foreign (assign_all-family title prefix known labels g next.0 next.1)
    ]
  where
    rest_of : List Label → Groups
    rest_of ls = assign_all known (keep (λ x. not (has_prefix x.key prefix)) ls) (groups, other)

assign_all-partition :
    (known : List (Text × Text)) (labels : List Label)
    → (let r = assign_all known labels (titled known, empty_group (bytes "Other")) in
        r.0 ++ r.1 ∷ [])
      ≡ partition known labels
assign_all-partition [] labels =
    ap (λ r. r.0 ++ r.1 ∷ []) (assign_all-none labels [] (empty_group (bytes "Other")))
assign_all-partition ((title, prefix) ∷ known) labels =
    ap (λ r. r.0 ++ r.1 ∷ [])
      (assign_all-family title prefix known labels (empty_group title) (titled known)
        (empty_group (bytes "Other")))
    ∙ ap (λ gs. record { title = title; labels = keep (λ l. has_prefix l.key prefix) labels } ∷ gs)
        (assign_all-partition known (keep (λ l. not (has_prefix l.key prefix)) labels))

-- `GroupLabels` is the partition of the labels by the families, in their order, without the groups
-- that are empty: every label is in one group, and in each group the labels keep their order.
pub group_labels-partition :
    (labels : List Label) → group_labels labels ≡ keep is_populated (partition families labels)
unfolding group_labels
group_labels-partition labels = ap (keep is_populated) (assign_all-partition families labels)
