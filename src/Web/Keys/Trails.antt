-- ===== src/Web/Keys/Trails.antt =====
-- The breadcrumb trail of a page.
use compose_monitor.Base.{◌≡◌, refl, ap, ◌∙◌, List, [], ◌∷◌, ◌++◌, Text, bytes, map}
use compose_monitor.Web.Keys.{Crumb, steps, unlink_last, trail}

-- The links between the section and the page, each a label and where it leads to.
abbrev pub flatten : List (Text × Text) → List Text → List Text
flatten [] rest = rest
flatten ((label, href) ∷ links) rest = label ∷ href ∷ flatten links rest

abbrev pub link : Text × Text → Crumb
link (label, href) = record { label = label; href = href }

abbrev pub here : Text → Crumb
here label = record { label = label; href = [] }

unlink_last-append :
    (c : Crumb) (crumbs : List Crumb) (last : Crumb)
    → unlink_last (c ∷ crumbs ++ last ∷ []) ≡ c ∷ crumbs ++ record last { href = [] } ∷ []
unfolding unlink_last
unlink_last-append c [] last = refl
unlink_last-append c (d ∷ crumbs) last = ap (λ t. c ∷ t) (unlink_last-append d crumbs last)

steps-flatten :
    (links : List (Text × Text)) (rest : List Text)
    → steps (flatten links rest) ≡ map link links ++ steps rest
unfolding steps
steps-flatten [] rest = refl
steps-flatten ((label, href) ∷ links) rest =
    ap (λ t. link (label, href) ∷ t) (steps-flatten links rest)

-- The trail leads from the project's front page over the section and every pair of a label and a
-- link, in their order and with their links, to the page itself, which is the last step and the
-- one without a link.
pub trail-flatten :
    (project section section_href page : Text) (links : List (Text × Text))
    → trail project section section_href (flatten links (page ∷ []))
      ≡ link (project, bytes "/") ∷ link (section, section_href) ∷ map link links ++ here page ∷ []
unfolding trail
trail-flatten project section section_href page links =
    let first = link (project, bytes "/") in
    let second = link (section, section_href) in
    ap (λ t. unlink_last (first ∷ second ∷ t)) (steps-flatten links (page ∷ []))
    ∙ unlink_last-append first (second ∷ map link links) (here page)
