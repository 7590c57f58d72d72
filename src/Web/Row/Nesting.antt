-- ===== src/Web/Row/Nesting.antt =====
-- The markup of a row is whole: whatever the texts of a service are, each element that is opened is
-- closed again, and no text of the service is read as markup.
use compose_monitor.Base.{
  ◌≡◌, refl, Bool, not, List, [], ◌∷◌, Text, bytes, ◌==◌, nat_eq, list_eq, list_beq, if◌then◌else◌,
}
use compose_monitor.Domain.{Service, has_title, display_name}
use compose_monitor.Web.Keys.{sort_key, online_attr, replica_label}
use compose_monitor.Web.Row.{
  Icon, service_actions, span, badges, head_line, service_item, service_path,
}
use compose_monitor.Web.Row.Markup.{
  pieces-IsWhole, if-IsWhole, read, skim, text, IsWhole, IsPlain, literal, value, whole,
}
use compose_monitor.Web.Row.Controls.{service_actions-IsWhole}
use compose_monitor.Web.Row.Badges.{badges-IsWhole}

module _ (escape : Text → Text) (classes : List Text → Text) (svg : Icon → Text)
    (plain : (s : Text) → IsPlain (escape s)) (drawn : (i : Icon) → IsWhole (svg i)) where
  span-IsWhole :
      (before label behind : Text)
      → ((open_ones : List Text)
          → skim (literal before ∷ value (escape label) ∷ literal behind ∷ []) (text open_ones)
            ≡ text open_ones)
      → IsWhole (span escape classes svg before label behind)
  unfolding span
  span-IsWhole before label behind e =
      pieces-IsWhole (literal before ∷ value (escape label) ∷ literal behind ∷ [])
        (tt, (plain _, (tt, tt))) e

  head_line-IsWhole :
      (s : Service) (controllable : Bool) → IsWhole (head_line escape classes svg s controllable)
  unfolding head_line read skim list_beq
  head_line-IsWhole s controllable =
      pieces-IsWhole
        (literal
            (bytes "<span class=\"entry-head\"><span class=\"col-name\"><a class=\"name\" href=\"")
          ∷ value (escape (service_path s))
          ∷ literal (bytes "\">")
          ∷ value (escape (display_name s))
          ∷ literal (bytes "</a>")
          ∷ whole (
              if has_title s
              then span escape classes svg (bytes "<span class=\"service-name\">") s.name
                  (bytes "</span> ")
              else [])
          ∷ whole (
              if not (replica_label s == [])
              then span escape classes svg (bytes "<span class=\"replica\">") (replica_label s)
                  (bytes "</span>")
              else [])
          ∷ literal (bytes "</span> <span class=\"col-actions\">")
          ∷ whole (service_actions escape classes svg s controllable)
          ∷ literal (bytes "</span></span> ")
          ∷ [])
        (
          tt,
          (
            plain _,
            (
              tt,
              (
                plain _,
                (
                  tt,
                  (
                    if-IsWhole _ _ (
                        span-IsWhole (bytes "<span class=\"service-name\">") s.name
                          (bytes "</span> ") (λ open_ones. refl)),
                    (
                      if-IsWhole _ _ (
                          span-IsWhole (bytes "<span class=\"replica\">") (replica_label s)
                            (bytes "</span>") (λ open_ones. refl)),
                      (
                        tt,
                        (
                          service_actions-IsWhole escape classes svg plain drawn s controllable,
                          (tt, tt),
                        ),
                      ),
                    ),
                  ),
                ),
              ),
            ),
          ),
        )
        (λ open_ones. refl)

  -- The row of every service, with and without controls and its state, is whole markup, where the
  -- escaped texts hold neither a bracket nor a quotation mark and the icons are whole: read from any
  -- place in a page, each element that it opens is closed by its own name, in order, nothing is
  -- closed that it did not open, and none of the service's texts is read as markup.
  pub service_item-IsWhole :
      (s : Service) (controllable show_state : Bool)
      → IsWhole (service_item escape classes svg s controllable show_state)
  unfolding service_item read skim list_beq
  service_item-IsWhole s controllable show_state =
      pieces-IsWhole
        (literal (bytes "<li class=\"entry service\" data-service-id=\"")
          ∷ value (escape s.container_id)
          ∷ literal (bytes "\" data-sort=\"")
          ∷ value (escape (sort_key s))
          ∷ literal (bytes "\" data-online=\"")
          ∷ value (escape (online_attr s))
          ∷ literal (bytes "\">")
          ∷ whole (head_line escape classes svg s controllable)
          ∷ whole (
              if not (s.description == [])
              then span escape classes svg (bytes "<span class=\"description\">") s.description
                  (bytes "</span> ")
              else [])
          ∷ literal (bytes "<span class=\"sub\">")
          ∷ whole (badges escape classes svg s show_state)
          ∷ literal (bytes "</span></li>")
          ∷ [])
        (
          tt,
          (
            plain _,
            (
              tt,
              (
                plain _,
                (
                  tt,
                  (
                    plain _,
                    (
                      tt,
                      (
                        head_line-IsWhole s controllable,
                        (
                          if-IsWhole _ _ (
                              span-IsWhole (bytes "<span class=\"description\">") s.description
                                (bytes "</span> ") (λ open_ones. refl)),
                          (
                            tt,
                            (badges-IsWhole escape classes svg plain drawn s show_state, (tt, tt)),
                          ),
                        ),
                      ),
                    ),
                  ),
                ),
              ),
            ),
          ),
        )
        (λ open_ones. refl)
