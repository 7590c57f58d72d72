-- ===== src/Web/Row/Badges.antt =====
-- The badges of a row are whole markup.
use compose_monitor.Base.{
  refl, Bool, not, List, [], ◌∷◌, ◌++◌, Text, bytes, ◌==◌, nat_eq, list_eq, list_beq, if◌then◌else◌,
}
use compose_monitor.Domain.{Service, Port, current_health}
use compose_monitor.Web.Keys.{
  state_label, short_id, uptime_label, short_image, port_class, port_label, port_title,
}
use compose_monitor.Web.Row.{
  Icon, state_icon, container_icon, clock, pulse, layers, port_icon, badge, port_badges, badges,
  health_text,
}
use compose_monitor.Web.Row.Markup.{
  pieces-IsWhole, if-IsWhole, read, skim, IsWhole, IsPlain, literal, value, whole, append-IsWhole,
}

module _ (escape : Text → Text) (classes : List Text → Text) (svg : Icon → Text)
    (plain : (s : Text) → IsPlain (escape s)) (drawn : (i : Icon) → IsWhole (svg i)) where
  badge-IsWhole :
      (class : Text) (icon : Icon) (label title : Text)
      → IsWhole (badge escape classes svg class icon label title)
  unfolding badge read skim list_beq
  badge-IsWhole class icon label title =
      pieces-IsWhole
        (literal (bytes "<span class=\"")
          ∷ value (escape (classes (bytes "badge" ∷ class ∷ [])))
          ∷ literal (bytes "\" title=\"")
          ∷ value (escape title)
          ∷ literal (bytes "\">")
          ∷ whole (svg icon)
          ∷ literal (bytes "<span>")
          ∷ value (escape label)
          ∷ literal (bytes "</span></span>")
          ∷ [])
        (tt, (plain _, (tt, (plain _, (tt, (drawn _, (tt, (plain _, (tt, tt)))))))))
        (λ open_ones. refl)

  port_badges-IsWhole : (ps : List Port) → IsWhole (port_badges escape classes svg ps)
  unfolding port_badges read
  port_badges-IsWhole [] = record { reads = λ open_ones. refl }
  port_badges-IsWhole (p ∷ ps) =
      append-IsWhole _ _ (badge-IsWhole (port_class p) port_icon (port_label p) (port_title p))
        (port_badges-IsWhole ps)

  pub badges-IsWhole :
      (s : Service) (show_state : Bool) → IsWhole (badges escape classes svg s show_state)
  unfolding badges skim
  badges-IsWhole s show_state =
      let health = health_text (current_health s) in
      pieces-IsWhole
        (whole (
            if show_state
            then badge escape classes svg (bytes "badge-" ++ state_label s) state_icon
                (state_label s) (bytes "Container state")
            else [])
          ∷ whole (
              badge escape classes svg (bytes "badge-container") container_icon (short_id s)
                s.container_name)
          ∷ whole (badge escape classes svg (bytes "badge-uptime") clock (uptime_label s) s.status)
          ∷ whole (
              if not (health == [])
              then badge escape classes svg (bytes "badge-health-" ++ health) pulse health
                  (bytes "Healthcheck: " ++ health)
              else [])
          ∷ whole (
              if not (s.image == [])
              then badge escape classes svg (bytes "badge-image") layers (short_image s.image)
                  s.image
              else [])
          ∷ whole (port_badges escape classes svg s.ports)
          ∷ [])
        (
          if-IsWhole _ _ (badge-IsWhole _ _ _ _),
          (
            badge-IsWhole _ _ _ _,
            (
              badge-IsWhole _ _ _ _,
              (
                if-IsWhole _ _ (badge-IsWhole _ _ _ _),
                (if-IsWhole _ _ (badge-IsWhole _ _ _ _), (port_badges-IsWhole s.ports, tt)),
              ),
            ),
          ),
        )
        (λ open_ones. refl)
