-- ===== src/Web/Row/Controls.antt =====
-- The controls of a row are whole markup.
use compose_monitor.Base.{
  refl, Bool, true, false, not, ◌&&◌, List, [], ◌∷◌, ◌++◌, Text, bytes, ◌==◌, nat_eq, list_eq,
  list_beq, if◌then◌else◌,
}
use compose_monitor.Domain.{Service, is_online}
use compose_monitor.Web.Row.{
  Icon, external, stop_icon, play, trash, remove_link, open_link, stop_form, start_form, controls,
  service_actions, service_path,
}
use compose_monitor.Web.Row.Markup.{
  pieces-IsWhole, if-IsWhole, read, skim, IsWhole, IsPlain, literal, value, whole, append-IsWhole,
}

module _ (escape : Text → Text) (classes : List Text → Text) (svg : Icon → Text)
    (plain : (s : Text) → IsPlain (escape s)) (drawn : (i : Icon) → IsWhole (svg i)) where
  remove_link-IsWhole : (href : Text) → IsWhole (remove_link escape classes svg href)
  unfolding remove_link read skim list_beq
  remove_link-IsWhole href =
      pieces-IsWhole
        (literal (bytes "<a class=\"action remove\" href=\"")
          ∷ value (escape href)
          ∷ literal (bytes "\" hx-get=\"")
          ∷ value (escape href)
          ∷ literal (bytes "\" hx-target=\"#confirm-body\" hx-swap=\"innerHTML\">")
          ∷ whole (svg trash)
          ∷ literal (bytes "<span>Remove</span></a>")
          ∷ [])
        (tt, (plain _, (tt, (plain _, (tt, (drawn _, (tt, tt))))))) (λ open_ones. refl)

  open_link-IsWhole : (s : Service) → IsWhole (open_link escape classes svg s)
  unfolding open_link read skim list_beq
  open_link-IsWhole s =
      pieces-IsWhole
        (literal (bytes "<a class=\"action open\" href=\"")
          ∷ value (escape s.url)
          ∷ literal (bytes "\" title=\"")
          ∷ value (escape s.url)
          ∷ literal (bytes "\" target=\"_blank\" rel=\"noreferrer\">")
          ∷ whole (svg external)
          ∷ literal (bytes "<span>Open</span></a>")
          ∷ [])
        (tt, (plain _, (tt, (plain _, (tt, (drawn _, (tt, tt))))))) (λ open_ones. refl)

  stop_form-IsWhole : (s : Service) → IsWhole (stop_form escape classes svg s)
  unfolding stop_form read skim list_beq
  stop_form-IsWhole s =
      pieces-IsWhole
        (literal (bytes "<form method=\"post\" action=\"")
          ∷ value (escape (service_path s ++ bytes "/stop"))
          ∷ literal
              (bytes "\" class=\"action-form\"><button type=\"submit\" class=\"action stop\">")
          ∷ whole (svg stop_icon)
          ∷ literal (bytes "<span>Stop</span></button></form>")
          ∷ [])
        (tt, (plain _, (tt, (drawn _, (tt, tt))))) (λ open_ones. refl)

  start_form-IsWhole : (s : Service) → IsWhole (start_form escape classes svg s)
  unfolding start_form read skim list_beq
  start_form-IsWhole s =
      pieces-IsWhole
        (literal (bytes "<form method=\"post\" action=\"")
          ∷ value (escape (service_path s ++ bytes "/start"))
          ∷ literal
              (bytes "\" class=\"action-form\"><button type=\"submit\" class=\"action start\">")
          ∷ whole (svg play)
          ∷ literal (bytes "<span>Start</span></button></form>")
          ∷ [])
        (tt, (plain _, (tt, (drawn _, (tt, tt))))) (λ open_ones. refl)

  controls-IsWhole : (s : Service) → IsWhole (controls escape classes svg s)
  unfolding controls
  controls-IsWhole s = choose (is_online s)
    where
      offline : IsWhole (
          start_form escape classes svg s
          ++ remove_link escape classes svg (service_path s ++ bytes "/remove"))
      offline =
          append-IsWhole _ _ (start_form-IsWhole s)
            (remove_link-IsWhole (service_path s ++ bytes "/remove"))

      choose :
          (b : Bool)
          → IsWhole (
              if b
              then stop_form escape classes svg s
              else start_form escape classes svg s
                ++ remove_link escape classes svg (service_path s ++ bytes "/remove"))
      choose true = stop_form-IsWhole s
      choose false = offline

  pub service_actions-IsWhole :
      (s : Service) (controllable : Bool)
      → IsWhole (service_actions escape classes svg s controllable)
  unfolding service_actions read skim list_beq
  service_actions-IsWhole s controllable =
      pieces-IsWhole
        (literal (bytes "<div class=\"actions\">")
          ∷ whole (if not (s.url == []) && is_online s then open_link escape classes svg s else [])
          ∷ whole (if controllable then controls escape classes svg s else [])
          ∷ literal (bytes "</div>")
          ∷ [])
        (
          tt,
          (if-IsWhole _ _ (open_link-IsWhole s), (if-IsWhole _ _ (controls-IsWhole s), (tt, tt))),
        )
        (λ open_ones. refl)
