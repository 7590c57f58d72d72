-- ===== src/Web/Row.antt =====
-- The markup of a row: ServiceItem, ServiceActions, RemoveLink and Badge, as templ writes them in
-- internal/adapters/web/shared/templates/row_templ.go and badges_templ.go. Parameters are templ's
-- escaping and its list of classes, and the embedded icons of internal/adapters/web/shared/icons.
pub mod Markup
pub mod Controls
pub mod Badges
pub mod Nesting
use compose_monitor.Base.{
  ◌≡◌, Bool, not, ◌&&◌, List, [], ◌∷◌, ◌++◌, Text, bytes, ◌==◌, nat_eq, list_eq, if◌then◌else◌,
}
use compose_monitor.Domain.{
  Service, Port, Health, no_health, starting, healthy, unhealthy, is_online, current_health,
  display_name, has_title,
}
use compose_monitor.Web.Keys.{
  sort_key, online_attr, replica_label, state_label, short_id, uptime_label, short_image,
  port_class, port_label, port_title,
}

-- The icons of a row, out of `icons.Name`.
pub data Icon : Type 0 where
  state_icon container_icon clock pulse layers port_icon external stop_icon play trash : Icon

-- `domain.Health` is a string.
abbrev pub health_text : Health → Text
health_text no_health = []
health_text starting = bytes "starting"
health_text healthy = bytes "healthy"
health_text unhealthy = bytes "unhealthy"

abbrev pub service_path : Service → Text
service_path s = bytes "/services/" ++ s.container_id

-- What is written to the buffer, in order.
unfoldable pub write : List Text → Text
write [] = []
write (t ∷ ts) = t ++ write ts

module _ (escape : Text → Text) (classes : List Text → Text) (svg : Icon → Text) where
  -- `Badge`, whose classes are strings, so that no style is written before it.
  unfoldable pub badge : Text → Icon → Text → Text → Text
  unfolding write
  badge class icon text title = write (
      bytes "<span class=\""
      ∷ escape (classes (bytes "badge" ∷ class ∷ []))
      ∷ bytes "\" title=\""
      ∷ escape title
      ∷ bytes "\">"
      ∷ svg icon
      ∷ bytes "<span>"
      ∷ escape text
      ∷ bytes "</span></span>"
      ∷ [])

  -- `RemoveLink`
  unfoldable pub remove_link : Text → Text
  unfolding write
  remove_link href = write (
      bytes "<a class=\"action remove\" href=\""
      ∷ escape href
      ∷ bytes "\" hx-get=\""
      ∷ escape href
      ∷ bytes "\" hx-target=\"#confirm-body\" hx-swap=\"innerHTML\">"
      ∷ svg trash
      ∷ bytes "<span>Remove</span></a>"
      ∷ [])

  -- The elements of `ServiceActions`
  unfoldable pub open_link : Service → Text
  unfolding write
  open_link s = write (
      bytes "<a class=\"action open\" href=\""
      ∷ escape s.url
      ∷ bytes "\" title=\""
      ∷ escape s.url
      ∷ bytes "\" target=\"_blank\" rel=\"noreferrer\">"
      ∷ svg external
      ∷ bytes "<span>Open</span></a>"
      ∷ [])

  unfoldable pub stop_form : Service → Text
  unfolding write
  stop_form s = write (
      bytes "<form method=\"post\" action=\""
      ∷ escape (service_path s ++ bytes "/stop")
      ∷ bytes "\" class=\"action-form\"><button type=\"submit\" class=\"action stop\">"
      ∷ svg stop_icon
      ∷ bytes "<span>Stop</span></button></form>"
      ∷ [])

  unfoldable pub start_form : Service → Text
  unfolding write
  start_form s = write (
      bytes "<form method=\"post\" action=\""
      ∷ escape (service_path s ++ bytes "/start")
      ∷ bytes "\" class=\"action-form\"><button type=\"submit\" class=\"action start\">"
      ∷ svg play
      ∷ bytes "<span>Start</span></button></form>"
      ∷ [])

  unfoldable pub controls : Service → Text
  unfolding is_online stop_form start_form remove_link
  controls s =
      if is_online s
      then stop_form s
      else start_form s ++ remove_link (service_path s ++ bytes "/remove")

  -- `ServiceActions`
  unfoldable pub service_actions : Service → Bool → Text
  unfolding write is_online open_link controls
  service_actions s controllable = write (
      bytes "<div class=\"actions\">"
      ∷ (if not (s.url == []) && is_online s then open_link s else [])
      ∷ (if controllable then controls s else [])
      ∷ bytes "</div>"
      ∷ [])

  -- A value in a `span` of a class of its own.
  unfoldable pub span : Text → Text → Text → Text
  unfolding write
  span before value behind = write (before ∷ escape value ∷ behind ∷ [])

  -- The elements of `ServiceItem`: the badges of its facts, and its first line.
  unfoldable pub port_badges : List Port → Text
  unfolding badge port_class port_label port_title
  port_badges [] = []
  port_badges (p ∷ ps) =
      badge (port_class p) port_icon (port_label p) (port_title p) ++ port_badges ps

  unfoldable pub badges : Service → Bool → Text
  unfolding write badge port_badges state_label short_id uptime_label current_health short_image
  badges s show_state =
      let health = health_text (current_health s) in
      write (
        (if show_state
          then badge (bytes "badge-" ++ state_label s) state_icon (state_label s)
              (bytes "Container state")
          else [])
        ∷ badge (bytes "badge-container") container_icon (short_id s) s.container_name
        ∷ badge (bytes "badge-uptime") clock (uptime_label s) s.status
        ∷ (if not (health == [])
            then badge (bytes "badge-health-" ++ health) pulse health
                (bytes "Healthcheck: " ++ health)
            else [])
        ∷ (if not (s.image == [])
            then badge (bytes "badge-image") layers (short_image s.image) s.image
            else [])
        ∷ port_badges s.ports
        ∷ [])

  unfoldable pub head_line : Service → Bool → Text
  unfolding write display_name has_title span replica_label service_actions
  head_line s controllable = write (
      bytes "<span class=\"entry-head\"><span class=\"col-name\"><a class=\"name\" href=\""
      ∷ escape (service_path s)
      ∷ bytes "\">"
      ∷ escape (display_name s)
      ∷ bytes "</a>"
      ∷ (if has_title s
          then span (bytes "<span class=\"service-name\">") s.name (bytes "</span> ")
          else [])
      ∷ (if not (replica_label s == [])
          then span (bytes "<span class=\"replica\">") (replica_label s) (bytes "</span>")
          else [])
      ∷ bytes "</span> <span class=\"col-actions\">"
      ∷ service_actions s controllable
      ∷ bytes "</span></span> "
      ∷ [])

  -- `ServiceItem`
  unfoldable pub service_item : Service → Bool → Bool → Text
  unfolding write sort_key online_attr head_line span badges
  service_item s controllable show_state = write (
      bytes "<li class=\"entry service\" data-service-id=\""
      ∷ escape s.container_id
      ∷ bytes "\" data-sort=\""
      ∷ escape (sort_key s)
      ∷ bytes "\" data-online=\""
      ∷ escape (online_attr s)
      ∷ bytes "\">"
      ∷ head_line s controllable
      ∷ (if not (s.description == [])
          then span (bytes "<span class=\"description\">") s.description (bytes "</span> ")
          else [])
      ∷ bytes "<span class=\"sub\">"
      ∷ badges s show_state
      ∷ bytes "</span></li>"
      ∷ [])
