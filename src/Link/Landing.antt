-- ===== src/Link/Landing.antt =====
-- internal/linklanding/landing.go: what the landing service answers, and the class that it logs.
pub mod Answered
use telegram_server.Common.{
  ℕ, Bool, true, false, not, ◌&&◌, ◌||◌, Option, none, some, List, [], ◌∷◌, is_empty, ◌==◌,
  if◌then◌else◌,
}
use telegram_server.Common.Text.{
  Text, codes, text_beq, any_byte, has_prefix, cut_prefix, split_byte,
}
use telegram_server.Link.Target.{
  RouteClass, landing_other, invite, username, message, is_admin_path, tail,
}

-- The fixed pages.
pub data Page : Type 0 where
  landing_page : Page
  not_found_page : Page
  method_page : Page

abbrev pub is_read : Text → Bool
is_read method = text_beq method (codes "GET") || text_beq method (codes "HEAD")

-- `responseFor`.
unfoldable pub response_for : Text → Text → ℕ × Page
unfolding is_admin_path
response_for method path =
    if not (is_read method)
    then (405, method_page)
    else if is_admin_path path
    then (404, not_found_page)
    else (200, landing_page)

-- `StaticBodyForStatus`.
unfoldable pub static_body_for_status : ℕ → Option Page
static_body_for_status status =
    if status == 200
    then some landing_page
    else if status == 404
    then some not_found_page
    else if status == 405
    then some method_page
    else none

-- The cases of `routeClass` on the segments of `path[1:]`.
unfoldable pub landing_segments : List Text → RouteClass
landing_segments [] = landing_other
landing_segments (a ∷ []) = if is_empty a then landing_other else username
landing_segments (a ∷ b ∷ []) = if is_empty a || is_empty b then landing_other else message
landing_segments (a ∷ b ∷ c ∷ []) =
    if text_beq a (codes "c") && not (is_empty b) && not (is_empty c)
    then message
    else landing_other
landing_segments (a ∷ b ∷ c ∷ d ∷ more) = landing_other

-- `routeClass`.
unfoldable pub route_class : Text → RouteClass
unfolding is_admin_path cut_prefix any_byte split_byte landing_segments
route_class path =
    if is_admin_path path
    then landing_other
    else if has_prefix (codes "/+") path && not (any_byte (λ c. c == b'/') (tail path))
    then invite
    else if text_beq path (codes "/") || not (has_prefix (codes "/") path)
    then landing_other
    else landing_segments (split_byte b'/' (tail path))
