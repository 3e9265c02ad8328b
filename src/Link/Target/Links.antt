-- ===== src/Link/Target/Links.antt =====
-- internal/linkselector/selector.go: the grammar of the links.
use telegram_server.Common.{ℕ, ◌≡◌, Bool, true, List, ◌∷◌, ◌++◌, ◌==◌}
use telegram_server.Common.Text.{Text, codes}
use telegram_server.Link.Target.{
  RouteClass, invite, username, message, is_username, is_message_id, is_invite,
}

-- A link and its class: "/+" and an invite code, "/" and a username, the latter with "/" and a message
-- id, or "/c/" with two ids.
pub data Link : Text → RouteClass → Type 0 where
  invite_link :
      (path code : Text) → path ≡ codes "/+" ++ code → is_invite code ≡ true → Link path invite
  username_link : (path a : Text) → path ≡ b'/' ∷ a → is_username a ≡ true → Link path username
  message_link :
      (path a b : Text)
      → path ≡ b'/' ∷ (a ++ b'/' ∷ b)
      → is_username a ≡ true
      → is_message_id b ≡ true
      → Link path message
  private_link :
      (path b c : Text)
      → path ≡ codes "/c/" ++ (b ++ b'/' ∷ c)
      → is_message_id b ≡ true
      → is_message_id c ≡ true
      → Link path message

abbrev is_slash : ℕ → Bool
is_slash c = c == b'/'
