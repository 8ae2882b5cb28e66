-- ===== src/Storage/Routes.antt =====
-- internal/storage/store.go, the table `callback_routes`: what the buttons of a card stand for.
pub mod Laws
use mathlib.Core.Option
use codex_feishu.Prelude.{
  ℕ, ◌+◌, Bool, not, Option, List, [], ◌∷◌, ◌++◌, select, first, update_where,
}
use codex_feishu.Prelude.Text.{Text, codes, text_eq}
use codex_feishu.Storage.Rows.{nullable}

-- `model.CallbackRoute`; the payload is a text.
pub record CallbackRoute : Type 0 where
  pub token : Text
  pub action : Text
  pub thread_id : Text
  pub turn_id : Text
  pub request_id : Text
  pub chat_message_id : ℕ
  pub status : Text
  pub expires_at : Text
  pub payload_json : Text
  pub created_at : Text

abbrev pub has_token : Text → CallbackRoute → Bool
has_token token r = text_eq r.token token

-- The row that is written: blank texts are NULL.
abbrev pub route_row : CallbackRoute → CallbackRoute
route_row r = record r {
  turn_id = nullable r.turn_id;
  request_id = nullable r.request_id;
  expires_at = nullable r.expires_at;
}

-- `PutCallbackRoute`: an insert that replaces the row with the token.
unfoldable pub put_callback_route : CallbackRoute → List CallbackRoute → List CallbackRoute
unfolding nullable text_eq
put_callback_route r rows = select (λ x. not (has_token r.token x)) rows ++ route_row r ∷ []

-- `GetCallbackRoute`
unfoldable pub get_callback_route : Text → List CallbackRoute → Option CallbackRoute
unfolding text_eq
get_callback_route token rows = first (has_token token) rows

-- `model.CallbackStatusExpired`
abbrev pub callback_status_expired : Text
callback_status_expired = codes "expired"

abbrev pub as_expired : CallbackRoute → CallbackRoute
as_expired r = record r { status = callback_status_expired }

-- `ExpireCallbackRoute`
unfoldable pub expire_callback_route : Text → List CallbackRoute → List CallbackRoute
unfolding text_eq
expire_callback_route token rows = update_where (has_token token) as_expired rows
