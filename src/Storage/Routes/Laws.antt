-- ===== src/Storage/Routes/Laws.antt =====
-- What the statements on `callback_routes` do to a read of any token.
use mathlib.Core.Option
use codex_feishu.Prelude.{
  ◌≡◌, not, some, List, [], ◌∷◌, ◌++◌, arith, if◌then◌else◌, select, first, update_where,
}
use codex_feishu.Prelude.Text.{Text, text_eq, text_eq_iff}
use codex_feishu.Storage.Routes.{
  CallbackRoute, has_token, route_row, put_callback_route, get_callback_route, as_expired,
  expire_callback_route,
}

first-put :
    (token : Text) (r : CallbackRoute) (rows : List CallbackRoute)
    → first (has_token token) (select (λ x. not (has_token r.token x)) rows ++ route_row r ∷ [])
      ≡ (if text_eq r.token token then some (route_row r) else first (has_token token) rows)
first-put token r [] = ground arith
first-put token r (x ∷ rows) = ground (
  arith,
  first-put token r rows,
  text_eq_iff r.token token,
  text_eq_iff x.token r.token,
  text_eq_iff x.token token,
)

first-expire :
    (j token : Text) (rows : List CallbackRoute)
    → first (has_token token) (update_where (has_token j) as_expired rows) ≡ (
        if text_eq j token
        then Option.map as_expired (first (has_token token) rows)
        else first (has_token token) rows)
first-expire j token [] = ground arith
first-expire j token (x ∷ rows) = ground (
  arith,
  first-expire j token rows,
  text_eq_iff j token,
  text_eq_iff x.token j,
  text_eq_iff x.token token,
)

-- A route that is put is read back under its token, with blank texts emptied, whatever route had
-- the token before; once the token `gone` is expired, its route reads as expired and is otherwise
-- the same, and every other token reads as before.
callback_route_reads :
    (r : CallbackRoute) (gone token : Text) (rows : List CallbackRoute)
    → (get_callback_route token (put_callback_route r rows)
        ≡ (if text_eq r.token token then some (route_row r) else get_callback_route token rows))
      × (get_callback_route token (expire_callback_route gone rows) ≡ (
          if text_eq gone token
          then Option.map as_expired (get_callback_route token rows)
          else get_callback_route token rows))
unfolding get_callback_route put_callback_route expire_callback_route
callback_route_reads r gone token rows = (first-put token r rows, first-expire gone token rows)
