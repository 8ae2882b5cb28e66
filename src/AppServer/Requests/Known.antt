-- ===== src/AppServer/Requests/Known.antt =====
-- Which requests of the app server become approvals.
use codex_feishu.Prelude.{
  ℕ, zero, suc, ◌+◌, ◌/◌, ◌≤◌, ◌<◌, ◌≡◌, refl, ap, subst, inl, inr, Bool, true, false, not, ◌&&◌,
  ◌||◌, none, some, [], ◌∷◌, ◌++◌, arith, ltb, leb, if◌then◌else◌, Bool-cases, &&-left, &&-right,
  leb→le, any,
}
use codex_feishu.Prelude.Text.{Text, codes, text_eq, trim_space, is_empty, to_lower, contains}
use codex_feishu.AppServer.Json.{
  ℤ, pos, negsuc, Json, null, boolean, number, string, array, object, value_at,
}
use codex_feishu.AppServer.Payload.{first_value, nested_thread_id}
use codex_feishu.AppServer.Events.{Event, is_approval_request_method}
use codex_feishu.AppServer.Compact.{digits_of, decimal}
use codex_feishu.AppServer.Requests.{
  clean_request_id, approval_request_id, pending_approval_from_server_request, decimal_of,
}
use codex_feishu.Storage.Approvals.{PendingApproval}

-- The first character is a digit, and not zero.
unfoldable pub leads : Text → Bool
leads [] = false
leads (c ∷ cs) = leb b'1' c && leb c b'9'

leads-append : (s t : Text) → leads s ≡ true → leads (s ++ t) ≡ true
unfolding leads
leads-append [] t h = absurd cc
leads-append (c ∷ s) t h = h

one_digit : (n : ℕ) → 1 ≤ n → n < 10 → leads ((b'0' + n) ∷ []) ≡ true
unfolding leads
one_digit n h k = ground arith

digits_of-leads : (fuel n : ℕ) → 1 ≤ n → n ≤ fuel → leads (digits_of fuel n) ≡ true
unfolding digits_of
digits_of-leads zero n h k = absurd (omega arith)
digits_of-leads (suc fuel) n h k = elim (Bool-cases (ltb n 10)) [
  | inl small ↦ rw small (one_digit n h (ground (arith, small)))
  | inr large ↦ rw large (
      leads-append (digits_of fuel (n / 10)) _
        (digits_of-leads fuel (n / 10) (ground (arith, large)) (ground (arith, large))))
]

-- A request id that can stand in JSON-RPC: it is not empty, not a zero and not a nil.
unfoldable pub is_request_id : Text → Bool
unfolding text_eq
is_request_id t = not (any (text_eq t) ([] ∷ codes "0" ∷ codes "0.0" ∷ codes "<nil>" ∷ []))

leads-is_request_id : (t : Text) → leads t ≡ true → is_request_id t ≡ true
unfolding leads is_request_id text_eq
leads-is_request_id [] h = absurd cc
leads-is_request_id (c ∷ cs) h = ground (arith, h)

-- A number that is positive has a whole part.
unfoldable pub is_whole : Json → Bool
is_whole (number x) = not x.is_positive || elim x.truncated [ pos n ↦ leb 1 n | negsuc n ↦ false ]
is_whole v = true

decimal-is_request_id : (n : ℕ) → 1 ≤ n → is_request_id (decimal n) ≡ true
unfolding decimal
decimal-is_request_id n h = leads-is_request_id _ (digits_of-leads (suc n) n h (omega arith))

number_id :
    (is_positive : Bool) (z : ℤ)
    → (not is_positive || elim z [ pos n ↦ leb 1 n | negsuc n ↦ false ]) ≡ true
    → is_empty (if is_positive then decimal_of z else []) ≡ false
    → is_request_id (if is_positive then decimal_of z else []) ≡ true
number_id false z w h = absurd cc
number_id true (pos n) w h = decimal-is_request_id n (leb→le 1 n w)
number_id true (negsuc n) w h = absurd cc

text_id :
    (t : Text) (b : Bool)
    → any (text_eq t) ([] ∷ codes "0" ∷ codes "0.0" ∷ codes "<nil>" ∷ []) ≡ b
    → is_empty (if b then [] else t) ≡ false
    → is_request_id (if b then [] else t) ≡ true
unfolding is_request_id
text_id t true e h = absurd cc
text_id t false e h = ap not e

clean_request_id-is_request_id :
    (v : Json)
    → is_whole v ≡ true
    → is_empty (clean_request_id v) ≡ false
    → is_request_id (clean_request_id v) ≡ true
unfolding clean_request_id is_whole
clean_request_id-is_request_id null w h = absurd cc
clean_request_id-is_request_id (boolean b) w h = absurd cc
clean_request_id-is_request_id (number x) w h = number_id x.is_positive x.truncated w h
clean_request_id-is_request_id (string t) w h = text_id (trim_space t) _ refl h
clean_request_id-is_request_id (array vs) w h = absurd cc
clean_request_id-is_request_id (object fs) w h = absurd cc

-- The ids that a request carries, in the order in which they are tried.
unfoldable pub ids_are_whole : Event → Bool
unfolding is_whole value_at
ids_are_whole event = is_whole event.id && is_whole (value_at event.params (codes "requestId"))

first_value-is_request_id :
    (s t : Text)
    → (is_empty s ≡ false → is_request_id s ≡ true)
    → (is_empty t ≡ false → is_request_id t ≡ true)
    → is_empty (first_value (s ∷ t ∷ [])) ≡ false
    → is_request_id (first_value (s ∷ t ∷ [])) ≡ true
unfolding first_value
first_value-is_request_id s t h k e = ground (arith, h, k, e)

approval_request_id-is_request_id :
    (event : Event)
    → ids_are_whole event ≡ true
    → is_empty (approval_request_id event) ≡ false
    → is_request_id (approval_request_id event) ≡ true
unfolding approval_request_id ids_are_whole
approval_request_id-is_request_id event w h =
    first_value-is_request_id _ _ (clean_request_id-is_request_id event.id (&&-left _ _ w))
      (clean_request_id-is_request_id (value_at event.params (codes "requestId"))
        (&&-right (is_whole event.id) _ w))
      h

-- What an approval has of its request.
pub record HasRequest (event : Event) (a : PendingApproval) : Type 0 where
  pub id : is_request_id a.request_id ≡ true
  pub own_id : a.request_id ≡ approval_request_id event
  pub thread : a.thread_id ≡ nested_thread_id event.params
  pub pending : a.status ≡ codes "pending"

if-HasRequest :
    (event : Event) (b : Bool) (x y : PendingApproval)
    → HasRequest event x
    → HasRequest event y
    → HasRequest event (if b then x else y)
if-HasRequest event true x y h k = h
if-HasRequest event false x y h k = k

pub record IsKnown (event : Event) (a : PendingApproval) : Type 0 where
  pub request : HasRequest event a
  pub channel : text_eq event.channel (codes "server_request") ≡ true
  pub method :
      (is_approval_request_method (to_lower (trim_space event.method))
        || contains (to_lower (trim_space event.method)) (codes "requestuserinput"))
      ≡ true

-- The branches that give an approval.
guards :
    (channel empty approves asks : Bool) (x y a : PendingApproval)
    → (if not channel || empty
        then none
        else if approves
        then some x
        else if asks
        then some y
        else none)
      ≡ some a
    → (channel ≡ true)
      × (empty ≡ false)
      × ((approves || asks) ≡ true)
      × ((if approves then x else y) ≡ a)
guards channel empty approves asks x y a h = ground (arith, h)

-- A server request becomes an approval only with an id that is a real one, never with the zero that
-- notifications carry, provided that the numbers among its ids are whole; it is then pending, has the
-- thread of the request, and the request asks for an approval or for an input.
pub pending_approval_from_server_request-IsKnown :
    (event : Event) (now payload : Text) (a : PendingApproval)
    → ids_are_whole event ≡ true
    → pending_approval_from_server_request event now payload ≡ some a
    → IsKnown event a
unfolding pending_approval_from_server_request
pending_approval_from_server_request-IsKnown event now payload a w h =
    let method = to_lower (trim_space event.method) in
    let approves = is_approval_request_method method in
    let g = guards _ _ approves (contains method (codes "requestuserinput")) _ _ a h in
    let real = approval_request_id-is_request_id event w g.1 in
    record {
      request = subst (HasRequest event) g.3 (
          if-HasRequest event approves _ _
            (record { id = real; own_id = refl; thread = refl; pending = refl })
            (record { id = real; own_id = refl; thread = refl; pending = refl }));
      channel = g.0;
      method = g.2;
    }
