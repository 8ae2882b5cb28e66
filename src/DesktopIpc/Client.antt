-- ===== src/DesktopIpc/Client.antt =====
-- internal/desktopipc/client.go: the table of pending requests. The steps are the sections that the
-- mutex `pendingMu` makes atomic, and the sends on channels that stand outside them. A request id is
-- the number that it prints; a JSON value is its text. A channel is the number of its creation.
pub mod Once
use mathlib.Core.Option
use codex_feishu.Prelude.{
  ℕ, zero, suc, ◌+◌, ◌-◌, ◌%◌, ◌^◌, not, ◌||◌, Option, none, some, List, [], ◌∷◌, ◌++◌, map, ◌==◌,
  if◌then◌else◌, select, first,
}
use codex_feishu.Prelude.Text.{Text, codes, text_eq, trim_space, is_empty, to_lower, contains}

abbrev pub Json : Type 0
Json = Text

-- The fields of `wireMessage` that the client reads.
pub record WireMessage : Type 0 where
  pub kind : Text
  pub request_id : ℕ
  pub method : Text
  pub params : Json
  pub result_type : Text
  pub result : Option Json
  pub error : Text
  pub handled_by_client_id : Text
  pub source_client_id : Text

-- The errors of `classifyError`, and those of the connection.
pub data IpcError : Type 0 where
  no_client_found : Text → IpcError
  request_failed : IpcError
  reported : Text → IpcError
  connection : Text → IpcError

-- `response`
pub record Response : Type 0 where
  pub result : Option Json
  pub err : Option IpcError
  pub handled_by_client_id : Text

-- `pendingRequest` under its id.
pub record PendingRequest : Type 0 where
  pub id : ℕ
  pub ch : ℕ
  pub broadcast_match : Option (WireMessage → Option Json)

-- A value for a channel.
pub record Delivery : Type 0 where
  pub ch : ℕ
  pub value : Response

-- The map `pending`, the counters for ids and channels, the sends that a goroutine is about to make,
-- and those that were made.
pub record Client : Type 0 where
  pub pending : List PendingRequest
  pub next_id : ℕ
  pub channels : ℕ
  pub in_flight : List Delivery
  pub sent : List Delivery

abbrev pub new_client : Client
new_client = record { pending = []; next_id = 0; channels = 0; in_flight = []; sent = [] }

-- `delete(c.pending, id)`
unfoldable pub without : ℕ → List PendingRequest → List PendingRequest
without id ps = select (λ (p : PendingRequest). not (p.id == id)) ps

-- `nextRequestID`, on a `uint64`.
unfoldable pub next_request_id : Client → ℕ
next_request_id c = (c.next_id + 1) % 2 ^ 64

-- The start of `requestResponse` and of `requestInitialized`: a new id and a new channel.
unfoldable pub register : Option (WireMessage → Option Json) → Client → Client
unfolding without next_request_id
register broadcast_match c =
    let id = next_request_id c in
    record c {
      pending =
          record { id = id; ch = c.channels; broadcast_match = broadcast_match }
          ∷ without id c.pending;
      next_id = id;
      channels = c.channels + 1;
    }

-- `deletePending`, where the channel is not used: the write failed, or the context is done.
unfoldable pub cancel : ℕ → Client → Client
unfolding without
cancel id c = record c { pending = without id c.pending }

-- `classifyError`
unfoldable pub classify_error : Text → IpcError
unfolding trim_space contains to_lower
classify_error given =
    let value = trim_space given in
    if is_empty value
    then request_failed
    else if contains (to_lower value) (codes "no-client-found")
    then no_client_found value
    else reported value

-- What `handleMessage` sends for a response.
unfoldable pub response_of : WireMessage → Response
unfolding classify_error text_eq
response_of msg =
    if text_eq msg.result_type (codes "error") || not (is_empty msg.error)
    then record {
      result = none;
      err = some (classify_error msg.error);
      handled_by_client_id = msg.handled_by_client_id;
    }
    else record { result = msg.result; err = none; handled_by_client_id = msg.handled_by_client_id }

abbrev pub deliver_to : Response → Option PendingRequest → List Delivery
deliver_to r none = []
deliver_to r (some p) = record { ch = p.ch; value = r } ∷ []

-- The end of `handleMessage`: the request is deleted, and its channel is about to be sent to.
unfoldable pub respond : WireMessage → Client → Client
unfolding without response_of
respond msg c = record c {
  pending = without msg.request_id c.pending;
  in_flight =
      c.in_flight
      ++ deliver_to (response_of msg)
          (first (λ (p : PendingRequest). p.id == msg.request_id) c.pending);
}

-- What a pending request makes of a broadcast.
abbrev pub match_of : WireMessage → PendingRequest → Option Json
match_of msg p = elim p.broadcast_match [ none ↦ none | some f ↦ f msg ]

abbrev broadcast_response : Json → Response
broadcast_response result = record { result = some result; err = none; handled_by_client_id = [] }

-- The loop of `handleBroadcast`: the requests that stay, and the deliveries.
unfoldable pub match_broadcast :
    WireMessage → List PendingRequest → List PendingRequest × List Delivery
match_broadcast msg [] = ([], [])
match_broadcast msg (p ∷ ps) =
    let (kept, deliveries) = match_broadcast msg ps in
    elim (match_of msg p) [
      | none ↦ (p ∷ kept, deliveries)
      | some result ↦ (kept, record { ch = p.ch; value = broadcast_response result } ∷ deliveries)
    ]

-- `handleBroadcast`, up to its sends.
unfoldable pub handle_broadcast : WireMessage → Client → Client
unfolding match_broadcast
handle_broadcast msg c =
    let (kept, deliveries) = match_broadcast msg c.pending in
    record c { pending = kept; in_flight = c.in_flight ++ deliveries }

-- `handleMessage`, up to its sends; the answer to a discovery changes nothing here.
unfoldable pub handle_message : WireMessage → Client → Client
unfolding handle_broadcast respond text_eq
handle_message msg c =
    if text_eq msg.kind (codes "client-discovery-request")
    then c
    else if text_eq msg.kind (codes "broadcast")
    then handle_broadcast msg c
    else if not (text_eq msg.kind (codes "response"))
    then c
    else respond msg c

abbrev pub failure : IpcError → PendingRequest → Delivery
failure e p = record {
  ch = p.ch;
  value = record { result = none; err = some e; handled_by_client_id = [] };
}

-- `failAll`, which sends under the lock.
unfoldable pub fail_all : IpcError → Client → Client
fail_all e c = record c { pending = []; sent = c.sent ++ map (failure e) c.pending }

-- The delivery number `n` of those in flight, and the others.
unfoldable pub pick : ℕ → List Delivery → Option (Delivery × List Delivery)
pick n [] = none
pick zero (d ∷ ds) = some (d, ds)
pick (suc n) (d ∷ ds) = Option.map (λ (x : Delivery × List Delivery). (x.0, d ∷ x.1)) (pick n ds)

-- One of the sends in flight is made: `ch <- response{…}`.
unfoldable pub send : ℕ → Client → Client
unfolding pick
send n c = elim (pick n c.in_flight) [
  | none ↦ c
  | some (d, ds) ↦ record c { in_flight = ds; sent = c.sent ++ d ∷ [] }
]

-- A step of any goroutine.
pub data Step : Client → Client → Type 0 where
  registers : (f : Option (WireMessage → Option Json)) (c : Client) → Step c (register f c)
  cancels : (id : ℕ) (c : Client) → Step c (cancel id c)
  handles : (msg : WireMessage) (c : Client) → Step c (handle_message msg c)
  fails : (e : IpcError) (c : Client) → Step c (fail_all e c)
  sends : (n : ℕ) (c : Client) → Step c (send n c)

-- What the client can come to, by steps in any order.
pub data Reach : Client → Type 0 where
  begins : Reach new_client
  goes : {c d : Client} → Reach c → Step c d → Reach d
