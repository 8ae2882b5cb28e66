-- ===== src/DesktopIpc/Client/Once.antt =====
-- A request is answered once at most.
use codex_feishu.Prelude.{
  ℕ, zero, suc, ◌+◌, ◌≤◌, ◌≡◌, refl, Option, none, some, List, [], ◌∷◌, ◌++◌, map, arith, ltb, ◌==◌,
  if◌then◌else◌, first,
}
use mathlib.Core.Option
use codex_feishu.DesktopIpc.Client.{
  Json, WireMessage, IpcError, Response, PendingRequest, Delivery, Client, without, next_request_id,
  register, cancel, response_of, deliver_to, respond, match_broadcast, handle_broadcast,
  handle_message, failure, fail_all, pick, send, Step, registers, cancels, handles, fails, sends,
  Reach, begins, goes,
}

abbrev pending_on : ℕ → List PendingRequest → ℕ
pending_on ch [] = 0
pending_on ch (p ∷ ps) = (if p.ch == ch then 1 else 0) + pending_on ch ps

-- How many of the deliveries are for a channel.
abbrev pub deliveries_on : ℕ → List Delivery → ℕ
deliveries_on ch [] = 0
deliveries_on ch (d ∷ ds) = (if d.ch == ch then 1 else 0) + deliveries_on ch ds

-- Every value that a channel has got or may still get, and 1 for a channel that is not made yet.
abbrev load : ℕ → Client → ℕ
load ch c =
    pending_on ch c.pending
    + deliveries_on ch c.in_flight
    + deliveries_on ch c.sent
    + (if ltb ch c.channels then 0 else 1)

deliveries-append :
    (ch : ℕ) (xs ys : List Delivery)
    → deliveries_on ch (xs ++ ys) ≡ deliveries_on ch xs + deliveries_on ch ys
deliveries-append ch [] ys = omega arith
deliveries-append ch (x ∷ xs) ys = omega (arith, deliveries-append ch xs ys)

pending-without :
    (ch id : ℕ) (ps : List PendingRequest) → pending_on ch (without id ps) ≤ pending_on ch ps
unfolding without
pending-without ch id [] = omega arith
pending-without ch id (p ∷ ps) = ground (arith, pending-without ch id ps)

pending-respond :
    (ch id : ℕ) (r : Response) (ps : List PendingRequest)
    → pending_on ch (without id ps)
        + deliveries_on ch (deliver_to r (first (λ (p : PendingRequest). p.id == id) ps))
      ≤ pending_on ch ps
unfolding without
pending-respond ch id r [] = omega arith
pending-respond ch id r (p ∷ ps) =
    ground (arith, pending-respond ch id r ps, pending-without ch id ps)

pending-broadcast :
    (ch : ℕ) (msg : WireMessage) (ps : List PendingRequest)
    → pending_on ch (match_broadcast msg ps).0 + deliveries_on ch (match_broadcast msg ps).1
      ≡ pending_on ch ps
unfolding match_broadcast
pending-broadcast ch msg [] = omega arith
pending-broadcast ch msg (p ∷ ps) = ground (arith, pending-broadcast ch msg ps)

deliveries-failure :
    (ch : ℕ) (e : IpcError) (ps : List PendingRequest)
    → deliveries_on ch (map (failure e) ps) ≡ pending_on ch ps
deliveries-failure ch e [] = refl
deliveries-failure ch e (p ∷ ps) = ground (arith, deliveries-failure ch e ps)

-- What was picked and the others make up the deliveries.
abbrev Picks : ℕ → List Delivery → Option (Delivery × List Delivery) → Type 0
Picks ch ds none = Unit
Picks ch ds (some (d, rest)) = deliveries_on ch (d ∷ rest) ≡ deliveries_on ch ds

pick-Picks : (ch n : ℕ) (ds : List Delivery) → Picks ch ds (pick n ds)
unfolding pick
pick-Picks ch n [] = tt
pick-Picks ch zero (d ∷ ds) = refl
pick-Picks ch (suc n) (d ∷ ds) = more (pick n ds) (pick-Picks ch n ds)
  where
    more :
        (r : Option (Delivery × List Delivery))
        → Picks ch ds r
        → Picks ch (d ∷ ds) (Option.map (λ (x : Delivery × List Delivery). (x.0, d ∷ x.1)) r)
    more none h = tt
    more (some (x, rest)) h = omega (arith, h)

register-load :
    (ch : ℕ) (f : Option (WireMessage → Option Json)) (c : Client)
    → load ch (register f c) ≤ load ch c
unfolding register
register-load ch f c = ground (arith, pending-without ch (next_request_id c) c.pending)

handle_message-load :
    (ch : ℕ) (msg : WireMessage) (c : Client) → load ch (handle_message msg c) ≤ load ch c
unfolding handle_message respond handle_broadcast
handle_message-load ch msg c = ground (
  arith,
  pending-respond ch msg.request_id (response_of msg) c.pending,
  pending-broadcast ch msg c.pending,
  deliveries-append ch c.in_flight (match_broadcast msg c.pending).1,
  deliveries-append ch c.in_flight (
      deliver_to (response_of msg)
        (first (λ (p : PendingRequest). p.id == msg.request_id) c.pending)),
)

send-load : (ch n : ℕ) (c : Client) → load ch (send n c) ≤ load ch c
send-load ch n c = picked (pick n c.in_flight) refl (pick-Picks ch n c.in_flight)
  where
    picked :
        (r : Option (Delivery × List Delivery))
        → r ≡ pick n c.in_flight
        → Picks ch c.in_flight r
        → load ch (send n c) ≤ load ch c
    picked none e h = unfold send in ground arith
    picked (some (d, ds)) e h = unfold send in ground (arith, deliveries-append ch c.sent (d ∷ []))

-- No step adds to the load of a channel.
Step-load : (ch : ℕ) {c d : Client} → Step c d → load ch d ≤ load ch c
Step-load ch (registers f c) = register-load ch f c
Step-load ch (cancels id c) = unfold cancel in omega (arith, pending-without ch id c.pending)
Step-load ch (handles msg c) = handle_message-load ch msg c
Step-load ch (fails e c) =
    unfold fail_all in
    omega (
      arith,
      deliveries-append ch c.sent (map (failure e) c.pending),
      deliveries-failure ch e c.pending,
    )
Step-load ch (sends n c) = send-load ch n c

Reach-load : (ch : ℕ) {c : Client} → Reach c → load ch c ≤ 1
Reach-load ch begins = ground arith
Reach-load ch (goes r s) = omega (arith, Reach-load ch r, Step-load ch s)

-- Whatever requests, cancellations, messages, failures and sends are interleaved, a channel gets
-- one value at most: those that were sent to it and those that are about to be sent are one
-- together.
pub answered_once :
    (c : Client) → Reach c → (ch : ℕ) → deliveries_on ch c.sent + deliveries_on ch c.in_flight ≤ 1
answered_once c r ch = omega (arith, Reach-load ch r)
