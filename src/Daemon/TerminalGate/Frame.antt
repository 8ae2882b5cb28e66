-- ===== src/Daemon/TerminalGate/Frame.antt =====
-- What a decision leaves as it was in `daemon_state`.
use codex_feishu.Prelude.{
  ℕ, ◌≡◌, refl, ◌∙◌, Bool, true, false, not, Option, none, some, [], arith, ◌==◌, if◌then◌else◌,
}
use codex_feishu.Prelude.Text.{Text, text_eq, is_empty}
use codex_feishu.Daemon.Signals.{snapshot_has_final_signal, terminal_gate_snapshot_ids}
use codex_feishu.AppServer.Snapshot.{ThreadReadSnapshot}
use codex_feishu.Storage.State.{lookup}
use codex_feishu.Storage.State.Laws.{lookup-set_state}
use codex_feishu.Daemon.TerminalGate.State.{
  Decision, GateState, Value, gate, time, text, State, Env, defer_key_of, terminal_logged_key,
}
use codex_feishu.Daemon.TerminalGate.Marks.{
  set_value, is_direct_input_origin_turn, clear_defer, save_defer, mark_terminal_logged,
}
use codex_feishu.Daemon.TerminalGate.Decide.{
  Outcome, settle, expire, hold, defer_or_expire, decide_loaded, first_decision, decide_read,
  decide_turn, decide,
}

-- A key other than the two that the gate writes for the turn of `d`.
pub record IsOther (d : Decision) (key : Text) : Type 0 where
  pub not_defer : text_eq (defer_key_of d.thread_id d.turn_id) key ≡ false
  pub not_logged : text_eq (terminal_logged_key d.thread_id d.turn_id) key ≡ false

pub set_value-other :
    (env : Env) (key : Text) (st : State) (k : Text) (v : Value)
    → text_eq k key ≡ false
    → lookup key (set_value env k v st).1 ≡ lookup key st
unfolding set_value
set_value-other env key st k v h = ground (arith, lookup-set_state k key v st)

pub clear_defer-other :
    (env : Env) (key thread turn : Text) (st : State)
    → text_eq (defer_key_of thread turn) key ≡ false
    → lookup key (clear_defer env thread turn st).1 ≡ lookup key st
unfolding clear_defer
clear_defer-other env key thread turn st h =
    ground (arith, set_value-other env key st (defer_key_of thread turn) (text []))

-- What the writes of the gate for a turn keep of the table: a write of the deferral, and one of a time
-- as the logged end of the turn.
pub record Kept {ℓ} (env : Env) (thread turn : Text) (P : State → Type ℓ) : Type ℓ where
  pub by_defer :
      (v : Value) (st : State) → P st → P (set_value env (defer_key_of thread turn) v st).1
  pub by_logged :
      (t : ℕ) (st : State)
      → P st
      → P (set_value env (terminal_logged_key thread turn) (time t) st).1

module _ {ℓ} (P : State → Type ℓ) where
  if_kept : (b : Bool) (x y : Outcome) → P x.store → P y.store → P (if b then x else y).store
  if_kept true x y p q = p
  if_kept false x y p q = q

  if_kept_write :
      (b : Bool) (st : State) (w : Bool × State) → P st → P w.1 → P (if b then (true, st) else w).1
  if_kept_write true st w p q = p
  if_kept_write false st w p q = q

module _ {ℓ} (env : Env) (thread turn : Text) (P : State → Type ℓ)
    (k : Kept env thread turn P) where
  clear_defer_kept : (st : State) → P st → P (clear_defer env thread turn st).1
  unfolding clear_defer
  clear_defer_kept st p =
      if_kept_write P (is_empty (defer_key_of thread turn)) st _ p (k.by_defer (text []) st p)

  save_defer_kept : (s : GateState) (st : State) → P st → P (save_defer env thread turn s st).1
  unfolding save_defer
  save_defer_kept s st p =
      if_kept_write P (is_empty (defer_key_of thread turn)) st _ p (k.by_defer (gate s) st p)

  mark_terminal_logged_kept :
      (when : ℕ) (st : State) → P st → P (mark_terminal_logged env thread turn when st).1
  unfolding mark_terminal_logged
  mark_terminal_logged_kept when st p =
      if_kept_write P (is_empty (terminal_logged_key thread turn)) st _ p (k.by_logged _ st p)

module _ {ℓ} (env : Env) (now : ℕ) (snap : Option ThreadReadSnapshot) (P : State → Type ℓ) where
  expire_kept :
      (d : Decision) (st : State)
      → Kept env d.thread_id d.turn_id P
      → P st
      → P (expire env now d st).store
  unfolding expire
  expire_kept d st k p =
      let (cleared, st') = clear_defer env d.thread_id d.turn_id st in
      let q = clear_defer_kept env _ _ P k st p in
      if_kept P (not cleared) _ _ q (mark_terminal_logged_kept env _ _ P k now st' q)

  settle_kept :
      (d : Decision) (e : Option GateState) (st : State)
      → Kept env d.thread_id d.turn_id P
      → P st
      → P (settle env now snap d e st).store
  unfolding settle
  settle_kept d none st k p = p
  settle_kept d (some e) st k p = clear_defer_kept env _ _ P k st p

  defer_or_expire_kept :
      (d : Decision) (e : Option GateState) (st : State)
      → Kept env d.thread_id d.turn_id P
      → P st
      → P (defer_or_expire env now snap d e st).store
  unfolding defer_or_expire hold
  defer_or_expire_kept d e st k p =
      if_kept P _ _ _ (expire_kept _ st k p) (save_defer_kept env _ _ P k _ st p)

  decide_loaded_kept :
      (d : Decision) (logged : Bool) (existing : Option GateState) (st : State)
      → Kept env d.thread_id d.turn_id P
      → P st
      → P (decide_loaded env now snap d logged existing st).store
  unfolding decide_loaded
  decide_loaded_kept d logged existing st k p =
      let q = clear_defer_kept env _ _ P k st p in
      if_kept P (not d.deferrable_interrupted) _ _ (settle_kept d existing st k p) (
        if_kept P d.explicit_interrupt _ _ q (
          if_kept P logged _ _ q (
            if_kept P (not (is_direct_input_origin_turn env d.thread_id d.turn_id st)) _ _ p (
              if_kept P (snapshot_has_final_signal snap) _ _ q
                (defer_or_expire_kept d existing st k p)))))

  decide_read_kept :
      (d : Decision) (explicit logged : Option Bool) (existing : Option (Option GateState))
      (st : State)
      → Kept env d.thread_id d.turn_id P
      → P st
      → P (decide_read env now snap d explicit logged existing st).store
  unfolding decide_read
  decide_read_kept d none logged existing st k p = p
  decide_read_kept d (some e) none existing st k p = p
  decide_read_kept d (some e) (some l) none st k p = p
  decide_read_kept d (some e) (some l) (some found) st k p = decide_loaded_kept _ l found st k p

-- Whatever the writes for the turn of the snapshot keep, a decision keeps.
pub decide_kept {ℓ} :
    (env : Env) (given : ℕ) (snap : Option ThreadReadSnapshot) (P : State → Type ℓ) (st : State)
    → Kept env (terminal_gate_snapshot_ids snap).0 (terminal_gate_snapshot_ids snap).1 P
    → P st
    → P (decide env given snap st).store
unfolding decide decide_turn first_decision
decide_kept env given snap P st k p =
    if_kept P _ _ _ p
      (decide_read_kept env (if given == 0 then env.clock else given) snap P _ _ _ _ st k p)

-- A decision writes nothing in the state table but the deferral and the logged end of its own turn:
-- every other key reads as before, on every branch and for every failure of the database.
pub decide_frame :
    (env : Env) (given : ℕ) (snap : Option ThreadReadSnapshot) (st : State) (key : Text)
    → IsOther (first_decision env snap) key
    → lookup key (decide env given snap st).store ≡ lookup key st
unfolding first_decision
decide_frame env given snap st key o =
    decide_kept env given snap (λ s. lookup key s ≡ lookup key st) st
      (record {
        by_defer = λ v s e. set_value-other env key s (defer_key_of _ _) v o.not_defer ∙ e;
        by_logged =
            λ t s e. set_value-other env key s (terminal_logged_key _ _) (time t) o.not_logged ∙ e;
      })
      refl
