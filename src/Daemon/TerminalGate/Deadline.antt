-- ===== src/Daemon/TerminalGate/Deadline.antt =====
-- A deferral ends: its deadline is fixed when it begins.
use codex_feishu.Prelude.{
  ℕ, ◌<◌, ◌≡◌, refl, ◌∙◌, ◌⊎◌, inl, inr, Bool, true, false, not, ◌||◌, Option, some, [], arith, ltb,
  ◌==◌, if◌then◌else◌, Bool-cases,
}
use codex_feishu.Prelude.Text.{Text, text_eq_refl}
use codex_feishu.AppServer.Snapshot.{ThreadReadSnapshot, parse_time}
use codex_feishu.Storage.State.{lookup, get_state}
use codex_feishu.Storage.State.Laws.{lookup-set_state}
use codex_feishu.Daemon.Signals.{snapshot_has_final_signal}
use codex_feishu.Daemon.TerminalGate.State.{
  accept, defer, Decision, GateState, gate, time, text, State, Env, defer_key_of,
  explicit_interrupt_key, terminal_logged_key,
}
use codex_feishu.Daemon.TerminalGate.Marks.{
  set_value, value_is_blank, has_explicit_interrupt, has_terminal_logged,
  is_direct_input_origin_turn, clear_defer, save_defer, mark_terminal_logged,
}
use codex_feishu.Daemon.TerminalGate.Decide.{
  Outcome, returns, state_or_new, expire, hold, defer_or_expire, decide_loaded, expires_of,
  completed,
}
use codex_feishu.Daemon.TerminalGate.Keys.{
  IsTurn, defer_given, explicit_given, logged_given, defer-ne-explicit, defer-ne-logged,
}
use codex_feishu.Daemon.TerminalGate.Frame.{clear_defer-other}

abbrev pub marked : Text → State → Bool
marked key st = not (value_is_blank (get_state (text []) key st))

-- A deferral with deadline `limit` is on record.
pub record IsHeld (thread turn : Text) (limit : ℕ) (st : State) : Type 0 where
  pub state : GateState
  pub found : lookup (defer_key_of thread turn) st ≡ some (gate state)
  pub deadline : parse_time state.expires_at ≡ limit

-- An explicit interrupt or a logged end of the turn is on record.
abbrev pub IsClosed : Text → Text → State → Type 0
IsClosed thread turn st =
    (marked (explicit_interrupt_key thread turn) st || marked (terminal_logged_key thread turn) st)
    ≡ true

-- The decision is no deferral past `limit`, and the turn is held until then or closed.
pub record Bounded (thread turn : Text) (limit : ℕ) (o : Outcome) : Type 0 where
  pub in_time :
      o.decision.action ≡ defer
      → (o.decision.expires_at ≡ limit) × (o.decision.last_seen_at < limit)
  pub next : IsHeld thread turn limit o.store ⊎ IsClosed thread turn o.store

pub marked_same : (k : Text) (a b : State) → lookup k a ≡ lookup k b → marked k a ≡ marked k b
unfolding get_state
marked_same k a b e = ground arith

pub expires_of-held :
    (now : ℕ) (d : Decision) (s : GateState) (limit : ℕ)
    → 0 < limit
    → parse_time s.expires_at ≡ limit
    → expires_of now d s ≡ limit
unfolding expires_of
expires_of-held now d s limit pos e = ground arith

pub parse_time-completed :
    (now : ℕ) (d : Decision) (s : GateState)
    → parse_time (completed now d s).expires_at ≡ expires_of now d s
unfolding completed expires_of parse_time
parse_time-completed now d s = ground arith

pub expire_accepts :
    (env : Env) (now : ℕ) (d : Decision) (st : State)
    → ¬ ((expire env now d st).decision.action ≡ defer)
unfolding expire
expire_accepts env now d st h = ground arith

pub not_ltb→lt : (a b : ℕ) → not (ltb a b) ≡ false → a < b
not_ltb→lt a b h = ground arith

module _ {thread turn : Text} (h : IsTurn thread turn) (env : Env) (st : State) where
  pub has_explicit-marked :
      {b : Bool}
      → has_explicit_interrupt env thread turn st ≡ some b
      → marked (explicit_interrupt_key thread turn) st ≡ b
  unfolding has_explicit_interrupt
  has_explicit-marked e = ground (arith, explicit_given h)

  pub has_logged-marked :
      {b : Bool}
      → has_terminal_logged env thread turn st ≡ some b
      → marked (terminal_logged_key thread turn) st ≡ b
  unfolding has_terminal_logged
  has_logged-marked e = ground (arith, logged_given h)

module _ {thread turn : Text} (h : IsTurn thread turn) (env : Env)
    (writes : (k : Text) → env.set_fails k ≡ false) (st : State) where
  clear_defer-Closed :
      IsClosed thread turn st → IsClosed thread turn (clear_defer env thread turn st).1
  clear_defer-Closed c =
      let x = explicit_interrupt_key thread turn in
      let l = terminal_logged_key thread turn in
      rw
        (
          marked_same x _ st (clear_defer-other env x thread turn st (defer-ne-explicit h)),
          marked_same l _ st (clear_defer-other env l thread turn st (defer-ne-logged h)),
        )
        c

  save_defer-found :
      (s : GateState)
      → lookup (defer_key_of thread turn) (save_defer env thread turn s st).1 ≡ some (gate s)
  unfolding save_defer
  save_defer-found s = ground (
    arith,
    defer_given h,
    writes (defer_key_of thread turn),
    lookup-set_state (defer_key_of thread turn) (defer_key_of thread turn) (gate s) st,
    text_eq_refl (defer_key_of thread turn),
  )

  mark_terminal_logged-marked :
      (when : ℕ)
      → marked (terminal_logged_key thread turn) (mark_terminal_logged env thread turn when st).1
        ≡ true
  unfolding mark_terminal_logged get_state value_is_blank
  mark_terminal_logged-marked when = ground (
    arith,
    logged_given h,
    writes (terminal_logged_key thread turn),
    lookup-set_state (terminal_logged_key thread turn) (terminal_logged_key thread turn)
        (time (if when == 0 then env.clock else when)) st,
    text_eq_refl (terminal_logged_key thread turn),
  )

module _ (env : Env) (writes : (k : Text) → env.set_fails k ≡ false) (now : ℕ)
    (snap : Option ThreadReadSnapshot) (d : Decision) (h : IsTurn d.thread_id d.turn_id)
    (st : State) where
  hold-Bounded :
      (s : GateState) (limit : ℕ)
      → parse_time s.expires_at ≡ limit
      → d.expires_at ≡ limit
      → d.last_seen_at < limit
      → Bounded d.thread_id d.turn_id limit (hold env now snap d s st)
  unfolding hold
  hold-Bounded s limit e x l = record {
    in_time = λ _. (x, l);
    next = inl (record { state = _; found = save_defer-found h env writes st _; deadline = e });
  }

  pub expire-Closed : IsClosed d.thread_id d.turn_id (expire env now d st).store
  unfolding expire clear_defer set_value
  expire-Closed =
      let st' = (clear_defer env d.thread_id d.turn_id st).1 in
      ground (
        arith,
        defer_given h,
        writes (defer_key_of d.thread_id d.turn_id),
        mark_terminal_logged-marked h env writes st' now,
      )

  expire-Bounded : (limit : ℕ) → Bounded d.thread_id d.turn_id limit (expire env now d st)
  expire-Bounded limit = record {
    in_time = λ e. absurd (expire_accepts env now d st e);
    next = inr expire-Closed;
  }

  pub cleared-Bounded :
      (limit : ℕ) (e : Decision)
      → IsClosed d.thread_id d.turn_id st
      → e.action ≡ accept
      → Bounded d.thread_id d.turn_id limit (returns e (clear_defer env d.thread_id d.turn_id st).1)
  cleared-Bounded limit e c a = record {
    in_time = λ x. absurd (ground arith);
    next = inr (clear_defer-Closed h env writes st c);
  }

module _ (env : Env) (writes : (k : Text) → env.set_fails k ≡ false) (now : ℕ)
    (snap : Option ThreadReadSnapshot) (d : Decision) (h : IsTurn d.thread_id d.turn_id)
    (st : State) where
  defer_or_expire-Bounded :
      (s : GateState) (limit : ℕ)
      → 0 < limit
      → parse_time s.expires_at ≡ limit
      → Bounded d.thread_id d.turn_id limit (defer_or_expire env now snap d (some s) st)
  unfolding defer_or_expire state_or_new
  defer_or_expire-Bounded s limit pos e =
      let x : expires_of now d s ≡ limit = expires_of-held now d s limit pos e in
      let y = parse_time-completed now d s ∙ x in
      elim (Bool-cases (not (ltb now (expires_of now d s)))) [
        | inl late ↦ rw late (expire-Bounded env writes now snap _ h st limit)
        | inr early ↦ rw early (
            hold-Bounded env writes now snap _ h st _ limit y x
              (omega (arith, not_ltb→lt now _ early, x)))
      ]

  pub decide_loaded-held :
      (s : GateState) (logged : Bool) (limit : ℕ)
      → 0 < limit
      → d.action ≡ accept
      → d.deferrable_interrupted ≡ true
      → snapshot_has_final_signal snap ≡ false
      → lookup (defer_key_of d.thread_id d.turn_id) st ≡ some (gate s)
      → parse_time s.expires_at ≡ limit
      → ((d.explicit_interrupt || logged) ≡ true → IsClosed d.thread_id d.turn_id st)
      → Bounded d.thread_id d.turn_id limit (decide_loaded env now snap d logged (some s) st)
  unfolding decide_loaded
  decide_loaded-held s logged limit pos a def nofinal found e close =
      elim (Bool-cases d.explicit_interrupt) [
        | inl x ↦
            simp (def, x) (cleared-Bounded env writes now snap d h st limit _ (close (rw x refl)) a)
        | inr x ↦ elim (Bool-cases logged) [
          | inl l ↦
              simp (def, x, l)
                (cleared-Bounded env writes now snap d h st limit _ (close (rw (x, l) refl)) a)
          | inr l ↦ elim (Bool-cases (is_direct_input_origin_turn env d.thread_id d.turn_id st)) [
            | inl y ↦ simp (def, x, l, y, nofinal) (defer_or_expire-Bounded s limit pos e)
            | inr y ↦
                simp (def, x, l, y)
                  (record {
                    in_time = λ z. absurd (ground arith);
                    next = inl (record { state = s; found = found; deadline = e });
                  })
          ]
        ]
      ]
