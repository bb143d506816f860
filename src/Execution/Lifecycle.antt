-- ===== src/Execution/Lifecycle.antt =====
-- execution.ts: what the log of transitions and the two derived timestamps say of an execution
-- after any sequence of transition requests.
use runcor.Common.{
  ap, arith, ℕ, ◌≡◌, refl, sym, ◌∙◌, ◌⊎◌, inl, inr, Text, Option, none, some, List, [], ◌∷◌, ◌++◌,
  true, false, ◌↔◌, if◌then◌else◌, Bool-cases,
}
use runcor.Errors.{Result, ok, err, ErrorCode, invalid_transition}
use runcor.Execution.{
  State, Execution, queued, allowed, is_running, is_terminal, stamp_started, create_execution,
  transition_execution,
}
use runcor.Execution.Log.{
  Chain, first_entry, is_unstarted, Chain-snoc, first_entry-snoc, allowed_terminal, Chain-live,
  or_else, allowed_live, stamp-or_else, Chain-unstarted, Chain-ended,
}

module _ {V : Type 0} where
  pub record IsWellFormed (e : Execution V) : Type 0 where
    pub chain : Chain queued e.timestamps.transitions e.state
    pub started_first : e.timestamps.started ≡ first_entry is_running e.timestamps.transitions
    pub completed_end : e.timestamps.completed ≡ first_entry is_terminal e.timestamps.transitions

  -- A caller's requests, each with the clock's time; a refused one changes nothing.
  abbrev pub after : Execution V → Result ErrorCode (Execution V) → Execution V
  after e (ok e') = e'
  after e (err c) = e

  unfoldable pub request : Execution V → List (State × ℕ) → Execution V
  request e [] = e
  request e ((s, now) ∷ rs) = request (after e (transition_execution e s now)) rs

or_else_same : (o : Option ℕ) → o ≡ or_else o o
or_else_same none = refl
or_else_same (some t) = refl

or_else_trans : (o p q : Option ℕ) → p ≡ or_else o p → q ≡ or_else p q → q ≡ or_else o q
or_else_trans none p q h k = refl
or_else_trans (some t) p q h k = k ∙ ap (λ r. or_else r q) h

stamp_kept :
    (t : State) (o : Option ℕ) (now : ℕ) → stamp_started t o now ≡ or_else o (stamp_started t o now)
unfolding stamp_started
stamp_kept t none now = refl
stamp_kept t (some s) now = ground arith

-- What an accepted transition writes.
unfoldable pub extend : {V : Type 0} → Execution V → State → ℕ → Execution V
extend e t now = record e {
  state = t;
  timestamps = record e.timestamps {
    transitions = e.timestamps.transitions ++ record { from = e.state; to = t; at = now } ∷ [];
    started = stamp_started t e.timestamps.started now;
    completed = if is_terminal t then some now else e.timestamps.completed;
  };
}

module _ {V : Type 0} where
  pub transition-cases :
      (e : Execution V) (t : State) (now : ℕ)
      → ((allowed e.state t ≡ true) × (transition_execution e t now ≡ ok (extend e t now)))
        ⊎ ((allowed e.state t ≡ false) × (transition_execution e t now ≡ err invalid_transition))
  unfolding transition_execution extend
  transition-cases e t now = elim (Bool-cases (allowed e.state t)) [
    | inl p ↦ inl (p, rw p)
    | inr p ↦ inr (p, rw p)
  ]

  pub create-IsWellFormed :
      (uuid flow key : Text) (input : V) (user : Option Text) (now : ℕ)
      → IsWellFormed (create_execution uuid flow key input user now)
  unfolding create_execution
  create-IsWellFormed uuid flow key input user now = record {
    chain = refl;
    started_first = refl;
    completed_end = refl;
  }

  pub extend-IsWellFormed :
      (e : Execution V) (t : State) (now : ℕ)
      → allowed e.state t ≡ true
      → IsWellFormed e
      → IsWellFormed (extend e t now)
  unfolding extend
  extend-IsWellFormed e t now a w = record {
    chain = Chain-snoc queued e.timestamps.transitions e.state _ w.chain refl a;
    started_first = rw (first_entry-snoc, stamp-or_else, w.started_first);
    completed_end = rw (
      first_entry-snoc,
      w.completed_end,
      Chain-live queued e.timestamps.transitions e.state w.chain (allowed_live e.state t a),
    );
  }

  after-IsWellFormed :
      (e : Execution V) (t : State) (now : ℕ)
      → IsWellFormed e
      → IsWellFormed (after e (transition_execution e t now))
  after-IsWellFormed e t now w = elim (transition-cases e t now) [
    | inl (a, eq) ↦ rw eq (extend-IsWellFormed e t now a w)
    | inr (a, eq) ↦ rw eq w
  ]

  request-IsWellFormed :
      (e : Execution V) (rs : List (State × ℕ)) → IsWellFormed e → IsWellFormed (request e rs)
  unfolding request
  request-IsWellFormed e [] w = w
  request-IsWellFormed e ((s, now) ∷ rs) w =
      request-IsWellFormed (after e (transition_execution e s now)) rs
        (after-IsWellFormed e s now w)

  -- Whatever transitions are requested of a new execution, in whatever order and at whatever
  -- times: its log leads from `queued` to its state along allowed edges, `started` is the time of
  -- the log's first entry into `running`, and `completed` that of its entry into `complete` or
  -- `failed`, each none if there was no such entry.
  pub request-create-IsWellFormed :
      (uuid flow key : Text) (input : V) (user : Option Text) (now : ℕ) (rs : List (State × ℕ))
      → IsWellFormed (request (create_execution uuid flow key input user now) rs)
  request-create-IsWellFormed uuid flow key input user now rs =
      request-IsWellFormed _ rs (create-IsWellFormed uuid flow key input user now)

  allowed_stuck :
      (e : Execution V) (t : State) (now : ℕ)
      → is_terminal e.state ≡ true
      → transition_execution e t now ≡ err invalid_transition
  allowed_stuck e t now h = elim (transition-cases e t now) [
    | inl (a, eq) ↦ cc (allowed_terminal e.state t h)
    | inr (a, eq) ↦ eq
  ]

  -- A complete or failed execution refuses every request: it stays as it is for good, its result,
  -- log and timestamps included.
  pub terminal_absorbs :
      (e : Execution V) (rs : List (State × ℕ)) → is_terminal e.state ≡ true → request e rs ≡ e
  unfolding request
  terminal_absorbs e [] h = refl
  terminal_absorbs e ((s, now) ∷ rs) h = rw (allowed_stuck e s now h) (terminal_absorbs e rs h)

module _ {V : Type 0} where
  -- A request leaves a timestamp as it is once it is set.
  stamps_kept :
      (e : Execution V) (t : State) (now : ℕ)
      → IsWellFormed e
      → let e' = after e (transition_execution e t now) in
        (e'.timestamps.started ≡ or_else e.timestamps.started e'.timestamps.started)
        × (e'.timestamps.completed ≡ or_else e.timestamps.completed e'.timestamps.completed)
  unfolding extend
  stamps_kept e t now w = elim (transition-cases e t now) [
    | inr (a, eq) ↦ rw eq (or_else_same e.timestamps.started, or_else_same e.timestamps.completed)
    | inl (a, eq) ↦
        let open_end : e.timestamps.completed ≡ none =
          w.completed_end
          ∙ Chain-live queued e.timestamps.transitions e.state w.chain (allowed_live e.state t a) in
        rw eq (stamp_kept t e.timestamps.started now, rw open_end refl)
  ]

  request_keeps :
      (e : Execution V) (rs : List (State × ℕ))
      → IsWellFormed e
      → let e' = request e rs in
        (e'.timestamps.started ≡ or_else e.timestamps.started e'.timestamps.started)
        × (e'.timestamps.completed ≡ or_else e.timestamps.completed e'.timestamps.completed)
  unfolding request
  request_keeps e [] w = (or_else_same e.timestamps.started, or_else_same e.timestamps.completed)
  request_keeps e ((t, now) ∷ rs) w =
      let e1 = after e (transition_execution e t now) in
      let (s1, c1) = stamps_kept e t now w in
      let (s2, c2) = request_keeps e1 rs (after-IsWellFormed e t now w) in
      (or_else_trans e.timestamps.started _ _ s1 s2, or_else_trans e.timestamps.completed _ _ c1 c2)

  -- Whatever transitions are requested of a new execution, and whatever others later, in whatever
  -- order and at whatever times: after the first ones, it has no `started` time only if it is queued
  -- or failed, and no `completed` time exactly while it is neither complete nor failed; and each of
  -- the two times, once it is set, is the same after the later ones, however often the execution
  -- runs again.
  pub timestamps_of_state :
      (uuid flow key : Text) (input : V) (user : Option Text) (now : ℕ)
      (rs later : List (State × ℕ))
      → let e = request (create_execution uuid flow key input user now) rs in
        let e' = request e later in
        (e.timestamps.started ≡ none → is_unstarted e.state ≡ true)
        × ((e.timestamps.completed ≡ none) ↔ (is_terminal e.state ≡ false))
        × (e'.timestamps.started ≡ or_else e.timestamps.started e'.timestamps.started)
        × (e'.timestamps.completed ≡ or_else e.timestamps.completed e'.timestamps.completed)
  timestamps_of_state uuid flow key input user now rs later =
      let e = request (create_execution uuid flow key input user now) rs in
      let w = request-create-IsWellFormed uuid flow key input user now rs in
      let (s, c) = request_keeps e later w in
      (
        λ n. Chain-unstarted queued _ e.state w.chain refl (sym w.started_first ∙ n),
        (
          λ n. Chain-ended queued _ e.state w.chain refl (sym w.completed_end ∙ n),
          λ n. w.completed_end ∙ Chain-live queued _ e.state w.chain n,
        ),
        s,
        c,
      )
