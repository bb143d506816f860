-- ===== src/Execution/Log.antt =====
-- execution.ts: logs of transitions as paths in the graph of `VALID_TRANSITIONS`.
use runcor.Common.{
  ℕ, ◌≤◌, ◌≡◌, refl, sym, ap, ◌∙◌, inl, inr, Option, none, some, List, [], ◌∷◌, ◌++◌, Bool, true,
  false, subst, arith, if◌then◌else◌, Bool-cases,
}
use runcor.Execution.{
  State, Transition, queued, failed, allowed, is_running, is_terminal, stamp_started,
}

-- The log leads from `s` to `t` along allowed edges.
abbrev pub Chain : State → List Transition → State → Type 0
Chain s [] t = s ≡ t
Chain s (x ∷ xs) t = (x.from ≡ s) × (allowed x.from x.to ≡ true) × Chain x.to xs t

-- When the log first enters a state that passes the test.
abbrev pub first_entry : (State → Bool) → List Transition → Option ℕ
first_entry p [] = none
first_entry p (x ∷ xs) = if p x.to then some x.at else first_entry p xs

abbrev pub Ascending : ℕ → List Transition → ℕ → Type 0
Ascending lo [] hi = lo ≤ hi
Ascending lo (x ∷ xs) hi = (lo ≤ x.at) × Ascending x.at xs hi

abbrev pub or_else : Option ℕ → Option ℕ → Option ℕ
or_else none y = y
or_else (some x) y = some x

pub Chain-snoc :
    (s : State) (xs : List Transition) (t : State) (x : Transition)
    → Chain s xs t
    → x.from ≡ t
    → allowed x.from x.to ≡ true
    → Chain s (xs ++ x ∷ []) x.to
Chain-snoc s [] t x c f a = (f ∙ sym c, a, refl)
Chain-snoc s (y ∷ ys) t x c f a = (c.0, c.1, Chain-snoc y.to ys t x c.2 f a)

pub first_entry-snoc :
    (p : State → Bool) (xs : List Transition) (x : Transition)
    → first_entry p (xs ++ x ∷ []) ≡ or_else (first_entry p xs) (if p x.to then some x.at else none)
first_entry-snoc p [] x = refl
first_entry-snoc p (y ∷ ys) x = elim (Bool-cases (p y.to)) [
  | inl e ↦ rw e
  | inr e ↦ rw e (first_entry-snoc p ys x)
]

pub allowed_terminal : (s t : State) → is_terminal s ≡ true → allowed s t ≡ false
unfolding allowed
allowed_terminal s t h = ground arith

pub Chain-terminal :
    (s : State) (xs : List Transition) (t : State) → Chain s xs t → is_terminal s ≡ true → xs ≡ []
Chain-terminal s [] t c h = refl
Chain-terminal s (x ∷ xs) t c h = cc (c.1, allowed_terminal x.from x.to (ap is_terminal c.0 ∙ h))

-- A log that ends in a live state has entered no terminal one.
pub Chain-live :
    (s : State) (xs : List Transition) (t : State)
    → Chain s xs t
    → is_terminal t ≡ false
    → first_entry is_terminal xs ≡ none
Chain-live s [] t c h = refl
Chain-live s (x ∷ xs) t c h = elim (Bool-cases (is_terminal x.to)) [
  | inl e ↦
      let end : x.to ≡ t = subst (λ l. Chain x.to l t) (Chain-terminal x.to xs t c.2 e) c.2 in
      cc (ap is_terminal end)
  | inr e ↦ rw e (Chain-live x.to xs t c.2 h)
]

pub allowed_live : (s t : State) → allowed s t ≡ true → is_terminal s ≡ false
unfolding allowed
allowed_live s t h = ground arith

pub stamp-or_else :
    (t : State) (o : Option ℕ) (now : ℕ)
    → stamp_started t o now ≡ or_else o (if is_running t then some now else none)
unfolding stamp_started
stamp-or_else t o now = ground arith

-- The states that an execution can be in before it first runs.
abbrev pub is_unstarted : State → Bool
is_unstarted queued = true
is_unstarted failed = true
is_unstarted _ = false

pub allowed_unstarted :
    (s t : State)
    → allowed s t ≡ true
    → is_unstarted s ≡ true
    → is_running t ≡ false
    → is_unstarted t ≡ true
unfolding allowed
allowed_unstarted s t a u r = ground arith

pub Chain-unstarted :
    (s : State) (xs : List Transition) (t : State)
    → Chain s xs t
    → is_unstarted s ≡ true
    → first_entry is_running xs ≡ none
    → is_unstarted t ≡ true
Chain-unstarted s [] t c u n = ap is_unstarted (sym c) ∙ u
Chain-unstarted s (x ∷ xs) t c u n = elim (Bool-cases (is_running x.to)) [
  | inl r ↦ (let q : some x.at ≡ none = rw r at n in cc)
  | inr r ↦
      Chain-unstarted x.to xs t c.2 (allowed_unstarted x.from x.to c.1 (ap is_unstarted c.0 ∙ u) r)
        (rw r at n)
]

pub Chain-ended :
    (s : State) (xs : List Transition) (t : State)
    → Chain s xs t
    → is_terminal s ≡ false
    → first_entry is_terminal xs ≡ none
    → is_terminal t ≡ false
Chain-ended s [] t c u n = ap is_terminal (sym c) ∙ u
Chain-ended s (x ∷ xs) t c u n = elim (Bool-cases (is_terminal x.to)) [
  | inl r ↦ (let q : some x.at ≡ none = rw r at n in cc)
  | inr r ↦ Chain-ended x.to xs t c.2 r (rw r at n)
]
