-- ===== src/FlagManager/Lifecycle.antt =====
-- evaluation/flag-manager.ts: what any sequence of calls does to the flags.
use runcor.Common.{
  ℕ, suc, ◌≤◌, ◌≡◌, refl, inl, inr, Text, Option, none, some, List, [], ◌∷◌, true, if◌then◌else◌,
  ◌==◌, text_eq, arith, Option-cases, nat_beq, text_beq, text_beq_iff, Bool-cases,
}
use runcor.Common.Dict
use runcor.Common.Dict.{Dict, has, get-set}
use runcor.Errors.{Result, ok, err, ErrorCode, flag_not_found, invalid_flag_transition}
use runcor.FlagManager.{
  FlagStatus, pending, reviewed, resolved, Source, HumanReviewFlag, Flags, valid_next, create_flag,
  update_found, update_flag, get_flag,
}

-- A call that changes the flags, with the time at which it is made.
pub data Call : Type 0 where
  create : (execution_id flow_name reason : Text) (source : Source) (now : ℕ) → Call
  update : (execution_id : Text) (status : FlagStatus) (now : ℕ) → Call

-- A call that throws leaves the flags as they are.
abbrev pub created : Result ErrorCode (HumanReviewFlag × Flags) → Flags → Flags
created (ok r) flags = r.1
created (err c) flags = flags

abbrev pub updated : Result ErrorCode Flags → Flags → Flags
updated (ok r) flags = r
updated (err c) flags = flags

unfoldable pub call : Call → Flags → Flags
call (create i flow reason source now) flags =
    created (create_flag i flow reason source now flags) flags
call (update i status now) flags = updated (update_flag i status now flags) flags

unfoldable pub calls : List Call → Flags → Flags
calls [] flags = flags
calls (c ∷ cs) flags = calls cs (call c flags)

abbrev pub rank : FlagStatus → ℕ
rank pending = 0
rank reviewed = 1
rank resolved = 2

-- The later flag is the earlier one, further on in its lifecycle: what it was created with stays.
abbrev pub Advances : HumanReviewFlag → HumanReviewFlag → Type 0
Advances f g =
    (rank f.status ≤ rank g.status)
    × (g.execution_id ≡ f.execution_id)
    × (g.flow_name ≡ f.flow_name)
    × (g.reason ≡ f.reason)
    × (g.source ≡ f.source)
    × (g.created_at ≡ f.created_at)

abbrev pub Kept : HumanReviewFlag → Option HumanReviewFlag → Type 0
Kept f o = (g : HumanReviewFlag) × (o ≡ some g) × Advances f g

Advances-trans : (f g h : HumanReviewFlag) → Advances f g → Advances g h → Advances f h
Advances-trans f g h a b = ground arith

Advances-refl : (f : HumanReviewFlag) → Advances f f
Advances-refl f = ground arith

create-keeps :
    (i flow reason : Text) (source : Source) (now : ℕ) (j : Text) (f : HumanReviewFlag)
    (flags : Flags)
    → get_flag j flags ≡ some f
    → get_flag j (created (create_flag i flow reason source now flags) flags) ≡ some f
unfolding create_flag get_flag has
create-keeps i flow reason source now j f flags h = elim (Option-cases (Dict.get i flags)) [
  | inl e ↦ ground (
    arith,
    text_beq_iff i j,
    get-set i j
        (record {
          execution_id = i;
          flow_name = flow;
          status = pending;
          reason = reason;
          source = source;
          created_at = now;
          updated_at = now;
        })
        flags,
    e,
    h,
  )
  | inr (g, e) ↦ ground (arith, e, h)
]

valid_next-le : (s t : FlagStatus) → valid_next s t ≡ true → rank s ≤ rank t
unfolding valid_next
valid_next-le s t h = ground arith

update-keeps :
    (i : Text) (status : FlagStatus) (now : ℕ) (j : Text) (f : HumanReviewFlag) (flags : Flags)
    → get_flag j flags ≡ some f
    → Kept f (get_flag j (updated (update_flag i status now flags) flags))
unfolding update_flag get_flag update_found
update-keeps i status now j f flags h = elim (Option-cases (Dict.get i flags)) [
  | inl e ↦ (f, ground (arith, e, h), Advances-refl f)
  | inr (g, e) ↦ elim (Bool-cases (valid_next g.status status)) [
    | inl v ↦ elim (Bool-cases (text_beq i j)) [
      | inl q ↦ (
        record g { status = status; updated_at = now },
        ground
            (arith, e, h, v, q, get-set i j (record g { status = status; updated_at = now }) flags),
        ground (arith, valid_next-le g.status status v, text_beq_iff i j, e, h, q),
      )
      | inr q ↦ (
        f,
        ground
            (arith, e, h, v, q, get-set i j (record g { status = status; updated_at = now }) flags),
        Advances-refl f,
      )
    ]
    | inr v ↦ (f, ground (arith, e, h, v), Advances-refl f)
  ]
]

call-keeps :
    (c : Call) (j : Text) (f : HumanReviewFlag) (flags : Flags)
    → get_flag j flags ≡ some f
    → Kept f (get_flag j (call c flags))
unfolding call
call-keeps (create i flow reason source now) j f flags h =
    (f, create-keeps i flow reason source now j f flags h, Advances-refl f)
call-keeps (update i status now) j f flags h = update-keeps i status now j f flags h

-- A flag outlives every sequence of calls, with or without errors: its execution still has a flag,
-- which has the same flow, reason, source and creation time and whose status has not gone back in
-- the order pending, reviewed, resolved.
pub flag_advances :
    (cs : List Call) (j : Text) (f : HumanReviewFlag) (flags : Flags)
    → get_flag j flags ≡ some f
    → Kept f (get_flag j (calls cs flags))
unfolding calls
flag_advances [] j f flags h = (f, h, Advances-refl f)
flag_advances (c ∷ cs) j f flags h =
    let k = call-keeps c j f flags h in
    let l = flag_advances cs j k.0 (call c flags) k.1 in
    (l.0, l.1, Advances-trans f k.0 l.0 k.2 l.2)

-- What an update of `i` to `status` at `now` must do, by the flag that `i` has.
abbrev pub Outcome :
    Option HumanReviewFlag → Text → FlagStatus → ℕ → Flags → Result ErrorCode Flags → Type 0
Outcome none i status now flags r = r ≡ err flag_not_found
Outcome (some f) i status now flags r =
    if nat_beq (rank status) (suc (rank f.status))
    then ((after : Flags) × (r ≡ ok after)
        × ((j : Text)
            → get_flag j after ≡ (
                if i == j
                then some (record f { status = status; updated_at = now })
                else get_flag j flags)))
    else (r ≡ err invalid_flag_transition)

valid_next-rank : (s t : FlagStatus) → valid_next s t ≡ nat_beq (rank t) (suc (rank s))
unfolding valid_next
valid_next-rank pending pending = refl
valid_next-rank pending reviewed = refl
valid_next-rank pending resolved = refl
valid_next-rank reviewed pending = refl
valid_next-rank reviewed reviewed = refl
valid_next-rank reviewed resolved = refl
valid_next-rank resolved pending = refl
valid_next-rank resolved reviewed = refl
valid_next-rank resolved resolved = refl

update_cases :
    (o : Option HumanReviewFlag) (i : Text) (status : FlagStatus) (now : ℕ) (flags : Flags)
    → Outcome o i status now flags (update_found o i status now flags)
unfolding update_found get_flag
update_cases none i status now flags = refl
update_cases (some f) i status now flags =
    elim (Bool-cases (nat_beq (rank status) (suc (rank f.status)))) [
      | inl e ↦ rw e (
        Dict.set i (record f { status = status; updated_at = now }) flags,
        ground (arith, valid_next-rank f.status status, e),
        λ j. get-set i j (record f { status = status; updated_at = now }) flags,
      )
      | inr e ↦ rw e (ground (arith, valid_next-rank f.status status, e))
    ]

-- An update of an execution without a flag throws `FLAG_NOT_FOUND`; one to any status but the one
-- right after the flag's own throws `INVALID_FLAG_TRANSITION`; any other returns, and then the flag
-- has the new status and the time of the call, its other fields are as they were, and so is the flag
-- of every other execution.
pub update_decides :
    (i : Text) (status : FlagStatus) (now : ℕ) (flags : Flags)
    → Outcome (get_flag i flags) i status now flags (update_flag i status now flags)
unfolding update_flag get_flag
update_decides i status now flags = update_cases (Dict.get i flags) i status now flags
