-- ===== src/Policy/RateLimiter/Queue.antt =====
-- policy/rate-limiter.ts: the queues of waiting requests, and what several limits share.
use runcor.Common.{
  All, All-map, All-append, ◌<◌, ℕ, ◌+◌, ◌≤◌, ◌≡◌, refl, sym, ap, ◌∙◌, ◌⊎◌, inl, inr, Text, Option,
  List, [], ◌∷◌, ◌++◌, map, Bool, true, false, ◌&&◌, arith, if◌then◌else◌, Bool-cases, ltb, leb,
  length, text_eq, ◌==◌, length-append, length-filter_by-le, text_beq_iff, eq_refl,
}
use mathlib.Core.List.{append-nil, append_assoc, map-append}
use runcor.Common.Dict
use runcor.Common.Dict.{Dict, get-set, get-set_self}
use runcor.Errors.{rate_limited}
use runcor.Policy.RateLimiter.{
  RateLimitConfig, RateLimiter, QueueEntry, Settlement, global, record_timestamp, build_key,
  check_sync, is_live, refused, pending, or_nil, number_or, enqueue, drain_loop, resolve_entry,
  evict_and_count,
}
use runcor.Policy.RateLimiter.Calls.{check_all, check_multiple, all_allowed, get_current_count}
use runcor.Policy.RateLimiter.Log.{
  times, live, check_sync_decides, evict-times, evict_frame, record_frame, live-live,
}

abbrev pub waiting : RateLimiter → Text → List QueueEntry
waiting l name = or_nil (Dict.get name l.queues)

-- The entry that `enqueue` makes.
abbrev queued : RateLimitConfig → Option Text → Text → ℕ → RateLimiter → QueueEntry
queued c u f now l = record {
  ticket = l.next_ticket;
  config = c;
  user_id = u;
  flow = f;
  enqueued_at = now;
  timeout_at = now + number_or c.queue_timeout_ms 30000;
}

-- An entry's ticket was given out before `next`.
abbrev pub Below : ℕ → QueueEntry → Type 0
Below next q = q.ticket < next

enqueue-state :
    (c : RateLimitConfig) (user_id : Option Text) (flow_name : Text) (now : ℕ) (l : RateLimiter)
    (name : Text)
    → let (v, l') = enqueue c user_id flow_name now l in
      let room = ltb (length (waiting l c.name)) (number_or c.max_queue_depth 100) in
      (v ≡ (if room then pending l.next_ticket else refused rate_limited))
      × (waiting l' name ≡ (
          if room && (c.name == name)
          then waiting l name ++ queued c user_id flow_name now l ∷ []
          else waiting l name))
      × (l'.next_ticket ≡ (if room then l.next_ticket + 1 else l.next_ticket))
      × (l'.entries ≡ l.entries)
unfolding enqueue
enqueue-state c u f now l name =
    (ground (
      arith,
      text_beq_iff c.name name,
      get-set c.name name (waiting l c.name) l.queues,
      get-set c.name name (waiting l c.name ++ queued c u f now l ∷ []) l.queues,
    ))

-- A request that must wait joins the end of its limit's queue while fewer than `maxQueueDepth` (100
-- if it is not set) wait, with its limit, user and flow, its time and that at which it is given up,
-- `queueTimeoutMs` (30000 if it is not set) later, under the next ticket, which is used up then: so
-- the ticket is a new one if those that wait are below the next, and that stays so. Otherwise it
-- is refused with RATE_LIMITED and uses up no ticket. No other queue changes, and no log.
pub enqueue_cases :
    (c : RateLimitConfig) (user_id : Option Text) (flow_name : Text) (now : ℕ) (l : RateLimiter)
    (name : Text)
    → All (Below l.next_ticket) (waiting l name)
    → let (v, l') = enqueue c user_id flow_name now l in
      let room = ltb (length (waiting l c.name)) (number_or c.max_queue_depth 100) in
      let entry : QueueEntry = record {
        ticket = l.next_ticket;
        config = c;
        user_id = user_id;
        flow = flow_name;
        enqueued_at = now;
        timeout_at = now + number_or c.queue_timeout_ms 30000;
      } in
      (v ≡ (if room then pending l.next_ticket else refused rate_limited))
      × (waiting l' name
          ≡ (if room && (c.name == name) then waiting l name ++ entry ∷ [] else waiting l name))
      × (l'.next_ticket ≡ (if room then l.next_ticket + 1 else l.next_ticket))
      × All (Below l'.next_ticket) (waiting l' name)
      × (l'.entries ≡ l.entries)
enqueue_cases c u f now l name below =
    let (v, told, next, logs) = enqueue-state c u f now l name in
    let room = ltb (length (waiting l c.name)) (number_or c.max_queue_depth 100) in
    let kept : All (Below (l.next_ticket + 1)) (waiting l name) =
      All-map (λ q h. omega (arith, h)) (waiting l name) below in
    (
      v,
      told,
      next,
      elim (Bool-cases room) [
        | inr full ↦ rw (told, next, full) below
        | inl free ↦ elim (Bool-cases (c.name == name)) [
          | inr other ↦ rw (told, next, free, other) kept
          | inl same ↦
              rw (told, next, free, same)
                (All-append (Below (l.next_ticket + 1)) (waiting l name) (queued c u f now l ∷ [])
                  kept (omega arith, tt))
        ]
      ],
      logs,
    )

resolve-settled :
    (q : QueueEntry) (now : ℕ) (l : RateLimiter)
    → map (λ s. s.0) (resolve_entry q now l).settled ≡ map (λ s. s.0) l.settled ++ q.ticket ∷ []
unfolding resolve_entry
resolve-settled q now l =
    let key = build_key q.config q.user_id q.flow in
    let r = record_timestamp key now l in
    map-append (λ s. s.0) (evict_and_count key q.config.window_ms now r).1.settled _
    ∙ ap (λ xs. map (λ s. s.0) xs ++ q.ticket ∷ [])
        ((evict_frame key q.config.window_ms now r).1 ∙ (record_frame key now l).1)

-- What `drainQueue` releases is a front part of the queue, in its order, and it stops early only
-- when the limit is reached.
pub drain_loop_fifo :
    (c : RateLimitConfig) (key : Text) (now : ℕ) (qs : List QueueEntry) (l : RateLimiter)
    → let (rest, l') = drain_loop c key now qs l in
      (released : List QueueEntry) × (qs ≡ released ++ rest)
      × (map (λ s. s.0) l'.settled ≡ map (λ s. s.0) l.settled ++ map (λ q. q.ticket) released)
      × ((rest ≡ []) ⊎ (c.limit ≤ length (live c.window_ms now (times l' key))))
unfolding drain_loop
drain_loop_fifo c key now [] l = ([], refl, (sym (append-nil _)), inl refl)
drain_loop_fifo c key now (q ∷ qs) l =
    let (count, l') = evict_and_count key c.window_ms now l in
    let frame = (evict_frame key c.window_ms now l).1 in
    elim (Bool-cases (leb c.limit count)) [
      | inl full ↦ rw full (
        [],
        refl,
        (ground (
          arith,
          evict_frame key c.window_ms now l,
          append-nil (map (λ (s : ℕ × Settlement). s.0) l.settled),
        )),
        inr (
            ground (
              arith,
              evict-times key key c.window_ms now l,
              eq_refl key,
              live-live c.window_ms now now (times l key),
            )),
      )
      | inr room ↦
          let (released, front, told, stop) =
            drain_loop_fifo c key now qs (resolve_entry q now l') in
          rw room (
            q ∷ released,
            ap (λ xs. q ∷ xs) front,
            told
                ∙ ap (λ xs. xs ++ map (λ q. q.ticket) released)
                    (resolve-settled q now l' ∙ ap (λ xs. map (λ s. s.0) xs ++ q.ticket ∷ []) frame)
                ∙ append_assoc (map (λ s. s.0) l.settled) (q.ticket ∷ []) _,
            stop,
          )
    ]

check_all-queues :
    (cs : List RateLimitConfig) (u : Option Text) (f : Text) (now : ℕ) (l : RateLimiter)
    → ((check_all cs u f now l).1.queues ≡ l.queues)
      × ((check_all cs u f now l).1.settled ≡ l.settled)
unfolding check_all
check_all-queues [] u f now l = (refl, refl)
check_all-queues (c ∷ cs) u f now l =
    let l' = (check_sync c u f now l).1 in
    let (q, s) = check_all-queues cs u f now l' in
    let (_, _, _, q', s') = check_sync_decides c u f now l [] in (q ∙ q', s ∙ s')

-- A request that every limit allows releases no queued one: `checkMultiple`, by which the policy
-- engine checks all of its limits, leaves the queues and the promises as they are.
pub check_multiple_no_drain :
    (cs : List RateLimitConfig) (u : Option Text) (f : Text) (now : ℕ) (l : RateLimiter)
    → all_allowed (check_all cs u f now l).0 ≡ true
    → let l' = (check_multiple cs u f now l).1 in (l'.queues ≡ l.queues) × (l'.settled ≡ l.settled)
unfolding check_multiple
check_multiple_no_drain cs u f now l h = rw h (check_all-queues cs u f now l)

build_key-global :
    (c d : RateLimitConfig) (u v : Option Text) (f g : Text)
    → c.scope ≡ global
    → d.scope ≡ global
    → build_key c u f ≡ build_key d v g
unfolding build_key
build_key-global c d u v f g h k = ground arith

recent-le :
    (w w' now : ℕ) (b : Bool) (ts : List ℕ)
    → length (live w' now (if b then live w now ts ++ now ∷ [] else live w now ts))
      ≤ length (live w now ts) + 1
recent-le w w' now true ts = omega (
  arith,
  length-filter_by-le (is_live w' now) (live w now ts ++ now ∷ []),
  length-append (live w now ts) (now ∷ []),
)
recent-le w w' now false ts = omega (arith, length-filter_by-le (is_live w' now) (live w now ts))

-- Two limits of the global scope share one log. A check by one drops from the count of the other
-- whatever is older than its own window: right after it, the other limit counts at most the
-- requests within the first one's window and the present one.
pub global_limits_share_log :
    (c d : RateLimitConfig) (u v : Option Text) (f g : Text) (now : ℕ) (l : RateLimiter)
    → c.scope ≡ global
    → d.scope ≡ global
    → let l' = (check_sync c u f now l).1 in
      (get_current_count d v g now l').0
      ≤ length (live c.window_ms now (times l (build_key c u f))) + 1
unfolding get_current_count
global_limits_share_log c d u v f g now l hc hd =
    let l' = (check_sync c u f now l).1 in
    let key = build_key c u f in
    let (_, _, logs, _, _) = check_sync_decides c u f now l key in
    let r = (check_sync c u f now l).0.allowed in
    ground (
      arith,
      build_key-global c d u v f g hc hd,
      eq_refl key,
      logs,
      evict-times key key d.window_ms now l',
      recent-le c.window_ms d.window_ms now r (times l key),
    )
