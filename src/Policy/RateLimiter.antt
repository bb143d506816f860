-- ===== src/Policy/RateLimiter.antt =====
-- policy/rate-limiter.ts: the sliding window log and its queues. `now` is what `Date.now()` gives in
-- a call, one reading for its whole synchronous run. A queued promise is a ticket, and `settled` lists
-- the promises settled so far.
pub mod Calls
pub mod Log
pub mod Window
pub mod Queue
mod Examples
use runcor.Common.{
  ℕ, zero, suc, ◌+◌, ◌*◌, Text, codes, Option, none, some, List, [], ◌∷◌, ◌++◌, map, Bool, true,
  false, ◌&&◌, if◌then◌else◌, ltb, leb, length, filter_by, text_eq,
}
use runcor.Common.Dict
use runcor.Common.Dict.{Dict}
use runcor.Errors.{ErrorCode, rate_limited}

pub data Scope : Type 0 where
  user flow global : Scope

pub data Behavior : Type 0 where
  reject queue : Behavior

pub record RateLimitConfig : Type 0 where
  pub name : Text
  pub scope : Scope
  pub limit : ℕ
  pub window_ms : ℕ
  pub behavior : Option Behavior
  pub max_queue_depth : Option ℕ
  pub queue_timeout_ms : Option ℕ
  pub flow_name : Option Text

pub record CheckResult : Type 0 where
  pub allowed : Bool
  pub current_count : ℕ
  pub config_name : Text

-- A queued request: what its closures hold.
pub record QueueEntry : Type 0 where
  pub ticket : ℕ
  pub config : RateLimitConfig
  pub user_id : Option Text
  pub flow : Text
  pub enqueued_at : ℕ
  pub timeout_at : ℕ

pub data Settlement : Type 0 where
  resolved : CheckResult → Settlement
  rejected : ErrorCode → Settlement

pub record RateLimiter : Type 0 where
  pub entries : Dict Text (List ℕ)
  pub queues : Dict Text (List QueueEntry)
  pub next_ticket : ℕ
  pub settled : List (ℕ × Settlement)

abbrev pub new : RateLimiter
new = record { entries = []; queues = []; next_ticket = 0; settled = [] }

abbrev pub or_text : Option Text → Text → Text
or_text none d = d
or_text (some t) d = t

scope_key : Scope → RateLimitConfig → Option Text → Text → Text
scope_key user c user_id flow_name = codes "ratelimit:user:" ++ or_text user_id (codes "anonymous")
scope_key flow c user_id flow_name = codes "ratelimit:flow:" ++ or_text c.flow_name flow_name
scope_key global c user_id flow_name = codes "ratelimit:global:global"

unfoldable pub build_key : RateLimitConfig → Option Text → Text → Text
unfolding scope_key
build_key c user_id flow_name = scope_key c.scope c user_id flow_name

-- `ts > now - windowMs`, with the subtraction moved over.
abbrev pub is_live : ℕ → ℕ → ℕ → Bool
is_live window_ms now ts = ltb now (ts + window_ms)

-- Store what the eviction left, or drop the entry.
keep_live : Text → List ℕ → RateLimiter → ℕ × RateLimiter
keep_live key [] l = (0, record l { entries = Dict.delete key l.entries })
keep_live key (t ∷ ts) l = (length (t ∷ ts), record l { entries = Dict.set key (t ∷ ts) l.entries })

evict_entry : Option (List ℕ) → Text → ℕ → ℕ → RateLimiter → ℕ × RateLimiter
unfolding keep_live
evict_entry none key window_ms now l = (0, l)
evict_entry (some ts) key window_ms now l = keep_live key (filter_by (is_live window_ms now) ts) l

unfoldable pub evict_and_count : Text → ℕ → ℕ → RateLimiter → ℕ × RateLimiter
unfolding evict_entry
evict_and_count key window_ms now l = evict_entry (Dict.get key l.entries) key window_ms now l

abbrev pub or_nil {ℓ} : {A : Type ℓ} → Option (List A) → List A
or_nil none = []
or_nil (some xs) = xs

unfoldable pub record_timestamp : Text → ℕ → RateLimiter → RateLimiter
record_timestamp key now l = record l {
  entries = Dict.set key (or_nil (Dict.get key l.entries) ++ now ∷ []) l.entries;
}

unfoldable pub check_sync :
    RateLimitConfig → Option Text → Text → ℕ → RateLimiter → CheckResult × RateLimiter
check_sync c user_id flow_name now l =
    let key = build_key c user_id flow_name in
    let (count, l') = evict_and_count key c.window_ms now l in
    if leb c.limit count
    then (record { allowed = false; current_count = count; config_name = c.name }, l')
    else (
      record { allowed = true; current_count = count + 1; config_name = c.name },
      record_timestamp key now l',
    )

-- `entry.resolve()`.
unfoldable pub resolve_entry : QueueEntry → ℕ → RateLimiter → RateLimiter
resolve_entry q now l =
    let key = build_key q.config q.user_id q.flow in
    let (count, l') = evict_and_count key q.config.window_ms now (record_timestamp key now l) in
    record l' {
      settled =
          l'.settled
          ++ (
            q.ticket,
            resolved
                (record { allowed = true; current_count = count; config_name = q.config.name }),
          )
            ∷ [];
    }

-- The loop of `drainQueue`: the limiter behind it and what is left of the queue.
unfoldable pub drain_loop :
    RateLimitConfig → Text → ℕ → List QueueEntry → RateLimiter → List QueueEntry × RateLimiter
drain_loop c key now [] l = ([], l)
drain_loop c key now (q ∷ qs) l =
    let (count, l') = evict_and_count key c.window_ms now l in
    let rest = drain_loop c key now qs (resolve_entry q now l') in
    if leb c.limit count then (q ∷ qs, l') else rest

store_queue : Text → List QueueEntry → RateLimiter → RateLimiter
store_queue name [] l = record l { queues = Dict.delete name l.queues }
store_queue name (q ∷ qs) l = record l { queues = Dict.set name (q ∷ qs) l.queues }

drain_entries :
    List QueueEntry → RateLimitConfig → Option Text → Text → ℕ → RateLimiter → RateLimiter
unfolding store_queue
drain_entries [] c user_id flow_name now l = l
drain_entries (q ∷ qs) c user_id flow_name now l =
    let (rest, l') = drain_loop c (build_key c user_id flow_name) now (q ∷ qs) l in
    store_queue c.name rest l'

unfoldable pub drain_queue : RateLimitConfig → Option Text → Text → ℕ → RateLimiter → RateLimiter
unfolding drain_entries
drain_queue c user_id flow_name now l =
    drain_entries (or_nil (Dict.get c.name l.queues)) c user_id flow_name now l

-- What a caller of the asynchronous checks gets: an answer, an exception or a pending promise.
pub data Verdict : Type 0 where
  answered : CheckResult → Verdict
  refused : ErrorCode → Verdict
  pending : ℕ → Verdict

abbrev pub number_or : Option ℕ → ℕ → ℕ
number_or none d = d
number_or (some n) d = n

unfoldable pub enqueue :
    RateLimitConfig → Option Text → Text → ℕ → RateLimiter → Verdict × RateLimiter
enqueue c user_id flow_name now l =
    let waiting = or_nil (Dict.get c.name l.queues) in
    let entry : QueueEntry = record {
      ticket = l.next_ticket;
      config = c;
      user_id = user_id;
      flow = flow_name;
      enqueued_at = now;
      timeout_at = now + number_or c.queue_timeout_ms 30000;
    } in
    if leb (number_or c.max_queue_depth 100) (length waiting)
    then (refused rate_limited, record l { queues = Dict.set c.name waiting l.queues })
    else (
      pending l.next_ticket,
      record l {
        queues = Dict.set c.name (waiting ++ entry ∷ []) l.queues;
        next_ticket = l.next_ticket + 1;
      },
    )

-- A check that did not allow the request: `behavior` decides.
over_limit :
    Option Behavior → RateLimitConfig → Option Text → Text → ℕ → RateLimiter → Verdict × RateLimiter
over_limit (some queue) c user_id flow_name now l = enqueue c user_id flow_name now l
over_limit _ c user_id flow_name now l = (refused rate_limited, l)

unfoldable pub check :
    RateLimitConfig → Option Text → Text → ℕ → RateLimiter → Verdict × RateLimiter
unfolding over_limit
check c user_id flow_name now l =
    let (result, l') = check_sync c user_id flow_name now l in
    if result.allowed
    then (answered result, drain_queue c user_id flow_name now l')
    else over_limit c.behavior c user_id flow_name now l'
