-- ===== src/Policy/RateLimiter/Calls.antt =====
-- policy/rate-limiter.ts: the check of several limits, timeouts, release, clearing and monitoring.
use runcor.Common.{
  ℕ, ◌*◌, Text, Option, none, some, List, [], ◌∷◌, ◌++◌, Bool, if◌then◌else◌, ltb, length, all,
  nat_beq, text_eq, map,
}
use runcor.Common.Dict
use runcor.Common.Dict.{Dict}
use runcor.Errors.{rate_limited}
use runcor.Policy.RateLimiter.{
  RateLimitConfig, CheckResult, QueueEntry, Settlement, rejected, RateLimiter, build_key,
  check_sync, check, Verdict, answered, resolve_entry, evict_and_count, or_nil,
}

-- The first loop of `checkMultiple`.
unfoldable pub check_all :
    List RateLimitConfig
    → Option Text
    → Text
    → ℕ
    → RateLimiter
    → List (RateLimitConfig × CheckResult) × RateLimiter
check_all [] user_id flow_name now l = ([], l)
check_all (c ∷ cs) user_id flow_name now l =
    let (result, l') = check_sync c user_id flow_name now l in
    let (results, l'') = check_all cs user_id flow_name now l' in ((c, result) ∷ results, l'')

-- The result with the highest `currentCount / limit`, the first of those; ratios are compared by
-- cross multiplication, `count / limit` being the best ratio so far.
most_restrictive : List (RateLimitConfig × CheckResult) → ℕ → ℕ → CheckResult → CheckResult
most_restrictive [] count limit best = best
most_restrictive ((c, r) ∷ rs) count limit best =
    let higher = most_restrictive rs r.current_count c.limit r in
    let same = most_restrictive rs count limit best in
    if ltb (count * c.limit) (r.current_count * limit) then higher else same

-- `Array.prototype.pop`.
unfoldable pub pop_last : List ℕ → List ℕ
pop_last [] = []
pop_last (t ∷ []) = []
pop_last (t ∷ u ∷ us) = t ∷ pop_last (u ∷ us)

store_popped : Text → List ℕ → RateLimiter → RateLimiter
store_popped key [] l = record l { entries = Dict.delete key l.entries }
store_popped key (t ∷ ts) l = record l { entries = Dict.set key (t ∷ ts) l.entries }

pop_entry : Option (List ℕ) → Text → RateLimiter → RateLimiter
unfolding store_popped pop_last
pop_entry none key l = l
pop_entry (some ts) key l = store_popped key (pop_last ts) l

-- The loop that takes back the timestamps of the limits that allowed the request.
unfoldable pub undo :
    List (RateLimitConfig × CheckResult) → Option Text → Text → RateLimiter → RateLimiter
unfolding pop_entry
undo [] user_id flow_name l = l
undo ((c, r) ∷ rs) user_id flow_name l =
    let key = build_key c user_id flow_name in
    undo rs user_id flow_name (if r.allowed then pop_entry (Dict.get key l.entries) key l else l)

abbrev pub all_allowed : List (RateLimitConfig × CheckResult) → Bool
all_allowed = all (λ cr. cr.1.allowed)

first_refused : List (RateLimitConfig × CheckResult) → Option RateLimitConfig
first_refused [] = none
first_refused ((c, r) ∷ rs) = if r.allowed then first_refused rs else some c

delegate :
    Option RateLimitConfig → Option Text → Text → ℕ → RateLimiter → Option Verdict × RateLimiter
delegate none user_id flow_name now l = (none, l)
delegate (some c) user_id flow_name now l =
    let (v, l') = check c user_id flow_name now l in (some v, l')

best_of : List (RateLimitConfig × CheckResult) → Option Verdict
unfolding most_restrictive
best_of [] = none
best_of ((c, r) ∷ rs) = some (answered (most_restrictive ((c, r) ∷ rs) 0 1 r))

-- `none` is the `undefined` that an empty list of limits gives.
unfoldable pub check_multiple :
    List RateLimitConfig → Option Text → Text → ℕ → RateLimiter → Option Verdict × RateLimiter
unfolding first_refused delegate best_of
check_multiple cs user_id flow_name now l =
    let (results, l') = check_all cs user_id flow_name now l in
    if all_allowed results
    then (best_of results, l')
    else delegate (first_refused results) user_id flow_name now (undo results user_id flow_name l')

without_ticket : ℕ → List QueueEntry → List QueueEntry
without_ticket ticket [] = []
without_ticket ticket (q ∷ qs) =
    if nat_beq q.ticket ticket then qs else q ∷ without_ticket ticket qs

-- The timer's callback of a request that still waits in the queue of `name`.
unfoldable pub on_timeout : Text → ℕ → RateLimiter → RateLimiter
unfolding without_ticket
on_timeout name ticket l = record l {
  queues = Dict.set name (without_ticket ticket (or_nil (Dict.get name l.queues))) l.queues;
  settled = l.settled ++ (ticket, rejected rate_limited) ∷ [];
}

resolve_all : List QueueEntry → ℕ → RateLimiter → RateLimiter
resolve_all [] now l = l
resolve_all (q ∷ qs) now l = resolve_all qs now (resolve_entry q now l)

release_entries : Option (List QueueEntry) → Text → ℕ → RateLimiter → RateLimiter
unfolding resolve_all
release_entries none name now l = l
release_entries (some qs) name now l =
    let l' = resolve_all qs now l in record l' { queues = Dict.delete name l'.queues }

unfoldable pub release_queued : Text → ℕ → RateLimiter → RateLimiter
unfolding release_entries
release_queued name now l = release_entries (Dict.get name l.queues) name now l

flush : List QueueEntry → List (ℕ × Settlement)
flush qs = map (λ q. (q.ticket, rejected rate_limited)) qs

flush_all : Dict Text (List QueueEntry) → List (ℕ × Settlement)
unfolding flush
flush_all [] = []
flush_all ((name, qs) ∷ m) = flush qs ++ flush_all m

unfoldable pub clear : RateLimiter → RateLimiter
unfolding flush_all
clear l = record l { entries = []; queues = []; settled = l.settled ++ flush_all l.queues }

unfoldable pub get_current_count :
    RateLimitConfig → Option Text → Text → ℕ → RateLimiter → ℕ × RateLimiter
get_current_count c user_id flow_name now l =
    evict_and_count (build_key c user_id flow_name) c.window_ms now l

unfoldable pub get_queue_depth : Text → RateLimiter → ℕ
get_queue_depth name l = length (or_nil (Dict.get name l.queues))
