-- ===== src/Policy/RateLimiter/Examples.antt =====
-- Limits of two requests in 100 ms for each user, and two global ones that share a log.
use runcor.Common.{
  All, ℕ, ◌+◌, ◌≤◌, ◌≡◌, refl, ◌⊎◌, Text, none, some, List, [], ◌∷◌, ◌++◌, map, true, ◌&&◌, arith,
  if◌then◌else◌, ltb, length, codes, text_eq, ◌==◌,
}
use runcor.Common.Dict
use runcor.Errors.{rate_limited}
use runcor.Policy.RateLimiter.{
  RateLimitConfig, RateLimiter, QueueEntry, resolve_entry, user, global, queue, build_key, check,
  check_sync, new, refused, pending, enqueue, drain_loop, drain_queue, evict_and_count,
  record_timestamp,
}
use runcor.Policy.RateLimiter.Calls.{check_all, check_multiple, get_current_count}
use runcor.Policy.RateLimiter.Log.{times, live, check_sync_decides}
use runcor.Policy.RateLimiter.Window.{Request, admitted, count_in, admitted-le-limit}
use runcor.Policy.RateLimiter.Queue.{
  Below, waiting, enqueue_cases, drain_loop_fifo, check_multiple_no_drain, global_limits_share_log,
}

abbrev per_user : RateLimitConfig
per_user = record {
  name = codes "per-user";
  scope = user;
  limit = 2;
  window_ms = 100;
  behavior = some queue;
  max_queue_depth = some 1;
  queue_timeout_ms = none;
  flow_name = none;
}

abbrev burst : RateLimitConfig
burst = record per_user { name = codes "burst"; scope = global; limit = 5; window_ms = 10 }

abbrev hourly : RateLimitConfig
hourly = record per_user { name = codes "hourly"; scope = global; limit = 9; window_ms = 1000 }

abbrev ann_at : ℕ → Request
ann_at now = record {
  config = per_user;
  user_id = some (codes "ann");
  flow = codes "brief";
  time = now;
}

abbrev bob_at : ℕ → Request
bob_at now = record (ann_at now) { user_id = some (codes "bob") }

abbrev ann_key : Text
ann_key = codes "ratelimit:user:ann"

abbrev traffic : List Request
traffic = ann_at 10 ∷ bob_at 20 ∷ ann_at 30 ∷ ann_at 60 ∷ ann_at 115 ∷ ann_at 120 ∷ []

admits_three : admitted ann_key new traffic ≡ 10 ∷ 30 ∷ 115 ∷ []
unfolding admitted check_sync evict_and_count record_timestamp build_key Dict.get Dict.set
    Dict.delete
admits_three = refl

admitted-le-limit_example : count_in 100 109 (admitted ann_key new traffic) ≤ 2
unfolding build_key
admitted-le-limit_example = admitted-le-limit ann_key 2 100 traffic 109 (omega arith) (
  (λ _. (refl, refl)),
  (
    (λ _. (refl, refl)),
    ((λ _. (refl, refl)), ((λ _. (refl, refl)), ((λ _. (refl, refl)), ((λ _. (refl, refl)), tt)))),
  ),
)

check_sync_decides_example :
    (check_sync per_user (some (codes "ann")) (codes "brief") 10 new).0.allowed ≡ true
unfolding Dict.get
check_sync_decides_example =
    (check_sync_decides per_user (some (codes "ann")) (codes "brief") 10 new ann_key).0

abbrev second : RateLimiter
second = (enqueue per_user (some (codes "ann")) (codes "brief") 40 new).1

abbrev ann_waits : ℕ → ℕ → QueueEntry
ann_waits ticket now = record {
  ticket = ticket;
  config = per_user;
  user_id = some (codes "ann");
  flow = codes "brief";
  enqueued_at = now;
  timeout_at = now + 30000;
}

enqueue_cases_example :
    let (v, l') = enqueue per_user (some (codes "ann")) (codes "brief") 40 new in
    let room = ltb (length (waiting new per_user.name)) 1 in
    (v ≡ (if room then pending new.next_ticket else refused rate_limited))
    × (waiting l' per_user.name ≡ (
        if room && (per_user.name == per_user.name)
        then waiting new per_user.name ++ ann_waits new.next_ticket 40 ∷ []
        else waiting new per_user.name))
    × (l'.next_ticket ≡ (if room then new.next_ticket + 1 else new.next_ticket))
    × All (Below l'.next_ticket) (waiting l' per_user.name)
    × (l'.entries ≡ new.entries)
unfolding Dict.get
enqueue_cases_example =
    enqueue_cases per_user (some (codes "ann")) (codes "brief") 40 new per_user.name tt

queue_is_full :
    (enqueue per_user (some (codes "ann")) (codes "brief") 41 second).0 ≡ refused rate_limited
unfolding enqueue Dict.get Dict.set
queue_is_full = refl

-- With queued checks a window may hold more than the limit: ann's third request waits at 12, and
-- bob's at 13, which is allowed, drains the queue under bob's own log and admits ann's.
queued_beyond_limit :
    let l1 = (check per_user (some (codes "ann")) (codes "brief") 10 new).1 in
    let l2 = (check per_user (some (codes "ann")) (codes "brief") 11 l1).1 in
    let l3 = (check per_user (some (codes "ann")) (codes "brief") 12 l2).1 in
    let l4 = (check per_user (some (codes "bob")) (codes "brief") 13 l3).1 in
    times l4 ann_key ≡ 10 ∷ 11 ∷ 13 ∷ []
unfolding check check_sync evict_and_count record_timestamp build_key enqueue drain_loop drain_queue
    resolve_entry Dict.get Dict.set Dict.delete
queued_beyond_limit = refl

abbrev waits : ℕ → QueueEntry
waits ticket = record {
  ticket = ticket;
  config = per_user;
  user_id = some (codes "ann");
  flow = codes "brief";
  enqueued_at = 40;
  timeout_at = 30040;
}

drain_loop_fifo_example :
    let (rest, l') = drain_loop per_user ann_key 50 (waits 0 ∷ waits 1 ∷ waits 2 ∷ []) new in
    (released : List QueueEntry) × (waits 0 ∷ waits 1 ∷ waits 2 ∷ [] ≡ released ++ rest)
    × (map (λ s. s.0) l'.settled ≡ map (λ q. q.ticket) released)
    × ((rest ≡ []) ⊎ (per_user.limit ≤ length (live per_user.window_ms 50 (times l' ann_key))))
drain_loop_fifo_example = drain_loop_fifo per_user ann_key 50 (waits 0 ∷ waits 1 ∷ waits 2 ∷ []) new

drains_two :
    (drain_loop per_user ann_key 50 (waits 0 ∷ waits 1 ∷ waits 2 ∷ []) new).0 ≡ waits 2 ∷ []
unfolding drain_loop evict_and_count record_timestamp build_key Dict.get Dict.set Dict.delete
    resolve_entry
drains_two = refl

check_multiple_no_drain_example :
    let l' =
      (check_multiple (per_user ∷ burst ∷ []) (some (codes "ann")) (codes "brief") 50 second).1 in
    (l'.queues ≡ second.queues) × (l'.settled ≡ second.settled)
unfolding check_all check_sync evict_and_count record_timestamp build_key enqueue Dict.get Dict.set
    Dict.delete
check_multiple_no_drain_example =
    check_multiple_no_drain (per_user ∷ burst ∷ []) (some (codes "ann")) (codes "brief") 50 second
      refl

abbrev used : RateLimiter
used = record new { entries = (codes "ratelimit:global:global", 100 ∷ 200 ∷ 300 ∷ []) ∷ [] }

-- Three requests of the last second are forgotten once the limit of 10 ms has been checked.
forgets :
    (get_current_count hourly none
      (codes "brief")
      400
      (check_sync burst none (codes "brief") 400 used).1).0
    ≡ 1
unfolding get_current_count check_sync evict_and_count record_timestamp build_key Dict.get Dict.set
    Dict.delete
forgets = refl

global_limits_share_log_example :
    (get_current_count hourly none
      (codes "brief")
      400
      (check_sync burst none (codes "brief") 400 used).1).0
    ≤ length (live burst.window_ms 400 (times used (build_key burst none (codes "brief")))) + 1
global_limits_share_log_example =
    global_limits_share_log burst hourly none none (codes "brief") (codes "brief") 400 used refl
      refl
