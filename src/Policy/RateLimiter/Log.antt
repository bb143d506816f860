-- ===== src/Policy/RateLimiter/Log.antt =====
-- policy/rate-limiter.ts: what each operation does to the log of every key.
use runcor.Common.{
  ℕ, ◌+◌, ◌≤◌, ◌≡◌, refl, inl, inr, Text, Option, List, [], ◌∷◌, ◌++◌, arith, if◌then◌else◌,
  Option-cases, ltb, length, filter_by, text_eq, ◌==◌, text_beq_iff,
}
use runcor.Common.Dict
use runcor.Common.Dict.{Dict, get-set, get-delete}
use runcor.Policy.RateLimiter.{
  RateLimitConfig, RateLimiter, build_key, evict_and_count, record_timestamp, check_sync, or_nil,
  is_live, keep_live,
}

-- The timestamps logged under a key.
abbrev pub times : RateLimiter → Text → List ℕ
times l key = or_nil (Dict.get key l.entries)

abbrev pub live : ℕ → ℕ → List ℕ → List ℕ
live window_ms now ts = filter_by (is_live window_ms now) ts

pub live-live : (w m n : ℕ) (ts : List ℕ) → m ≤ n → live w n (live w m ts) ≡ live w n ts
live-live w m n [] h = refl
live-live w m n (t ∷ ts) h = ground (arith, live-live w m n ts h)

keep_live-times :
    (key j : Text) (ts : List ℕ) (l : RateLimiter)
    → (times (keep_live key ts l).1 j ≡ (if key == j then ts else times l j))
      × ((keep_live key ts l).0 ≡ length ts)
unfolding keep_live
keep_live-times key j [] l = ground (arith, get-delete key j l.entries)
keep_live-times key j (t ∷ ts) l = ground (arith, get-set key j (t ∷ ts) l.entries)

-- Eviction keeps the live timestamps of its key, counts them, and leaves the other keys alone.
pub evict-times :
    (key j : Text) (w now : ℕ) (l : RateLimiter)
    → (times (evict_and_count key w now l).1 j
        ≡ (if key == j then live w now (times l j) else times l j))
      × ((evict_and_count key w now l).0 ≡ length (live w now (times l key)))
unfolding evict_and_count
evict-times key j w now l = elim (Option-cases (Dict.get key l.entries)) [
  | inl e ↦ ground (arith, text_beq_iff key j)
  | inr (ts, e) ↦ ground (arith, text_beq_iff key j, keep_live-times key j (live w now ts) l)
]

pub record-times :
    (key j : Text) (now : ℕ) (l : RateLimiter)
    → times (record_timestamp key now l) j ≡ (if key == j then times l j ++ now ∷ [] else times l j)
unfolding record_timestamp
record-times key j now l =
    ground (arith, text_beq_iff key j, get-set key j (times l key ++ now ∷ []) l.entries)

pub evict_frame :
    (key : Text) (w now : ℕ) (l : RateLimiter)
    → let l' = (evict_and_count key w now l).1 in (l'.queues ≡ l.queues) × (l'.settled ≡ l.settled)
unfolding evict_and_count keep_live
evict_frame key w now l = ground arith

pub record_frame :
    (key : Text) (now : ℕ) (l : RateLimiter)
    → let l' = record_timestamp key now l in (l'.queues ≡ l.queues) × (l'.settled ≡ l.settled)
unfolding record_timestamp
record_frame key now l = (refl, refl)

-- `checkSync` admits a request exactly while fewer than `limit` timestamps of its key lie in the
-- window that ends now, it reports that number with the admitted request counted in, it logs an
-- admitted request under its key and nothing else, and of the other timestamps it only drops those
-- of its own key that have left the window.
pub check_sync_decides :
    (c : RateLimitConfig) (user_id : Option Text) (flow_name : Text) (now : ℕ) (l : RateLimiter)
    (j : Text)
    → let key = build_key c user_id flow_name in
      let recent = live c.window_ms now (times l key) in
      let (result, l') = check_sync c user_id flow_name now l in
      (result.allowed ≡ ltb (length recent) c.limit)
      × (result.current_count ≡ (if result.allowed then length recent + 1 else length recent))
      × (times l' j ≡ (
          if key == j then (if result.allowed then recent ++ now ∷ [] else recent) else times l j))
      × (l'.queues ≡ l.queues)
      × (l'.settled ≡ l.settled)
unfolding check_sync
check_sync_decides c u f now l j =
    let key = build_key c u f in
    let l' = (evict_and_count key c.window_ms now l).1 in
    ground (
      arith,
      text_beq_iff key j,
      evict-times key j c.window_ms now l,
      evict_frame key c.window_ms now l,
      record-times key j now l',
      record_frame key now l',
    )
