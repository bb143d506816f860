-- ===== src/Policy/RateLimiter/Window.antt =====
-- policy/rate-limiter.ts: the promise of a sliding window, over any sequence of checks.
use runcor.Common.{
  ℕ, ◌+◌, ◌≤◌, ◌<◌, ◌≡◌, refl, sym, ap, ◌∙◌, ◌⊎◌, inl, inr, Text, Option, List, [], ◌∷◌, ◌++◌, ◌&&◌,
  arith, if◌then◌else◌, Bool-cases, ltb, leb, length, filter_by, text_eq, ◌==◌, eq_sound,
  filter_by-append, length-append, length-filter_by-le, All,
}
use mathlib.Core.List.{append-nil, append_assoc}
use native.Mathlib.Decide.{dec_le}
use runcor.Common.Dict
use runcor.Policy.RateLimiter.{RateLimitConfig, RateLimiter, build_key, check_sync, is_live, new}
use runcor.Policy.RateLimiter.Log.{times, live, live-live, check_sync_decides}

pub record Request : Type 0 where
  pub config : RateLimitConfig
  pub user_id : Option Text
  pub flow : Text
  pub time : ℕ

abbrev pub key_of : Request → Text
key_of r = build_key r.config r.user_id r.flow

-- The times at which a sequence of checks admits a request under a key.
unfoldable pub admitted : Text → RateLimiter → List Request → List ℕ
admitted key l [] = []
admitted key l (r ∷ rs) =
    let (result, l') = check_sync r.config r.user_id r.flow r.time l in
    let rest = admitted key l' rs in
    if key_of r == key && result.allowed then r.time ∷ rest else rest

-- How many times lie in the window of length `w` that ends at `t`.
abbrev pub count_in : ℕ → ℕ → List ℕ → ℕ
count_in w t ts = length (filter_by (λ a. leb a t && ltb t (a + w)) ts)

-- The clock does not run backwards.
abbrev pub InOrder : ℕ → List Request → Type 0
InOrder now [] = Unit
InOrder now (r ∷ rs) = (now ≤ r.time) × InOrder r.time rs

-- Every request that is logged under the key is checked by the same limit and window.
abbrev pub SharesOneLimit : Text → ℕ → ℕ → Request → Type 0
SharesOneLimit key limit w r = key_of r ≡ key → (r.config.limit ≡ limit) × (r.config.window_ms ≡ w)

count_in-append :
    (w t : ℕ) (xs ys : List ℕ) → count_in w t (xs ++ ys) ≡ count_in w t xs + count_in w t ys
count_in-append w t xs ys = rw filter_by-append (length-append (filter_by _ xs) (filter_by _ ys))

-- A window that ends later than all of the log holds no more than the live part.
count_in-le-live : (w now t : ℕ) (xs : List ℕ) → now ≤ t → count_in w t xs ≤ length (live w now xs)
count_in-le-live w now t [] h = omega arith
count_in-le-live w now t (x ∷ xs) h = ground (arith, count_in-le-live w now t xs h)

too_late : (w t later : ℕ) → ¬ (later ≤ t) → count_in w t (later ∷ []) ≡ 0
too_late w t later h = ground arith

record Inv (key : Text) (limit w now : ℕ) (past : List ℕ) (l : RateLimiter) : Type 0 where
  logged : (n : ℕ) → now ≤ n → live w n (times l key) ≡ live w n past
  bounded : (t : ℕ) → count_in w t past ≤ limit

module _ (key : Text) (limit w : ℕ) where
  skip-Inv :
      {now : ℕ} {past : List ℕ} {l : RateLimiter} (l' : RateLimiter) (later : ℕ)
      → Inv key limit w now past l
      → now ≤ later
      → (times l' key ≡ times l key) ⊎ (times l' key ≡ live w later (times l key))
      → Inv key limit w later past l'
  skip-Inv {now} {past} {l} l' later v h e = record {
    logged = λ n g. elim e [
      | inl same ↦ rw same (v.logged n (omega arith))
      | inr cut ↦ rw cut (live-live w later n (times l key) g ∙ v.logged n (omega arith))
    ];
    bounded = v.bounded;
  }

  admit-Inv :
      {now : ℕ} {past : List ℕ} {l : RateLimiter} (l' : RateLimiter) (later : ℕ)
      → Inv key limit w now past l
      → now ≤ later
      → length (live w later (times l key)) < limit
      → times l' key ≡ live w later (times l key) ++ later ∷ []
      → Inv key limit w later (past ++ later ∷ []) l'
  admit-Inv {now} {past} {l} l' later v h room e = record {
    logged = λ n g.
        ap (live w n) e
        ∙ filter_by-append (is_live w n) (live w later (times l key)) (later ∷ [])
        ∙ ap (λ xs. xs ++ live w n (later ∷ []))
            (live-live w later n (times l key) g ∙ v.logged n (omega arith))
        ∙ sym (filter_by-append (is_live w n) past (later ∷ []));
    bounded = λ t. elim (dec_le later t) [
      | yes p ↦ omega (
        arith,
        count_in-append w t past (later ∷ []),
        count_in-le-live w later t past p,
        ap length (v.logged later h),
        length-filter_by-le (λ a. leb a t && ltb t (a + w)) (later ∷ []),
      )
      | no p ↦
          omega (arith, count_in-append w t past (later ∷ []), v.bounded t, too_late w t later p)
    ];
  }

  -- The check of one request keeps the invariant, with the request added to the past if admitted.
  check-Inv :
      (r : Request) (now : ℕ) (past : List ℕ) (l : RateLimiter)
      → Inv key limit w now past l
      → now ≤ r.time
      → SharesOneLimit key limit w r
      → let (result, l') = check_sync r.config r.user_id r.flow r.time l in
        Inv key limit w r.time
          (if key_of r == key && result.allowed then past ++ r.time ∷ [] else past)
          l'
  check-Inv r now past l v h s =
      let (decides, _, logs, _, _) = check_sync_decides r.config r.user_id r.flow r.time l key in
      elim (Bool-cases (key_of r == key)) [
        | inl p ↦ elim (Bool-cases (check_sync r.config r.user_id r.flow r.time l).0.allowed) [
          | inl q ↦
              rw (p, q)
                (admit-Inv _ r.time v h
                  (ground (arith, eq_sound (key_of r) key p, s (eq_sound (key_of r) key p)))
                  (ground (arith, eq_sound (key_of r) key p, s (eq_sound (key_of r) key p))))
          | inr q ↦
              rw (p, q)
                (skip-Inv _ r.time v h
                  (inr (ground (arith, eq_sound (key_of r) key p, s (eq_sound (key_of r) key p)))))
        ]
        | inr p ↦ rw p (skip-Inv _ r.time v h (inl (ground arith)))
      ]

  admitted-bounded :
      (rs : List Request) (now : ℕ) (past : List ℕ) (l : RateLimiter)
      → Inv key limit w now past l
      → InOrder now rs
      → All (SharesOneLimit key limit w) rs
      → (t : ℕ) → count_in w t (past ++ admitted key l rs) ≤ limit
  unfolding admitted
  admitted-bounded [] now past l v o s t = rw append-nil (v.bounded t)
  admitted-bounded (r ∷ rs) now past l v o s t =
      let l' = (check_sync r.config r.user_id r.flow r.time l).1 in
      let v' = check-Inv r now past l v o.0 s.0 in
      elim (Bool-cases
        (key_of r == key && (check_sync r.config r.user_id r.flow r.time l).0.allowed)) [
          | inl p ↦ rw p (
              rw (← append_assoc past (r.time ∷ []) (admitted key l' rs))
                (admitted-bounded rs r.time (past ++ r.time ∷ []) l' (rw p at v') o.1 s.1 t))
          | inr p ↦ rw p (admitted-bounded rs r.time past l' (rw p at v') o.1 s.1 t)
        ]

  -- Over any sequence of calls of `checkSync` and of no other method on a new limiter, whatever their
  -- users, flows and limits, with a clock that does not run backwards: if every call that logs under
  -- a key goes by the same limit and window, no interval of the window's length contains more
  -- admitted requests of that key than the limit.
  pub admitted-le-limit :
      (rs : List Request) (t : ℕ)
      → InOrder 0 rs
      → All (SharesOneLimit key limit w) rs
      → count_in w t (admitted key new rs) ≤ limit
  unfolding Dict.get
  admitted-le-limit rs t o s =
      admitted-bounded rs 0 [] new (record { logged = λ n h. refl; bounded = λ t. omega arith }) o s
        t
