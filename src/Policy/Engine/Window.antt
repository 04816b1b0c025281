-- ===== src/Policy/Engine/Window.antt =====
-- The rate limit of crates/policy-engine/src/engine.rs over sequences of calls.
use dds_llm_orchestrator.Base.{
  ℕ, ◌+◌, ◌-◌, ◌≤◌, ◌<◌, ◌≡◌, refl, inl, inr, String, Bool, true, arith, leb, ltb, ◌==◌,
  if◌then◌else◌, max, str_eq, eq_iff, Option, none, some, List, [], ◌∷◌, ◌++◌, length, select,
  Bool-cases,
}
use dds_llm_orchestrator.Base.Dict.{Dict, lookup, lookup-insert, lookup-remove}
use dds_llm_orchestrator.Policy.Engine.{
  LocalPolicyEngine, rate_limit_window_ms, occupied, visit, put_slot, check_rate_limit_at,
}

-- The records of a history from the start of a minute on.
recent : ℕ → List ℕ → ℕ
recent start h = length (select (λ t. leb start t) h)

recent-select :
    (start now : ℕ) (h : List ℕ)
    → 0 < start
    → now < start + rate_limit_window_ms
    → recent start (select (λ t. ltb (now - rate_limit_window_ms) t) h) ≡ recent start h
unfolding recent
recent-select start now [] s w = refl
recent-select start now (t ∷ h) s w = ground (arith, recent-select start now h s w)

recent-le : (start : ℕ) (h : List ℕ) → recent start h ≤ length h
unfolding recent
recent-le start [] = omega arith
recent-le start (t ∷ h) = ground (arith, recent-le start h)

recent-append :
    (start now : ℕ) (h : List ℕ) → start ≤ now → recent start (h ++ now ∷ []) ≡ recent start h + 1
unfolding recent
recent-append start now [] s = ground arith
recent-append start now (t ∷ h) s = ground (arith, recent-append start now h s)

recent-nil : (start : ℕ) → recent start [] ≡ 0
unfolding recent
recent-nil start = refl

-- How many more calls can pass in the minute.
budget : ℕ → ℕ → Option (List ℕ) → ℕ
budget m start none = max m 1 + 1
budget m start (some []) = max m 1
budget m start (some (t ∷ h)) =
    if recent start (t ∷ h) == 0 then max m 1 + 2 else max m 1 - recent start (t ∷ h)

abbrev count_of : Bool → ℕ
count_of b = if b then 1 else 0

occupied-budget :
    (m start now : ℕ) (t : ℕ) (h kept : List ℕ)
    → start ≤ now
    → recent start kept ≡ recent start (t ∷ h)
    → count_of (occupied m now true kept).1 + budget m start (occupied m now true kept).0
      ≤ budget m start (some (t ∷ h))
unfolding occupied budget
occupied-budget m start now t h [] s e = ground (arith, recent-nil start)
occupied-budget m start now t h (u ∷ us) s e =
    ground (arith, recent-le start (u ∷ us), recent-append start now (u ∷ us) s)

visit-budget :
    (m start now : ℕ) (slot : Option (List ℕ))
    → 0 < start
    → start ≤ now
    → now < start + rate_limit_window_ms
    → count_of (visit m now slot).1 + budget m start (visit m now slot).0 ≤ budget m start slot
unfolding visit budget
visit-budget m start now none p s w = omega arith
visit-budget m start now (some []) p s w =
    ground (arith, recent-nil start, recent-append start now [] s)
visit-budget m start now (some (t ∷ h)) p s w =
    occupied-budget m start now t h _ s (recent-select start now (t ∷ h) p w)

budget-le : (m start : ℕ) (slot : Option (List ℕ)) → budget m start slot ≤ max m 1 + 2
unfolding budget
budget-le m start none = omega arith
budget-le m start (some []) = omega arith
budget-le m start (some (t ∷ h)) = ground arith

lookup-put_slot :
    (k j : String) (slot : Option (List ℕ)) (m : Dict (List ℕ))
    → lookup j (put_slot k slot m) ≡ (if str_eq k j then slot else lookup j m)
lookup-put_slot k j none m = lookup-remove k j m
lookup-put_slot k j (some h) m = lookup-insert k j h m

-- A call of the rate limit decides and changes the entry of its own agent as `visit` says, by that
-- entry and the clock alone, and leaves every other agent's entry and the configuration as they are.
pub check_rate_limit_at-lookup :
    (a b : String) (now : ℕ) (e : LocalPolicyEngine)
    → let (e', allows) = check_rate_limit_at a now e in
      let (slot, decision) = visit e.max_calls_per_minute now (lookup a e.call_history) in
      (allows ≡ decision)
      × (lookup b e'.call_history ≡ (if str_eq a b then slot else lookup b e.call_history))
      × (e'.max_calls_per_minute ≡ e.max_calls_per_minute)
unfolding check_rate_limit_at
check_rate_limit_at-lookup a b now e = (refl, lookup-put_slot a b _ e.call_history, refl)

-- The calls of a schedule that an agent makes and that pass.
pub allowed_calls : String → List (String × ℕ) → LocalPolicyEngine → ℕ
allowed_calls a [] e = 0
allowed_calls a ((b, now) ∷ cs) e =
    let (e', allows) = check_rate_limit_at b now e in
    (if str_eq b a then count_of allows else 0) + allowed_calls a cs e'

-- Every call of the schedule falls into the minute that begins at `start`.
abbrev pub InMinute : ℕ → List (String × ℕ) → Type 0
InMinute start [] = Unit {0}
InMinute start ((a, now) ∷ cs) =
    (start ≤ now) × (now < start + rate_limit_window_ms) × InMinute start cs

check-budget :
    (a b : String) (start now : ℕ) (e : LocalPolicyEngine)
    → 0 < start
    → start ≤ now
    → now < start + rate_limit_window_ms
    → (if str_eq b a then count_of (check_rate_limit_at b now e).1 else 0)
        + budget
            (check_rate_limit_at b now e).0.max_calls_per_minute
            start
            (lookup a (check_rate_limit_at b now e).0.call_history)
      ≤ budget e.max_calls_per_minute start (lookup a e.call_history)
check-budget a b start now e p lo hi = elim (Bool-cases (str_eq b a)) [
  | inl same ↦ ground (
    arith,
    eq_iff b a,
    check_rate_limit_at-lookup b a now e,
    visit-budget e.max_calls_per_minute start now (lookup b e.call_history) p lo hi,
  )
  | inr other ↦ ground (arith, check_rate_limit_at-lookup b a now e)
]

allowed_calls-budget :
    (a : String) (start : ℕ) (cs : List (String × ℕ)) (e : LocalPolicyEngine)
    → 0 < start
    → InMinute start cs
    → allowed_calls a cs e ≤ budget e.max_calls_per_minute start (lookup a e.call_history)
unfolding allowed_calls
allowed_calls-budget a start [] e p w = omega arith
allowed_calls-budget a start ((b, now) ∷ cs) e p (lo, hi, w) =
    omega (arith, check-budget a b start now e p lo hi, allowed_calls-budget a start cs _ p w)

-- In any minute, whatever the other agents do meanwhile and whatever the history was before, at most
-- two calls of an agent pass beyond the limit (or beyond one call, where the limit is 0): the one
-- that finds the old records expired, and the one that primes the entry.
pub allowed_calls_bounded :
    (a : String) (start : ℕ) (cs : List (String × ℕ)) (e : LocalPolicyEngine)
    → 0 < start
    → InMinute start cs
    → allowed_calls a cs e ≤ max e.max_calls_per_minute 1 + 2
allowed_calls_bounded a start cs e p w = omega (
  arith,
  allowed_calls-budget a start cs e p w,
  budget-le e.max_calls_per_minute start (lookup a e.call_history),
)
