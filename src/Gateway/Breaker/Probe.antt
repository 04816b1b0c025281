-- ===== src/Gateway/Breaker/Probe.antt =====
-- The probe of the breaker of crates/llm-gateway/src/failover.rs, with callers one after the
-- other.
use dds_llm_orchestrator.Base.{
  ℕ, ◌+◌, ◌≤◌, ◌<◌, ◌≡◌, refl, true, false, arith, List, [], ◌∷◌, All, if◌then◌else◌, u32,
}
use dds_llm_orchestrator.Gateway.Breaker.{
  CircuitBreaker, closed, opened, half_open, healthy, is_available, record_success, record_failure,
  health,
}

-- Callers that ask one after the other: the breaker after them, and how many were let through.
pub ask_all : List ℕ → CircuitBreaker → CircuitBreaker × ℕ
ask_all [] b = (b, 0)
ask_all (now ∷ ts) b =
    let (b', granted) = is_available now b in
    let (b'', n) = ask_all ts b' in (b'', (if granted then 1 else 0) + n)

-- While a probe is in flight nobody else is let through, and nothing changes.
pub ask_all-probing :
    (ts : List ℕ) (b : CircuitBreaker)
    → b.state ≡ half_open
    → b.probe_in_flight ≡ true
    → ask_all ts b ≡ (b, 0)
unfolding ask_all is_available
ask_all-probing [] b s p = refl
ask_all-probing (now ∷ ts) b s p = ground (arith, ask_all-probing ts b s p)

-- An open breaker lets nobody through before its time.
pub ask_all-opened :
    (ts : List ℕ) (b : CircuitBreaker)
    → b.state ≡ opened
    → All (λ now. now < b.opened_at_ms + b.reset_after) ts
    → 0 < b.reset_after
    → ask_all ts b ≡ (b, 0)
unfolding ask_all is_available
ask_all-opened [] b s early r = refl
ask_all-opened (now ∷ ts) b s (e, early) r = ground (arith, ask_all-opened ts b s early r)

-- Once the time of an open breaker has come, of any callers that ask before one of them reports,
-- exactly the first is let through, and it becomes the probe.
pub ask_all-one_probe :
    (now : ℕ) (ts : List ℕ) (b : CircuitBreaker)
    → b.state ≡ opened
    → b.probe_in_flight ≡ false
    → b.opened_at_ms + b.reset_after ≤ now
    → ask_all (now ∷ ts) b ≡ (record b { state = half_open; probe_in_flight = true }, 1)
unfolding ask_all is_available
ask_all-one_probe now ts b s p due =
    ground
      (arith, ask_all-probing ts (record b { state = half_open; probe_in_flight = true }) refl refl)

abbrev reopened : ℕ → CircuitBreaker → CircuitBreaker
reopened now b = record b {
  state = opened;
  consecutive_failures = u32 (b.consecutive_failures + 1);
  probe_in_flight = false;
  opened_at_ms = now;
}

half_open_fails :
    (now : ℕ) (b : CircuitBreaker) → b.state ≡ half_open → record_failure now b ≡ reopened now b
unfolding record_failure
half_open_fails now b s = ground arith

-- The probe decides: its success closes the breaker and clears the count, its failure opens it again
-- for a whole term from then on.
pub probe_decides :
    (now : ℕ) (ts : List ℕ) (b : CircuitBreaker)
    → b.state ≡ half_open
    → 0 < b.reset_after
    → All (λ t. t < now + b.reset_after) ts
    → ((record_success b).state ≡ closed)
      × (health (record_success b) ≡ healthy)
      × (ask_all ts (record_failure now b) ≡ (record_failure now b, 0))
unfolding record_success health
probe_decides now ts b s r early =
    (refl, refl, rw (half_open_fails now b s) (ask_all-opened ts (reopened now b) refl early r))

-- Any caller's report ends the probe, also that of one who was let through before the breaker
-- opened: if it reports a failure while the probe is in flight, then a term later a second caller is
-- let through although the first probe has not reported.
pub late_failure_frees_probe :
    (now later : ℕ) (b : CircuitBreaker)
    → b.state ≡ half_open
    → b.probe_in_flight ≡ true
    → now + b.reset_after ≤ later
    → (is_available later (record_failure now b)).1 ≡ true
unfolding is_available record_failure
late_failure_frees_probe now later b s p due = ground arith
