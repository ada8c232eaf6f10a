-- ===== src/Recovery/Timeout.antt =====
-- Which reviews `shouldRecover` of internal/engine/recovery/service.go lets through.
use verustcode.Base.{
  ℕ, ◌+◌, ◌*◌, ◌≤◌, false, none, some, ◌≡◌, ◌↔◌, ◌⊎◌, inl, inr, refl, ap, ◌∙◌, arith, Option-cases,
  ltb,
}
use verustcode.Base.Int.{ℤ, pos, sub_ℕ, scale, wrap64, wrap64-pos, ltb_ℤ, leb_ℤ, scale-pos, ◌<ℤ◌}
use verustcode.Model.{Review, ReviewStatus, pending, running, completed, failed, cancelled}
use verustcode.Recovery.{
  RecoveryConfig, should_recover, timeout_of, clamp64, or_default, hour, is_running,
}

-- The most hours whose nanoseconds an int64 holds.
abbrev pub max_hours : ℕ
max_hours = 2562047

timeout_of-hours :
    (cfg : RecoveryConfig) (h : ℕ)
    → or_default 24 cfg.task_timeout_hours ≡ pos h
    → h ≤ max_hours
    → timeout_of cfg ≡ pos (hour * h)
unfolding timeout_of
timeout_of-hours cfg h set small =
    ap wrap64 (ap (scale hour) set ∙ scale-pos hour h)
    ∙ wrap64-pos (hour * h) (omega (arith, small))

-- Holding the difference within an int64 does not change whether it exceeds such a timeout.
elapsed-exceeds :
    (now t h : ℕ)
    → h ≤ max_hours
    → ltb_ℤ (pos (hour * h)) (clamp64 (sub_ℕ now t)) ≡ ltb (t + hour * h) now
unfolding clamp64
elapsed-exceeds now t h small = ground arith

running-cases : (s : ReviewStatus) → (s ≡ running) ⊎ (is_running s ≡ false)
running-cases running = inl refl
running-cases pending = inr refl
running-cases completed = inr refl
running-cases failed = inr refl
running-cases cancelled = inr refl

-- The retries are below the limit (3 unless set), and a running review that has a start time is
-- within `h` hours of it.
pub record IsRecoverable (cfg : RecoveryConfig) (h now : ℕ) (review : Review) : Type 0 where
  pub retries : review.retry_count <ℤ or_default 3 cfg.max_retry_count
  pub in_time : (t : ℕ) → review.status ≡ running → review.started_at ≡ some t → now ≤ t + hour * h

retries-below : (a b : ℤ) → leb_ℤ b a ≡ false → a <ℤ b
retries-below a b h = ground arith

below-retries : (a b : ℤ) → a <ℤ b → leb_ℤ b a ≡ false
below-retries a b h = ground arith

module _ (cfg : RecoveryConfig) (h : ℕ) (set : or_default 24 cfg.task_timeout_hours ≡ pos h)
    (small : h ≤ max_hours) where
  late : (now t : ℕ) → ltb_ℤ (timeout_of cfg) (clamp64 (sub_ℕ now t)) ≡ ltb (t + hour * h) now
  late now t = rw (timeout_of-hours cfg h set small) (elapsed-exceeds now t h small)

  recoverable :
      (now : ℕ) (review : Review)
      → should_recover cfg now review ≡ none
      → IsRecoverable cfg h now review
  unfolding should_recover
  recoverable now review none_against = record {
    retries = retries-below review.retry_count (or_default 3 cfg.max_retry_count) (ground arith);
    in_time = λ t busy started. ground (arith, late now t);
  }

  recovers :
      (now : ℕ) (review : Review)
      → IsRecoverable cfg h now review
      → should_recover cfg now review ≡ none
  unfolding should_recover
  recovers now review ok =
      let under : leb_ℤ (or_default 3 cfg.max_retry_count) review.retry_count ≡ false =
        below-retries review.retry_count (or_default 3 cfg.max_retry_count) ok.retries in
      elim (Option-cases review.started_at) [
        | inl new ↦ rw (under, new, should_recover)
        | inr (t, started) ↦ elim (running-cases review.status) [
          | inl busy ↦
              let in_time : now ≤ t + hour * h = ok.in_time t busy started in
              rw (under, started, busy, should_recover, late now t) (ground arith)
          | inr idle ↦ rw (under, started, idle, should_recover)
        ]
      ]

  pub should_recover_iff :
      (now : ℕ) (review : Review)
      → (should_recover cfg now review ≡ none) ↔ IsRecoverable cfg h now review
  should_recover_iff now review = (recoverable now review, recovers now review)
