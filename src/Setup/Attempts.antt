-- ===== src/Setup/Attempts.antt =====
-- How the attempts end.
use freedom_box.Base.{
  ℕ, zero, suc, ◌<◌, ◌≡◌, refl, ap, ◌∙◌, Option, none, some, some-injective, Bool, true, false,
  arith,
}
use freedom_box.Setup.Dpkg.{
  Attempt, completed, temporary_failure, permanent_failure, other_exception, End, done, gave_up,
  handle_attempts, after_wait, after_attempt, attempts_loop, run_attempts,
}

module _ {R : Type 0} (attempt : R → Attempt × R) (wait : R → Bool × R) where
  -- The state after an attempt that is to be tried again and a wait that was not ended by a shutdown.
  abbrev pub waited : Bool × R → Option R
  waited (true, r) = none
  waited (false, r) = some r

  abbrev pub retried : Attempt × R → Option R
  retried (completed, r) = none
  retried (permanent_failure, r) = none
  retried (temporary_failure, r) = waited (wait r)
  retried (other_exception, r) = waited (wait r)

  abbrev pub bind : Option R → (R → Option R) → Option R
  bind none f = none
  bind (some r) f = f r

  -- `n` such attempts
  abbrev pub retries : ℕ → R → Option R
  retries zero r = some r
  retries (suc n) r = bind (retried (attempt r)) (retries n)

  after_wait-waited :
      (go : R → End × R) (x : Bool × R) (t : R)
      → waited x ≡ some t
      → after_wait attempt wait go x ≡ go t
  after_wait-waited go (true, r) t e = absurd (ground arith)
  after_wait-waited go (false, r) t e = ap go (some-injective r t e)

  after_attempt-retried :
      (go : R → End × R) (x : Attempt × R) (t : R)
      → retried x ≡ some t
      → after_attempt attempt wait go x ≡ go t
  after_attempt-retried go (completed, r) t e = absurd (ground arith)
  after_attempt-retried go (permanent_failure, r) t e = absurd (ground arith)
  after_attempt-retried go (temporary_failure, r) t e = after_wait-waited go (wait r) t e
  after_attempt-retried go (other_exception, r) t e = after_wait-waited go (wait r) t e

  bind-some :
      (o : Option R) (f : R → Option R) (t : R)
      → bind o f ≡ some t
      → (s : R) × (o ≡ some s) × (f s ≡ some t)
  bind-some none f t e = absurd (ground arith)
  bind-some (some s) f t e = (s, refl, e)

  -- After `k` retries, the loop goes on from there.
  attempts_loop-retries :
      (k n : ℕ) (r t : R)
      → retries k r ≡ some t
      → k < n
      → (m : ℕ) × (attempts_loop attempt wait n r ≡ attempts_loop attempt wait (suc m) t)
  unfolding attempts_loop
  attempts_loop-retries k zero r t e h = absurd (ground arith)
  attempts_loop-retries zero (suc n) r t e h =
      (n, ap (attempts_loop attempt wait (suc n)) (some-injective r t e))
  attempts_loop-retries (suc k) (suc n) r t e h =
      let (s, one, more) = bind-some (retried (attempt r)) (retries k) t e in
      let (m, same) = attempts_loop-retries k n s t more (omega arith) in
      (m, after_attempt-retried (attempts_loop attempt wait n) (attempt r) s one ∙ same)

  attempts_loop-gave_up :
      (n : ℕ) (r t : R) → retries n r ≡ some t → attempts_loop attempt wait n r ≡ (gave_up, t)
  unfolding attempts_loop
  attempts_loop-gave_up zero r t e = ap (λ x. (gave_up, x)) (some-injective r t e)
  attempts_loop-gave_up (suc n) r t e =
      let (s, one, more) = bind-some (retried (attempt r)) (retries n) t e in
      after_attempt-retried (attempts_loop attempt wait n) (attempt r) s one
      ∙ attempts_loop-gave_up n s t more

-- An attempt that completes, after fewer than twelve that failed for a time with waits that no
-- shutdown ended, ends the handling; after twelve such failures the handler gives up.
pub run_attempts-retries :
    {R : Type 0} (attempt : R → Attempt × R) (wait : R → Bool × R) (r t : R)
    → ((k : ℕ)
        → k < 12
        → retries attempt wait k r ≡ some t
        → (u : R) → attempt t ≡ (completed, u)
        → run_attempts attempt wait r ≡ (done, u))
      × (retries attempt wait 12 r ≡ some t → run_attempts attempt wait r ≡ (gave_up, t))
unfolding run_attempts handle_attempts
run_attempts-retries attempt wait r t = (
  λ k h e u last.
      let (m, same) = attempts_loop-retries attempt wait k 12 r t e h in
      same
      ∙ (unfold attempts_loop in
          ap (after_attempt attempt wait (attempts_loop attempt wait m)) last),
  attempts_loop-gave_up attempt wait 12 r t,
)
