-- ===== src/Setup/Started.antt =====
-- When the setup at the start ends.
use freedom_box.Base.{
  ℕ, zero, suc, ◌+◌, ◌≡◌, ◌∙◌, refl, ap, Bool, true, false, Option, none, some, arith,
  if◌then◌else◌,
}
use freedom_box.Effect.{M}
use freedom_box.Operation.Defs.{Request}
use freedom_box.Setup.Apps.{Service}
use freedom_box.Setup.Start.{
  setup_attempt, after_setup, startup_loop, run_setup_on_startup, is_first_setup,
}

module _ {S : Type 0} (service : Service S) (launch : Request → Bool → M S (Unit {0}))
    (set_running : Bool → S → S) (sleep : S → S) where
  -- `n` attempts have failed, with no shutdown after any, and led to the second state.
  pub data Retried (first : Bool) : ℕ → S → S → Type 0 where
    start : {s : S} → Retried first 0 s s
    again :
        {n : ℕ} {s t : S}
        → (setup_attempt service launch set_running sleep first s).0 ≡ none
        → service.is_shutting_down
            (sleep (setup_attempt service launch set_running sleep first s).1)
          ≡ false
        → Retried first n (sleep (setup_attempt service launch set_running sleep first s).1) t
        → Retried first (suc n) s t

  after_setup_done :
      (go : S → Option S) (r : Option (Unit {0}) × S)
      → r.0 ≡ some tt
      → after_setup service launch set_running sleep go r ≡ some r.1
  after_setup_done go (some tt, s) e = refl
  after_setup_done go (none, s) e = absurd (ground arith)

  after_setup_failed :
      (go : S → Option S) (r : Option (Unit {0}) × S) {b : Bool}
      → r.0 ≡ none
      → service.is_shutting_down (sleep r.1) ≡ b
      → after_setup service launch set_running sleep go r
        ≡ (if b then some (sleep r.1) else go (sleep r.1))
  after_setup_failed go (some tt, s) e f = absurd (ground arith)
  after_setup_failed go (none, s) e f = rw f refl

  startup_loop-Retried :
      (first : Bool) (n more : ℕ) (s t : S)
      → Retried first n s t
      → startup_loop service launch set_running sleep first (n + more) s
        ≡ startup_loop service launch set_running sleep first more t
  unfolding startup_loop
  startup_loop-Retried first zero more s t start =
      let zero_more : 0 + more ≡ more = omega arith in
      ap (λ f. startup_loop service launch set_running sleep first f s) zero_more
  startup_loop-Retried first (suc n) more s t (again raised running rest) =
      let one_more : suc n + more ≡ suc (n + more) = omega arith in
      ap (λ f. startup_loop service launch set_running sleep first f s) one_more
      ∙ after_setup_failed (startup_loop service launch set_running sleep first (n + more))
          (setup_attempt service launch set_running sleep first s) raised running
      ∙ startup_loop-Retried first n more _ t rest

-- The setup at the start ends: after any number of attempts that failed without a shutdown, it returns
-- when the next attempt succeeds, and also when the next fails and the service is shutting down after
-- the sleep. The kind of setup, first or regular, is the one that the first attempt had.
pub run_setup_on_startup_lem :
    {S : Type 0} (service : Service S) (launch : Request → Bool → M S (Unit {0}))
    (set_running : Bool → S → S) (sleep : S → S) (n : ℕ) (s t : S)
    → let first = is_first_setup service launch s in
      let last = setup_attempt service launch set_running sleep first t in
      Retried service launch set_running sleep first n s t
      → (last.0 ≡ some tt
          → run_setup_on_startup service launch set_running sleep (n + 1) s ≡ some last.1)
        × (last.0 ≡ none
            → service.is_shutting_down (sleep last.1) ≡ true
            → run_setup_on_startup service launch set_running sleep (n + 1) s ≡ some (sleep last.1))
unfolding run_setup_on_startup startup_loop
run_setup_on_startup_lem service launch set_running sleep n s t retried =
    let first = is_first_setup service launch s in
    let loop = startup_loop-Retried service launch set_running sleep first n 1 s t retried in
    let last = setup_attempt service launch set_running sleep first t in
    let go = startup_loop service launch set_running sleep first 0 in
    (
      λ done. loop ∙ after_setup_done service launch set_running sleep go last done,
      λ raised stopping.
          loop ∙ after_setup_failed service launch set_running sleep go last raised stopping,
    )
