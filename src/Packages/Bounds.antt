-- ===== src/Packages/Bounds.antt =====
-- The wait for the package manager ends within a day.
use freedom_box.Base.{
  ℕ, zero, suc, ◌+◌, ◌*◌, ◌≤◌, ◌<◌, ◌≡◌, ◌⊎◌, inl, inr, refl, subst, Bool, true, false, Bool-cases,
  Option, some, arith, leb,
}
use freedom_box.Packages.Install.{Wait, free, timeout, wait_loop, wait_for_package_manager}

module _ (busy : ℕ → Bool) (elapsed : ℕ → ℕ) where
  -- The loop ended at its `n`-th test, and was busy at those before.
  record EndsAt (o : Option Wait) (m n : ℕ) : Type 0 where
    ordered : m ≤ n
    bounded : n ≤ 28800
    was_busy : (k : ℕ) → m ≤ k → k < n → (busy k ≡ true) × (elapsed k < 86400)
    outcome :
        ((o ≡ some free) × (busy n ≡ false))
        ⊎ ((o ≡ some timeout) × (busy n ≡ true) × (86400 ≤ elapsed n))

  module _ (paced : (n : ℕ) → 3 * n ≤ elapsed n) where
    wait_loop-EndsAt :
        (fuel n : ℕ)
        → n ≤ 28800
        → 28801 ≤ fuel + n
        → (m : ℕ) × EndsAt (wait_loop busy elapsed fuel n) n m
    unfolding wait_loop
    wait_loop-EndsAt zero n low room = absurd (omega arith)
    wait_loop-EndsAt (suc fuel) n low room = elim (Bool-cases (busy n)) [
      | inr idle ↦ (
        n,
        rw idle (record {
          ordered = omega arith;
          bounded = low;
          was_busy = λ k a b. absurd (omega arith);
          outcome = inl (refl, idle);
        }),
      )
      | inl waiting ↦ elim (Bool-cases (leb 86400 (elapsed n))) [
        | inl late ↦ (
          n,
          rw (waiting, late)
              (record {
                ordered = omega arith;
                bounded = low;
                was_busy = λ k a b. absurd (omega arith);
                outcome = inr (refl, waiting, ground arith);
              }),
        )
        | inr early ↦
            let room' : elapsed n < 86400 = ground arith in
            let (m, h) = wait_loop-EndsAt fuel (n + 1) (omega (arith, paced n)) (omega arith) in
            (
              m,
              rw (waiting, early)
                  (record {
                    ordered = omega (arith, h.ordered);
                    bounded = h.bounded;
                    was_busy = λ k a b. elim (Bool-cases (leb (n + 1) k)) [
                      | inl more ↦ h.was_busy k (ground arith) b
                      | inr here ↦
                          let same : n ≡ k = ground arith in
                          subst (λ x. (busy x ≡ true) × (elapsed x < 86400)) same (waiting, room')
                    ];
                    outcome = h.outcome;
                  }),
            )
      ]
    ]

-- When the tests are at least three seconds apart, the wait ends at one of the first 28801 tests: it
-- found the package manager free then, or it gives up then, a day or more after the start. Before that,
-- the package manager was busy, and less than a day had passed.
pub wait_for_package_manager_lem :
    (busy : ℕ → Bool) (elapsed : ℕ → ℕ)
    → ((n : ℕ) → 3 * n ≤ elapsed n)
    → (n : ℕ) × (n ≤ 28800)
      × ((k : ℕ) → k < n → (busy k ≡ true) × (elapsed k < 86400))
      × (((wait_for_package_manager busy elapsed ≡ some free) × (busy n ≡ false))
          ⊎ ((wait_for_package_manager busy elapsed ≡ some timeout)
              × (busy n ≡ true)
              × (86400 ≤ elapsed n)))
unfolding wait_for_package_manager
wait_for_package_manager_lem busy elapsed paced =
    let (n, h) = wait_loop-EndsAt busy elapsed paced 28801 0 (omega arith) (omega arith) in
    (n, h.bounded, λ k b. h.was_busy k (omega arith) b, h.outcome)
