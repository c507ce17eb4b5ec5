-- ===== src/Packages/Closure.antt =====
-- The loop ends, and what it has kept is what is reached from the packages to keep.
use freedom_box.Base.{
  ℕ, zero, suc, ◌+◌, ◌≤◌, ◌<◌, String, ◌≡◌, ◌↔◌, refl, ap, true, false, Bool-cases, inl, inr, ◌&&◌,
  ◌||◌, not, Option, some, List, [], ◌∷◌, ◌++◌, ◌==◌, eq_iff, eq_refl, arith, keep_if, contains,
  contains-append, length, length-append,
}
use freedom_box.Packages.Required.{
  IsNeeded, wanted, dependency, IsRequired, IsNeeded-IsRequired, IsRequired-IsNeeded,
}
use freedom_box.Packages.Defs.{Cache}
use freedom_box.Packages.Keep.{
  dependencies, keep_loop, keep_packages, cost, enough, OtherApp, without, filter_packages_to_keep,
}

cost-le :
    (n : String) (done : List String) (cache : Cache) → cost (n ∷ done) cache ≤ cost done cache
cost-le n done [] = omega arith
cost-le n done ((m, p) ∷ cache) = ground (arith, cost-le n done cache)

cost-dependencies :
    (n : String) (done : List String) (cache : Cache)
    → contains n done ≡ false
    → cost (n ∷ done) cache + length (dependencies cache n) ≤ cost done cache
unfolding dependencies
cost-dependencies n done [] new = omega arith
cost-dependencies n done ((m, p) ∷ cache) new = elim (Bool-cases (m == n)) [
  | inl same ↦
      let e = (eq_iff m n).0 same in
      let old = ap (λ x. contains x done) e in
      let le = cost-le n done cache in ground (arith, eq_iff n m)
  | inr other ↦ let ih = cost-dependencies n done cache new in ground (arith, eq_iff n m)
]

module _ (cache : Cache) (keep₀ : List String) where
  -- Between two rounds: what is in the set or processed is needed, the packages to keep are there, and
  -- so are the dependencies of what was processed.
  record IsPartial (keep done : List String) : Type 0 where
    sound : (x : String) → (contains x keep || contains x done) ≡ true → IsNeeded cache keep₀ x
    wanted_there :
        (x : String) → contains x keep₀ ≡ true → (contains x keep || contains x done) ≡ true
    closed :
        (x y : String)
        → contains x done ≡ true
        → contains y (dependencies cache x) ≡ true
        → (contains y keep || contains y done) ≡ true

  IsPartial-processed :
      (n : String) (keep done : List String)
      → contains n done ≡ true
      → IsPartial (n ∷ keep) done
      → IsPartial keep done
  IsPartial-processed n keep done old h = record {
    sound = λ x there. h.sound x (ground arith);
    wanted_there = λ x e. ground (arith, h.wanted_there x e, eq_iff n x, old);
    closed = λ x y e d. ground (arith, h.closed x y e d, eq_iff n y, old);
  }

  IsPartial-next :
      (n : String) (keep done : List String)
      → IsPartial (n ∷ keep) done
      → IsPartial (dependencies cache n ++ keep) (n ∷ done)
  IsPartial-next n keep done h =
      let first = h.sound n (ground (arith, eq_refl n)) in
      record {
        sound = λ x there. elim (Bool-cases (contains x (dependencies cache n))) [
          | inl e ↦ dependency first e
          | inr e ↦ h.sound x (ground (arith, contains-append x (dependencies cache n) keep))
        ];
        wanted_there = λ x e.
            ground (arith, h.wanted_there x e, contains-append x (dependencies cache n) keep);
        closed = λ x y e d. elim (Bool-cases (n == x)) [
          | inl same ↦
              let e' = ap (λ z. contains y (dependencies cache z)) ((eq_iff n x).0 same) in
              ground (arith, contains-append y (dependencies cache n) keep)
          | inr other ↦
              let old : contains x done ≡ true = ground arith in
              ground (arith, h.closed x y old d, contains-append y (dependencies cache n) keep)
        ];
      }

  -- The loop ends with the packages that are needed.
  record Closed (o : Option (List String)) : Type 0 where
    kept : List String
    ended : o ≡ some kept
    exact : (x : String) → (contains x kept ≡ true) ↔ IsNeeded cache keep₀ x

  needed-there :
      (done : List String)
      → IsPartial [] done
      → (x : String) → IsNeeded cache keep₀ x
      → contains x done ≡ true
  needed-there done h x (wanted e) = h.wanted_there x e
  needed-there done h x (dependency {m} needed e) = h.closed m x (needed-there done h m needed) e

  keep_loop-Closed :
      (fuel : ℕ) (keep done : List String)
      → length keep + cost done cache < fuel
      → IsPartial keep done
      → Closed (keep_loop cache fuel keep done)
  unfolding keep_loop
  keep_loop-Closed zero keep done room h = elim room [ ]
  keep_loop-Closed (suc fuel) [] done room h = record {
    kept = done;
    ended = refl;
    exact = λ x. (h.sound x, needed-there done h x);
  }
  keep_loop-Closed (suc fuel) (n ∷ keep) done room h = elim (Bool-cases (contains n done)) [
    | inl old ↦
        rw old
          (keep_loop-Closed fuel keep done (omega arith) (IsPartial-processed n keep done old h))
    | inr new ↦ rw new (
        keep_loop-Closed fuel (dependencies cache n ++ keep) (n ∷ done)
          (omega
            (arith, cost-dependencies n done cache new, length-append (dependencies cache n) keep))
          (IsPartial-next n keep done h))
  ]

contains-keep_if :
    (x : String) (kept packages : List String)
    → contains x (keep_if (λ n. not (contains n kept)) packages)
      ≡ (contains x packages && not (contains x kept))
contains-keep_if x kept [] = refl
contains-keep_if x kept (n ∷ packages) =
    let ih = contains-keep_if x kept packages in
    elim (Bool-cases (n == x)) [
      | inl same ↦ let e = ap (λ z. contains z kept) ((eq_iff n x).0 same) in ground (arith, same)
      | inr other ↦ ground (arith, other)
    ]

-- The packages that an uninstall leaves out of its list are found: it ends, and keeps a package in the
-- list exactly when it was there and is neither the service's, nor of a component of another app that
-- does not need setup, nor a dependency or recommendation of an installed package that is, and so on.
pub filter_packages_to_keep_lem :
    (cache : Cache) (apps : List OtherApp) (packages : List String)
    → (l : List String) × (filter_packages_to_keep cache apps packages ≡ some l)
      × ((x : String)
          → (contains x l ≡ true) ↔ ((contains x packages ≡ true) × ¬ IsRequired cache apps x))
unfolding filter_packages_to_keep
filter_packages_to_keep_lem cache apps packages =
    let keep = keep_packages apps in
    let closed = keep_loop-Closed cache keep (enough cache keep) keep [] (omega arith) (record {
      sound = λ x e. wanted (ground arith);
      wanted_there = λ x e. ground arith;
      closed = λ x y e d. absurd (ground arith);
    }) in
    (
      keep_if (λ n. not (contains n closed.kept)) packages,
      ap (without packages) closed.ended,
      λ x.
          let e = contains-keep_if x closed.kept packages in
          (
            λ h. (
              ground arith,
              λ required.
                  let needed = IsRequired-IsNeeded cache apps x required in
                  absurd (ground (arith, (closed.exact x).1 needed)),
            ),
            λ h. elim (Bool-cases (contains x closed.kept)) [
              | inl there ↦
                  absurd (h.1 (IsNeeded-IsRequired cache apps x ((closed.exact x).0 there)))
              | inr gone ↦ ground arith
            ],
          ),
    )
