-- ===== src/Execution/Attempts.antt =====
-- Which attempt of a test counts, in harness/runner.py.
use testharness.Prelude.{
  ℕ, zero, suc, ◌+◌, ◌≤◌, ◌<◌, ◌≡◌, refl, subst, inl, inr, ◌⊎◌, true, false, Option, arith,
  Bool-cases, leb,
}
use testharness.Execution.{
  TestDef, Attempt, SloTexts, is_failed, outcome, execute_from, executor_of, Attempts, execute_test,
}

module _ (texts : SloTexts) (attempt : ℕ → Attempt) (max_duration_ms : Option ℕ) where
  -- The attempt that counts is `k`: all before it failed, and it did not or was the last one.
  abbrev pub Counts : ℕ → ℕ → ℕ → Type 0
  Counts i left k =
      (k < i + left)
      × (i ≤ k)
      × ((j : ℕ)
          → i ≤ j
          → j < k
          → is_failed texts attempt max_duration_ms (outcome texts attempt max_duration_ms j)
            ≡ true)
      × ((is_failed texts attempt max_duration_ms (outcome texts attempt max_duration_ms k) ≡ false)
          ⊎ (suc k ≡ i + left))

  first-Counts :
      (i left : ℕ)
      → (is_failed texts attempt max_duration_ms (outcome texts attempt max_duration_ms i) ≡ false)
        ⊎ (suc i ≡ i + suc left)
      → Counts i (suc left) i
  first-Counts i left h = (omega arith, omega arith, (λ j p q. absurd (omega (arith, p, q))), h)

  later-Counts :
      (i left k : ℕ)
      → is_failed texts attempt max_duration_ms (outcome texts attempt max_duration_ms i) ≡ true
      → Counts (suc i) left k
      → Counts i (suc left) k
  later-Counts i left k h c = (
    omega (arith, c.0),
    omega (arith, c.1),
    (λ j p q. elim (split j p) [
      | inl e ↦
          subst
            (λ n.
              is_failed texts attempt max_duration_ms (outcome texts attempt max_duration_ms n)
              ≡ true)
            e h
      | inr m ↦ c.2 j m q
    ]),
    elim c.3 [ inl e ↦ inl e | inr e ↦ inr (omega (arith, e)) ],
  )
    where
      split : (j : ℕ) → i ≤ j → (i ≡ j) ⊎ (suc i ≤ j)
      split j p = elim (Bool-cases (leb (suc i) j)) [
        | inl e ↦ inr (ground (arith, e))
        | inr e ↦ inl (ground (arith, e, p))
      ]

  abbrev Ends : ℕ → ℕ → Type 0
  Ends left i =
      (k : ℕ) × Counts i (suc left) k
      × (execute_from texts attempt max_duration_ms left i
          ≡ outcome texts attempt max_duration_ms k)

  pub execute_from-Ends : (left i : ℕ) → Ends left i
  unfolding execute_from
  execute_from-Ends zero i = (i, first-Counts i zero (inr (omega arith)), refl)
  execute_from-Ends (suc left) i =
      elim (Bool-cases
        (is_failed texts attempt max_duration_ms (outcome texts attempt max_duration_ms i))) [
          | inl f ↦
              let (k, c, same) = execute_from-Ends left (suc i) in
              (k, later-Counts i (suc left) k f c, rw (execute_from, f) same)
          | inr f ↦ (i, first-Counts i (suc left) (inl f), rw f)
        ]

-- The result of a test is that of the one of its 1 + retry attempts that counts, with the duration check:
-- all attempts before it failed, and it did not fail, or raised, or was the last one.
pub execute_test_lem :
    (texts : SloTexts) (attempts : Attempts) (test_def : TestDef)
    → (k : ℕ) × Counts texts
        (attempts (executor_of test_def.test_type) test_def)
        test_def.max_duration_ms
        0
        (suc test_def.retry)
        k
      × (execute_test texts attempts test_def
          ≡ outcome texts
              (attempts (executor_of test_def.test_type) test_def)
              test_def.max_duration_ms
              k)
unfolding execute_test
execute_test_lem texts attempts test_def =
    execute_from-Ends texts (attempts (executor_of test_def.test_type) test_def)
      test_def.max_duration_ms test_def.retry 0
