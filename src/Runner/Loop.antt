-- ===== src/Runner/Loop.antt =====
-- What `RunReviewWithTracking`, internal/engine/runner/runner.go, leaves of a review.
use verustcode.Base.{
  String, true, none, some, List, [], ◌∷◌, ◌≡◌, inl, inr, refl, arith, All, All-map, All-append,
  lookup, insert, lookup-insert, Bool-cases, Option-cases, str-cases, ne_of,
}
use verustcode.Model.{Review, ReviewRule, running}
use verustcode.Dsl.Schema.{ReviewRuleConfig}
use verustcode.Runner.{
  Execution, Progress, ended_rule, new_rule, resume_rule, start_rule, run_rule, run_rules,
  is_completed,
}
use verustcode.Store.{create_rule}
use verustcode.Runner.Closing.{
  Standing, foreign, closed, waits, SameOr, ended_rule-IsClosed, execute_rule-ends,
  update_rule-SameOr,
}

-- The rows in the loop.
abbrev pub AllStanding : String → Progress → List ReviewRuleConfig → Type 0
AllStanding id p rules = All (Standing id p.existing rules) p.database.rules

module _ (env : Execution) (review : Review) (rule : ReviewRuleConfig)
    (rules : List ReviewRuleConfig) where
  -- A rule that no open row of the review is for.
  past-none :
      (ex : List (String × ReviewRule)) (r : ReviewRule)
      → lookup rule.id ex ≡ none
      → Standing review.id ex (rule ∷ rules) r
      → Standing review.id ex rules r
  past-none ex r none_there (foreign h) = foreign h
  past-none ex r none_there (closed h) = closed h
  past-none ex r none_there (waits has (inr listed)) = waits has listed
  past-none ex r none_there (waits has (inl this)) = absurd (ground arith)

  past-completed :
      (ex : List (String × ReviewRule)) (row r : ReviewRule)
      → lookup rule.id ex ≡ some row
      → is_completed row.status ≡ true
      → Standing review.id ex (rule ∷ rules) r
      → Standing review.id ex rules r
  past-completed ex row r found done (foreign h) = foreign h
  past-completed ex row r found done (closed h) = closed h
  past-completed ex row r found done (waits has (inr listed)) = waits has listed
  past-completed ex row r found done (waits has (inl this)) = closed (ground arith)

  past-resumed :
      (ex : List (String × ReviewRule)) (row row' r : ReviewRule)
      → lookup rule.id ex ≡ some row
      → Standing review.id ex (rule ∷ rules) r
      → SameOr (Standing review.id (insert rule.id row' ex) rules) row.id r
  past-resumed ex row row' r found (foreign h) = inr (foreign h)
  past-resumed ex row row' r found (closed h) = inr (closed h)
  past-resumed ex row row' r found (waits has listed) = elim (str-cases rule.id r.rule_id) [
    | inl this ↦ inl (ground arith)
    | inr other ↦ elim listed [
      | inl this ↦ absurd (ne_of rule.id r.rule_id other this)
      | inr later ↦ inr (waits (rw (lookup-insert, other) has) later)
    ]
  ]

  start_rule-AllStanding :
      (p : Progress)
      → lookup rule.id p.existing ≡ none
      → AllStanding review.id p (rule ∷ rules)
      → AllStanding review.id (start_rule env review rule p) rules
  unfolding start_rule create_rule
  start_rule-AllStanding p none_there all =
      let row = new_rule env review rule p.database.next_rule_id in
      execute_rule-ends (Standing review.id p.existing rules) row.id env rule row
        (create_rule row p.database) refl (closed (ended_rule-IsClosed env rule row))
        (All-append _ p.database.rules (row ∷ [])
          (All-map (λ r s. inr (past-none p.existing r none_there s)) p.database.rules all)
          (inl (ground arith), tt))

  resume_rule-AllStanding :
      (p : Progress) (row : ReviewRule)
      → lookup rule.id p.existing ≡ some row
      → AllStanding review.id p (rule ∷ rules)
      → AllStanding review.id (resume_rule env rule row p) rules
  unfolding resume_rule
  resume_rule-AllStanding p row found all =
      let row' = record row { status = running } in
      let Q : ReviewRule → Type 0 =
        Standing review.id (insert rule.id (ended_rule env rule row') p.existing) rules in
      execute_rule-ends Q row.id env rule row' _ refl (closed (ended_rule-IsClosed env rule row')) (
        update_rule-SameOr Q row.id row' p.database.rules refl (
          All-map (λ r s. past-resumed p.existing row (ended_rule env rule row') r found s)
            p.database.rules all))

  run_rule-AllStanding :
      (p : Progress)
      → AllStanding review.id p (rule ∷ rules)
      → AllStanding review.id (run_rule env review rule p) rules
  unfolding run_rule
  run_rule-AllStanding p all = elim (Option-cases (lookup rule.id p.existing)) [
    | inl none_there ↦ rw (none_there, run_rule) (start_rule-AllStanding p none_there all)
    | inr (row, found) ↦ elim (Bool-cases (is_completed row.status)) [
      | inl done ↦
          rw (found, done, run_rule)
            (All-map (λ r s. past-completed p.existing row r found done s) p.database.rules all)
      | inr unfinished ↦ rw (found, unfinished, run_rule) (resume_rule-AllStanding p row found all)
    ]
  ]

pub run_rules-AllStanding :
    (env : Execution) (review : Review) (rules : List ReviewRuleConfig) (p : Progress)
    → AllStanding review.id p rules
    → AllStanding review.id (run_rules env review rules p) []
unfolding run_rules
run_rules-AllStanding env review [] p all = all
run_rules-AllStanding env review (rule ∷ rules) p all =
    run_rules-AllStanding env review rules (run_rule env review rule p)
      (run_rule-AllStanding env review rule rules p all)
