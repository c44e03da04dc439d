-- ===== src/Reconciliation/Runs.antt =====
-- internal/reconciliation/engine.go: what a run stores, and how it ends.
use mathlib.Core.List.{append_assoc, append-nil}
use go_be_arbitrage.Prelude.{
  ℕ, suc, ◌+◌, ◌<◌, ◌≡◌, ◌≢◌, ◌↔◌, refl, ap, sym, ◌∙◌, Bool, true, false, none, some, List, [], ◌∷◌,
  ◌++◌, arith, ◌⊎◌, inl, inr, Bool-cases, length, take, if◌then◌else◌,
}
use go_be_arbitrage.Floats.{Float}
use go_be_arbitrage.Reconciliation.Model.{
  running, matched, BalanceState, PositionState, ReconciliationItem, ReconciliationRun,
}
use go_be_arbitrage.Reconciliation.Comparator.{summarize_items, overall_status, tallies}
use go_be_arbitrage.Reconciliation.Engine.{
  Adapter, Internal, Store, create_item_failed, balance_items, position_items, items_of, find_run,
  finish_run, is_running, create_items, update_run_status, store_results, check_run, run_checks,
}
use go_be_arbitrage.Reconciliation.Summary.{AllMatch, overall_status_iff, items_of-NoneUnresolved}

-- The rows of a run's items.
abbrev pub rows : {F : Type 0} → ℕ → List (ReconciliationItem F) → List (ℕ × ReconciliationItem F)
rows run_id [] = []
rows run_id (x ∷ xs) = (run_id, x) ∷ rows run_id xs

module _ {F : Type 0} (down : ℕ → Bool) where
  -- Either all rows were added, or those before the one that the server refused.
  abbrev Created : ℕ → List (ReconciliationItem F) → Store F → Store F × Bool → Type 0
  Created run_id xs s r =
      (r.0.runs ≡ s.runs)
      × (((r.1 ≡ true) × (r.0.items ≡ s.items ++ rows run_id xs))
          ⊎ ((r.1 ≡ false)
              × ((n : ℕ) × (n < length xs) × (r.0.items ≡ s.items ++ rows run_id (take n xs)))))

  Created-cons :
      (run_id : ℕ) (x : ReconciliationItem F) (xs : List (ReconciliationItem F)) (s s' : Store F)
      (r : Store F × Bool)
      → s'.runs ≡ s.runs
      → s'.items ≡ s.items ++ (run_id, x) ∷ []
      → Created run_id xs s' r
      → Created run_id (x ∷ xs) s r
  Created-cons run_id x xs s s' r same_runs added (k, inl (ok, h)) =
      (k ∙ same_runs, inl (ok, h ∙ rw (added, append_assoc) refl))
  Created-cons run_id x xs s s' r same_runs added (k, inr (bad, (n, l, h))) =
      (k ∙ same_runs, inr (bad, (suc n, omega arith, h ∙ rw (added, append_assoc) refl)))

  create_items-Created :
      (run_id : ℕ) (xs : List (ReconciliationItem F)) (s : Store F)
      → Created run_id xs s (create_items down run_id xs s)
  unfolding create_items
  create_items-Created run_id [] s = (refl, inl (refl, sym (append-nil s.items)))
  create_items-Created run_id (x ∷ xs) s = elim (Bool-cases (down s.statements)) [
    | inl d ↦ rw d (refl, inr (refl, (0, omega arith, sym (append-nil s.items))))
    | inr d ↦
        let s' = record s { items = s.items ++ (run_id, x) ∷ []; statements = s.statements + 1 } in
        rw d (
          Created-cons run_id x xs s s' (create_items down run_id xs s') refl refl
            (create_items-Created run_id xs s'))
  ]

  -- How the end of a run leaves the tables: the run finished and all rows added, or the run as it
  -- was and the rows of the first items added.
  abbrev pub Finished : ℕ → List (ReconciliationItem F) → ℕ → Store F → Store F → Type 0
  Finished run_id xs now s t =
      (t.items ≡ s.items ++ rows run_id xs)
      × (t.runs
          ≡ finish_run run_id (overall_status (summarize_items xs)) (summarize_items xs) now s.runs)

  abbrev pub Stopped : ℕ → List (ReconciliationItem F) → Store F → Store F → Type 0
  Stopped run_id xs s t =
      (t.runs ≡ s.runs) × ((n : ℕ) × (t.items ≡ s.items ++ rows run_id (take n xs)))

  take-all : (xs : List (ReconciliationItem F)) → take (length xs) xs ≡ xs
  take-all [] = refl
  take-all (x ∷ xs) = rw (take-all xs) refl

  after_items :
      (run_id : ℕ) (xs : List (ReconciliationItem F)) (now : ℕ) (s : Store F) (r : Store F × Bool)
      → Created run_id xs s r
      → let summary = summarize_items xs in
        let (t, e) =
          (if r.1
            then update_run_status down run_id (overall_status summary) summary now r.0
            else (r.0, some create_item_failed)) in
        ((e ≡ none) × Finished run_id xs now s t) ⊎ ((e ≢ none) × Stopped run_id xs s t)
  unfolding update_run_status
  after_items run_id xs now s r (k, inr (bad, (n, l, h))) = rw bad (inr ((λ e. cc), (k, (n, h))))
  after_items run_id xs now s r (k, inl (good, h)) = elim (Bool-cases (down r.0.statements)) [
    | inl d ↦ rw (good, d) (inr ((λ e. cc), (k, (length xs, h ∙ rw (take-all xs) refl))))
    | inr d ↦ rw (good, d) (inl (refl, (h, rw k refl)))
  ]

  check_run-Finished :
      (run_id : ℕ) (items : ReconciliationRun → List (ReconciliationItem F)) (now : ℕ) (s : Store F)
      (run : ReconciliationRun)
      → find_run run_id s.runs ≡ some run
      → run.status ≡ running
      → down s.statements ≡ false
      → let (t, e) = check_run down run_id items now s in
        ((e ≡ none) × Finished run_id (items run) now s t)
        ⊎ ((e ≢ none) × Stopped run_id (items run) s t)
  unfolding check_run store_results
  check_run-Finished run_id items now s run found r up =
      let s' = record s { statements = s.statements + 1 } in
      let on : is_running run.status ≡ true = ap is_running r in
      rw (up, found, on)
        (after_items run_id (items run) now s' (create_items down run_id (items run) s')
          (create_items-Created run_id (items run) s'))

  -- `RunChecks` on a RUNNING run whose row is read: either it succeeds, every item of its
  -- comparisons is stored, and the run's row gets their summary, and the status MATCHED exactly when
  -- every item is a match; or it returns an error, the run's row is as it was, and only the first so
  -- many items are stored.
  pub run_checks-Finished :
      (f : Float F) (run_id : ℕ) (adapter : Adapter F) (internal : Internal F) (now : ℕ)
      (s : Store F) (run : ReconciliationRun)
      → find_run run_id s.runs ≡ some run
      → run.status ≡ running
      → down s.statements ≡ false
      → let (t, e) = run_checks down f run_id adapter internal now s in
        let items = items_of f adapter internal run in
        (((e ≡ none) × Finished run_id items now s t) ⊎ ((e ≢ none) × Stopped run_id items s t))
        × ((overall_status (summarize_items items) ≡ matched) ↔ AllMatch items)
  unfolding run_checks
  run_checks-Finished f run_id adapter internal now s run found r up =
      let items = items_of f adapter internal in
      (
        check_run-Finished run_id items now s run found r up,
        overall_status_iff (items run) (items_of-NoneUnresolved f adapter internal run),
      )

  -- `RunChecks` on a run that is not there, or is not RUNNING any more, returns an error and stores
  -- nothing.
  pub run_checks_refused :
      (f : Float F) (run_id : ℕ) (adapter : Adapter F) (internal : Internal F) (now : ℕ)
      (s : Store F)
      → (find_run run_id s.runs ≡ none)
        ⊎ ((run : ReconciliationRun) × (find_run run_id s.runs ≡ some run)
            × (is_running run.status ≡ false))
      → let (t, e) = run_checks down f run_id adapter internal now s in
        (e ≢ none) × (t.runs ≡ s.runs) × (t.items ≡ s.items)
  unfolding run_checks check_run
  run_checks_refused f run_id adapter internal now s (inl missing) =
      elim (Bool-cases (down s.statements)) [
        | inl d ↦ rw d ((λ e. cc), refl, refl)
        | inr d ↦ rw (d, missing) ((λ e. cc), refl, refl)
      ]
  run_checks_refused f run_id adapter internal now s (inr (run, found, r)) =
      elim (Bool-cases (down s.statements)) [
        | inl d ↦ rw d ((λ e. cc), refl, refl)
        | inr d ↦ rw (d, found, r) ((λ e. cc), refl, refl)
      ]

-- An exchange that answers every call with an error.
abbrev pub silent : {F : Type 0} → Adapter F
silent = record {
  get_balance = λ a. none;
  get_position = λ p. none;
  get_open_orders = none;
  get_fills = λ t. none;
  get_margin_state = none;
}

balance_items_silent :
    {F : Type 0} (f : Float F) (bs : List (BalanceState F)) → balance_items f (λ a. none) bs ≡ []
unfolding balance_items
balance_items_silent f [] = refl
balance_items_silent f (b ∷ bs) = balance_items_silent f bs

position_items_silent :
    {F : Type 0} (f : Float F) (ps : List (PositionState F)) → position_items f (λ p. none) ps ≡ []
unfolding position_items
position_items_silent f [] = refl
position_items_silent f (p ∷ ps) = position_items_silent f ps

items_of-silent :
    {F : Type 0} (f : Float F) (internal : Internal F) (run : ReconciliationRun)
    → items_of f silent internal run ≡ []
unfolding items_of
items_of-silent f internal run =
    rw (balance_items_silent f internal.balances, position_items_silent f internal.positions) refl

-- If the exchange answers every call with an error, and the server refuses no statement, a run
-- succeeds and is marked MATCHED with no item, whatever the program believes.
pub silent_matches :
    {F : Type 0} (f : Float F) (run_id : ℕ) (internal : Internal F) (now : ℕ) (s : Store F)
    (run : ReconciliationRun)
    → find_run run_id s.runs ≡ some run
    → run.status ≡ running
    → let (t, e) = run_checks (λ n. false) f run_id silent internal now s in
      (e ≡ none)
      × (t.items ≡ s.items)
      × (t.runs
          ≡ finish_run run_id matched
              (record {
                total_items = 0;
                matched_items = 0;
                mismatched_items = 0;
                missing_int = 0;
                missing_ext = 0;
              })
              now
              s.runs)
unfolding run_checks check_run store_results create_items update_run_status summarize_items tallies
    overall_status
silent_matches f run_id internal now s run found r =
    rw (found, r, items_of-silent f internal run) (refl, refl, refl)
