-- ===== src/Meter/Ledger/Totals.antt =====
-- src/meter/db.rs: the whole numbers of the breakdowns by model add up.
use toche.Prelude.{
  ℕ, ◌+◌, ◌*◌, List, [], ◌∷◌, Option, Bool, true, false, not, ◌&&◌, Text, text_eq, text_eq_iff,
  text_eq_refl, if◌then◌else◌, retain, map, all, any, ◌==◌, ◌≡◌, refl, arith, Bool-cases, inl, inr,
  ap, ◌∙◌, sym,
}
use toche.SafeCache.Inspect.{is_empty}
use toche.Meter.Ledger.{
  NewLedgerRecord, LedgerDb, ModelBreakdown, breakdown_of, build_breakdown, get_summary, sum_of,
  one_if, group, put_in_order, in_order, of_model, models_of, rows_of, Sql,
}
use toche.Meter.Ledger.Columns.{Column, column, weight, column-breakdown_of, column-rejects}

-- How often a value stands in a list.
abbrev times : Text → List Text → ℕ
times x [] = 0
times x (y ∷ ys) = one_if (text_eq x y) + times x ys

times-retain_ne :
    (x m : Text) (ys : List Text)
    → times x (retain (λ y. not (text_eq y m)) ys) ≡ (if text_eq x m then 0 else times x ys)
times-retain_ne x m [] = ground arith
times-retain_ne x m (y ∷ ys) =
    ground (arith, times-retain_ne x m ys, text_eq_iff x y, text_eq_iff x m, text_eq_iff y m)

times-group : (x : Text) (ys : List Text) → times x (group ys) ≡ one_if (any (λ y. text_eq x y) ys)
times-group x [] = refl
times-group x (y ∷ ys) = ground (arith, times-group x ys, times-retain_ne x y (group ys))

times-put_in_order :
    (x : Text) (after : Text → Text → Bool) (y : Text) (ys : List Text)
    → times x (put_in_order after y ys) ≡ one_if (text_eq x y) + times x ys
times-put_in_order x after y [] = refl
times-put_in_order x after y (z ∷ ys) = ground (arith, times-put_in_order x after y ys)

times-in_order :
    (x : Text) (after : Text → Text → Bool) (ys : List Text)
    → times x (in_order after ys) ≡ times x ys
times-in_order x after [] = refl
times-in_order x after (y ∷ ys) =
    times-put_in_order x after y (in_order after ys)
    ∙ ap (λ n. one_if (text_eq x y) + n) (times-in_order x after ys)

module _ (sql : Sql) where
  -- Sums over a list of models, of each model's share.
  abbrev shares : (NewLedgerRecord sql → ℕ) → List (NewLedgerRecord sql) → List Text → ℕ
  shares w rows [] = 0
  shares w rows (m ∷ ms) = sum_of sql w (of_model sql m rows) + shares w rows ms

  shares-nothing : (w : NewLedgerRecord sql → ℕ) (ms : List Text) → shares w [] ms ≡ 0
  shares-nothing w [] = refl
  shares-nothing w (m ∷ ms) = omega (arith, shares-nothing w ms)

  shares-row :
      (w : NewLedgerRecord sql → ℕ) (e : NewLedgerRecord sql) (rows : List (NewLedgerRecord sql))
      (ms : List Text)
      → shares w (e ∷ rows) ms ≡ times e.model ms * w e + shares w rows ms
  shares-row w e rows [] = omega arith
  shares-row w e rows (m ∷ ms) = elim (Bool-cases (text_eq e.model m)) [
    | inl own ↦ rw (own, shares-row w e rows ms) (omega arith)
    | inr other ↦ rw (other, shares-row w e rows ms) (omega arith)
  ]

  abbrev all_once : List Text → List (NewLedgerRecord sql) → Bool
  all_once ms rows = all (λ (e : NewLedgerRecord sql). times e.model ms == 1) rows

  shares-once :
      (w : NewLedgerRecord sql → ℕ) (ms : List Text) (rows : List (NewLedgerRecord sql))
      → all_once ms rows ≡ true
      → shares w rows ms ≡ sum_of sql w rows
  shares-once w ms [] once = shares-nothing w ms
  shares-once w ms (e ∷ rows) once =
      let (head, tail) = both (times e.model ms == 1) (all_once ms rows) once in
      shares-row w e rows ms
      ∙ rw (one_time (times e.model ms) head, shares-once w ms rows tail) (omega arith)
    where
      both : (a b : Bool) → a && b ≡ true → (a ≡ true) × (b ≡ true)
      both a b h = (ground arith, ground arith)

      one_time : (n : ℕ) → n == 1 ≡ true → n ≡ 1
      one_time n h = ground arith

  abbrev model_of : NewLedgerRecord sql → Text
  model_of e = e.model

  -- Every row has its model in a list.
  abbrev is_covered : List Text → List (NewLedgerRecord sql) → Bool
  is_covered ys rows = all (λ (e : NewLedgerRecord sql). any (λ y. text_eq e.model y) ys) rows

  is_covered-more :
      (y : Text) (ys : List Text) (rows : List (NewLedgerRecord sql))
      → is_covered ys rows ≡ true
      → is_covered (y ∷ ys) rows ≡ true
  is_covered-more y ys [] h = refl
  is_covered-more y ys (e ∷ rows) h = ground (arith, is_covered-more y ys rows)

  is_covered-own : (rows : List (NewLedgerRecord sql)) → is_covered (map model_of rows) rows ≡ true
  is_covered-own [] = refl
  is_covered-own (e ∷ rows) = ground (
    arith,
    text_eq_refl e.model,
    is_covered-more e.model (map model_of rows) rows,
    is_covered-own rows,
  )

  times-models_of :
      (x : Text) (rows : List (NewLedgerRecord sql))
      → times x (models_of sql rows) ≡ one_if (any (λ y. text_eq x y) (map model_of rows))
  times-models_of x rows = times-in_order x _ (group (map model_of rows)) ∙ times-group x _

  all_once-covered :
      (all_rows rows : List (NewLedgerRecord sql))
      → is_covered (map model_of all_rows) rows ≡ true
      → all_once (models_of sql all_rows) rows ≡ true
  all_once-covered all_rows [] h = refl
  all_once-covered all_rows (e ∷ rows) h =
      ground (arith, times-models_of e.model all_rows, all_once-covered all_rows rows)

  -- No row is without the name of a model.
  abbrev pub is_named : List (NewLedgerRecord sql) → Bool
  is_named rows = all (λ (e : NewLedgerRecord sql). not (is_empty e.model)) rows

  none_empty :
      (rows : List (NewLedgerRecord sql))
      → is_named rows ≡ true
      → any (λ y. text_eq [] y) (map model_of rows) ≡ false
  unfolding text_eq
  none_empty [] h = refl
  none_empty (e ∷ rows) h = named (e.model) (none_empty rows) h
    where
      named :
          (m : Text)
          → (is_named rows ≡ true → any (λ y. text_eq [] y) (map model_of rows) ≡ false)
          → not (is_empty m) && is_named rows ≡ true
          → any (λ y. text_eq [] y) (m ∷ map model_of rows) ≡ false
      named [] f h = cc
      named (c ∷ m) f h = f h

  abbrev pub sum_over : Column → List (ModelBreakdown sql) → ℕ
  sum_over c [] = 0
  sum_over c (b ∷ bs) = column sql c b.breakdown + sum_over c bs

  column-build_breakdown :
      (c : Column) (m : Text) (project : Option Text) (db : LedgerDb sql)
      → text_eq [] m ≡ false
      → column sql c (build_breakdown sql m project db)
        ≡ sum_of sql (weight sql c) (of_model sql m (rows_of sql project db))
  unfolding build_breakdown text_eq
  column-build_breakdown c [] project db h = cc
  column-build_breakdown c (x ∷ m) project db h = column-breakdown_of sql c _

  sum_over-shares :
      (c : Column) (ms : List Text) (project : Option Text) (db : LedgerDb sql)
      → times [] ms ≡ 0
      → sum_over c
          (map (λ m. record { model = m; breakdown = build_breakdown sql m project db }) ms)
        ≡ shares (weight sql c) (rows_of sql project db) ms
  sum_over-shares c [] project db h = refl
  sum_over-shares c (m ∷ ms) project db h =
      rw
        (
          column-build_breakdown c m project db (ground arith),
          sum_over-shares c ms project db (ground arith),
        )
        refl

  -- Where no request of the selected projects is recorded without the name of a model, each column
  -- of the summary that is a sum of whole numbers has, over the breakdowns by model, the total of the
  -- summary as its sum: no request is left out and none counts twice. The sum of the costs is on f64,
  -- and not among these columns.
  pub get_summary-sum_over :
      (c : Column) (project : Option Text) (db : LedgerDb sql)
      → is_named (rows_of sql project db) ≡ true
      → sum_over c (get_summary sql project db).by_model
        ≡ column sql c (get_summary sql project db).total
  unfolding get_summary build_breakdown
  get_summary-sum_over c project db named =
      let rows = rows_of sql project db in
      sum_over-shares c (models_of sql rows) project db
        (times-models_of [] rows ∙ ap one_if (none_empty rows named))
      ∙ (shares-once (weight sql c) (models_of sql rows) rows
            (all_once-covered rows rows (is_covered-own rows))
          ∙ sym (column-rejects sql c (breakdown_of sql rows) _ ∙ column-breakdown_of sql c rows))
