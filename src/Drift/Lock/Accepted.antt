-- ===== src/Drift/Lock/Accepted.antt =====
-- What the runs that read and write the lock file leave in it.
use varar.Base.{true, false, List, [], ◌∷◌, ◌++◌, Option, some, ◌≡◌, refl, ap, sym, ◌∙◌, arith}
use varar.Text.{Text, text_eq, newline}
use varar.Text.Laws.{text_eq_iff}
use varar.Ast.{Doc}
use varar.Plan.{ExecutionPlan}
use varar.Drift.{OathBaseline, detect_drift, derive_oath_baseline}
use varar.Drift.Unchanged.{HaveDistinctLines, detect_drift_unchanged}
use varar.Drift.Lock.{
  Codec, sort_oaths, oath_at, set_oath, stringify_lock_file, oaths_in, baselines, reconcile_drift,
  json_of_lock,
}
use varar.Drift.Lock.Sorted.{
  Oaths, sort_oaths-IsSorted, sort_oaths_sorted, oath_at-sort_oaths, oath_at-set_oath,
  set_oath_same, set_oath-All, set_oath-IsTokenSet,
}
use varar.Drift.Lock.Stored.{is_ordinary_name, IsCodec, AreOrdinary, lock_in-stringify_lock_file}

-- another entry
pub oath_at-set_oath_other :
    (p k : Text) (b : OathBaseline) (oaths : Oaths)
    → text_eq k p ≡ false
    → oath_at p (set_oath k b oaths) ≡ oath_at p oaths
unfolding oath_at set_oath
oath_at-set_oath_other p k b [] h = ground arith
oath_at-set_oath_other p k b ((j, c) ∷ oaths) h =
    ground
      (arith, text_eq_iff j k, text_eq_iff j p, text_eq_iff k p, oath_at-set_oath_other p k b oaths)

module _ (json : Codec) (law : IsCodec json) where
  pub set_oath-AreOrdinary :
      (k : Text) (b : OathBaseline) (oaths : Oaths)
      → is_ordinary_name k ≡ true
      → AreOrdinary oaths
      → AreOrdinary (set_oath k b oaths)
  set_oath-AreOrdinary k b oaths o (a, d) =
      (set_oath-All (λ t. is_ordinary_name t ≡ true) k b oaths o a, set_oath-IsTokenSet k b oaths d)

  pub baselines-stringify_lock_file :
      (oaths : Oaths)
      → AreOrdinary oaths
      → baselines json (some (stringify_lock_file json (record { oaths = oaths })))
        ≡ sort_oaths oaths
  baselines-stringify_lock_file oaths h =
      ap (oaths_in json) (lock_in-stringify_lock_file json law (record { oaths = oaths }) h)

  -- writing what is in order already
  stringify_sorted :
      (oaths : Oaths)
      → stringify_lock_file json (record { oaths = sort_oaths oaths })
        ≡ stringify_lock_file json (record { oaths = oaths })
  unfolding stringify_lock_file
  stringify_sorted oaths =
      ap (λ os. json.stringify (json_of_lock os) ++ newline ∷ [])
        (sort_oaths_sorted (sort_oaths oaths) (sort_oaths-IsSorted oaths))

  module _ (words : Text → List Text) (path source : Text) (doc : Doc) (plan : ExecutionPlan) where
    abbrev derived : OathBaseline
    derived = derive_oath_baseline source doc plan

    -- a run that finds the baseline of the document and plan in a lock file
    settled_lem :
        (oaths : Oaths)
        → HaveDistinctLines doc.examples
        → AreOrdinary oaths
        → (text : Text)
        → text ≡ stringify_lock_file json (record { oaths = set_oath path derived oaths })
        → is_ordinary_name path ≡ true
        → reconcile_drift json words false path source doc plan (some text) ≡ ([], some text)
    unfolding reconcile_drift
    settled_lem oaths d h text e o =
        let next = set_oath path derived oaths in
        let read : baselines json (some text) ≡ sort_oaths next =
          ap (λ t. baselines json (some t)) e
          ∙ baselines-stringify_lock_file next (set_oath-AreOrdinary path derived oaths o h) in
        let own : oath_at path (baselines json (some text)) ≡ some derived =
          ap (oath_at path) read
          ∙ oath_at-sort_oaths path next
          ∙ oath_at-set_oath path derived oaths in
        let quiet : detect_drift words (oath_at path (baselines json (some text))) doc plan ≡ [] =
          ap (λ b. detect_drift words b doc plan) own
          ∙ detect_drift_unchanged words source doc plan d in
        let same : stringify_lock_file json
              (record { oaths = set_oath path derived (baselines json (some text)) })
            ≡ text =
          ap (λ os. stringify_lock_file json (record { oaths = os }))
            (set_oath_same path derived (baselines json (some text)) own ∙ read)
          ∙ stringify_sorted next
          ∙ sym e in
        rw quiet (ap (λ t. ([], some t)) same)

    -- Accepting drift is lasting: after an update, the same run reports none and leaves the lock file as it
    -- is, whatever was in it, if its paths are ordinary names, the paragraphs of the document start in
    -- different lines, and `JSON` reads what it wrote.
    pub reconcile_drift_accepted :
        (store : Option Text)
        → AreOrdinary (baselines json store)
        → is_ordinary_name path ≡ true
        → HaveDistinctLines doc.examples
        → (let (drifts, after) = reconcile_drift json words true path source doc plan store in
            reconcile_drift json words false path source doc plan after ≡ ([], after))
    reconcile_drift_accepted store h o d =
        unfold reconcile_drift in settled_lem (baselines json store) d h _ refl o
