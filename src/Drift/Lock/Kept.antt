-- ===== src/Drift/Lock/Kept.antt =====
-- Which baselines the runs keep.
use varar.Base.{
  Bool, true, false, ◌||◌, List, [], ◌∷◌, map, Option, none, ◌≡◌, ◌≢◌, refl, ap, sym, subst, ◌∙◌,
  arith, Bool-cases, Option-cases, inl, inr, if◌then◌else◌, length, ◌==◌,
}
use varar.Text.{Text, text_eq}
use varar.Text.Laws.{text_eq_iff}
use varar.Text.Sets.{has}
use varar.Ast.{Doc}
use varar.Plan.{ExecutionPlan}
use varar.Drift.{OathBaseline, detect_drift, derive_oath_baseline}
use varar.Drift.Lock.{
  Codec, oath_at, set_oath, kept, stale_paths, prune_lock_file, lock_in, oaths_in, baselines,
  reconcile_drift, prune_baselines,
}
use varar.Drift.Lock.Sorted.{Oaths, path_of, oath_at-sort_oaths}
use varar.Drift.Lock.Stored.{is_ordinary_name, IsCodec, AreOrdinary}
use varar.Drift.Lock.Accepted.{
  oath_at-set_oath_other, set_oath-AreOrdinary, baselines-stringify_lock_file,
}

oath_at-kept :
    (p : Text) (keep : List Text) (oaths : Oaths)
    → oath_at p (kept keep oaths) ≡ (if has p keep then oath_at p oaths else none)
unfolding oath_at kept
oath_at-kept p keep [] = ground arith
oath_at-kept p keep ((k, b) ∷ oaths) = elim (Bool-cases (text_eq k p)) [
  | inl e ↦
      let same : k ≡ p = (text_eq_iff k p).0 e in
      let seen : has k keep ≡ has p keep = ap (λ t. has t keep) same in
      ground (arith, oath_at-kept p keep oaths)
  | inr e ↦ ground (arith, oath_at-kept p keep oaths)
]

has-kept :
    (p : Text) (keep : List Text) (oaths : Oaths)
    → has p (map path_of oaths) ≡ false
    → has p (map path_of (kept keep oaths)) ≡ false
unfolding kept has
has-kept p keep [] h = refl
has-kept p keep ((k, b) ∷ oaths) h = ground (arith, has-kept p keep oaths)

kept-AreOrdinary :
    (keep : List Text) (oaths : Oaths) → AreOrdinary oaths → AreOrdinary (kept keep oaths)
unfolding kept
kept-AreOrdinary keep [] h = h
kept-AreOrdinary keep ((k, b) ∷ oaths) ((o, a), (n, d)) =
    let (a', d') = kept-AreOrdinary keep oaths (a, d) in
    elim (Bool-cases (has k keep)) [
      | inl e ↦ rw e ((o, a'), (has-kept k keep oaths n, d'))
      | inr e ↦ rw e (a', d')
    ]

-- Without stale paths, everything is kept.
kept_all :
    (keep : List Text) (oaths : Oaths)
    → (length (stale_paths keep oaths) == 0) ≡ true
    → kept keep oaths ≡ oaths
unfolding kept stale_paths
kept_all keep [] h = refl
kept_all keep ((k, b) ∷ oaths) h = ground (arith, kept_all keep oaths)

abbrev no_baseline : Option OathBaseline
no_baseline = none

either : (b : Bool) → (if b then no_baseline else no_baseline) ≡ no_baseline
either true = refl
either false = refl

module _ (json : Codec) (law : IsCodec json) where
  -- Pruning in an update removes the baselines of the paths that are not kept, and no other, if the paths of
  -- the lock file are ordinary names and `JSON` reads what it wrote.
  pub oath_at-prune_baselines :
      (keep : List Text) (store : Option Text) (p : Text)
      → AreOrdinary (baselines json store)
      → oath_at p (baselines json (prune_baselines json keep true store).1)
        ≡ (if has p keep then oath_at p (baselines json store) else none)
  unfolding prune_baselines prune_lock_file oath_at
  oath_at-prune_baselines keep store p h = elim (Option-cases (lock_in json store)) [
    | inl e ↦
        rw (prune_baselines, e)
          (ap (λ o. oath_at p (oaths_in json o)) e ∙ sym (either (has p keep)))
    | inr (lock, e) ↦ elim (Bool-cases (length (stale_paths keep lock.oaths) == 0)) [
      | inl s ↦
          rw (prune_baselines, e, s)
            (ap (λ o. oath_at p (oaths_in json o)) e
              ∙ ap (oath_at p) (sym (kept_all keep lock.oaths s))
              ∙ oath_at-kept p keep lock.oaths)
      | inr s ↦
          rw (prune_baselines, e, s)
            (ap (oath_at p) (
                baselines-stringify_lock_file json law (kept keep lock.oaths) (
                  kept-AreOrdinary keep lock.oaths
                    (subst (λ o. AreOrdinary (oaths_in json o)) e h)))
              ∙ oath_at-sort_oaths p (kept keep lock.oaths)
              ∙ oath_at-kept p keep lock.oaths)
    ]
  ]

  module _ (words : Text → List Text) (path source : Text) (doc : Doc) (plan : ExecutionPlan) where
    -- A run changes no baseline but that of its own document, whether it accepts drift, reports it or finds
    -- none, if the paths of the lock file are ordinary names and `JSON` reads what it wrote.
    pub oath_at-reconcile_drift :
        (update : Bool) (store : Option Text) (p : Text)
        → AreOrdinary (baselines json store)
        → is_ordinary_name path ≡ true
        → path ≢ p
        → oath_at p
            (baselines json (reconcile_drift json words update path source doc plan store).1)
          ≡ oath_at p (baselines json store)
    unfolding reconcile_drift
    oath_at-reconcile_drift update store p h o n =
        let b = derive_oath_baseline source doc plan in
        let oaths = baselines json store in
        let drifts = if update then [] else detect_drift words (oath_at path oaths) doc plan in
        let apart : text_eq path p ≡ false = ground (arith, text_eq_iff path p) in
        elim (Bool-cases (update || length drifts == 0)) [
          | inl e ↦
              rw (reconcile_drift, e)
                (ap (oath_at p) (
                    baselines-stringify_lock_file json law (set_oath path b oaths)
                      (set_oath-AreOrdinary json law path b oaths o h))
                  ∙ oath_at-sort_oaths p (set_oath path b oaths)
                  ∙ oath_at-set_oath_other p path b oaths apart)
          | inr e ↦ rw (reconcile_drift, e) refl
        ]
