-- ===== src/Drift/Lock/Tests.antt =====
-- Runs with a lock file, and its theorems at concrete ones.
use varar.Base.{true, false, List, [], ◌∷◌, map, Option, none, some, ◌≡◌, ◌≢◌, refl, if◌then◌else◌}
use varar.Text.{Text, text_eq, codes, split_on, newline, join_on}
use varar.Text.Laws.{text_eq_iff}
use varar.Text.Sets.{has}
use varar.Ast.{Doc}
use varar.Plan.{ExecutionPlan}
use varar.Scanner.Scan.{parse}
use varar.Scanner.Places.{parse-HaveDistinctLines}
use varar.Drift.{OathBaseline}
use varar.Drift.Lock.{
  LockFile, sort_oaths, oath_at, parse_lock_file, stringify_lock_file, lock_in, baselines,
  reconcile_drift, prune_baselines,
}
use varar.Drift.Lock.Stored.{is_ordinary_name, AreOrdinary, parse_lock_file-stringify_lock_file}
use varar.Drift.Lock.Accepted.{reconcile_drift_accepted}
use varar.Drift.Lock.Kept.{oath_at-prune_baselines, oath_at-reconcile_drift}
use varar.Drift.Lock.Sample.{codec, IsCodec-codec}

abbrev words : Text → List Text
words t = split_on 0x20 t

abbrev baseline : OathBaseline
baseline = record {
  source_hash = codes "0";
  examples = record { name = codes "I add two"; line = 3 } ∷ [];
}

abbrev two_oaths : LockFile
two_oaths = record { oaths = (codes "b.md", baseline) ∷ (codes "a.md", baseline) ∷ [] }

-- in the other order, and kept under another name
abbrev stored : Option Text
stored = some (stringify_lock_file codec two_oaths)

abbrev source : Text
source = join_on newline (codes "I add one" ∷ [] ∷ codes "I add two" ∷ [])

abbrev doc : Doc
doc = parse (codes "a.md") source

-- a plan without examples: the paragraph of the baseline has become prose
abbrev plan : ExecutionPlan
plan = record { doc = doc; examples = []; diagnostics = [] }

reported :
    map (λ d. d.line) (reconcile_drift codec words false (codes "a.md") source doc plan stored).0
    ≡ 3 ∷ []
unfolding reconcile_drift stringify_lock_file parse join_on
reported = refl

two_oaths-AreOrdinary : AreOrdinary two_oaths.oaths
unfolding is_ordinary_name has
two_oaths-AreOrdinary = ((refl, (refl, tt)), (refl, (refl, tt)))

stored-AreOrdinary : AreOrdinary (baselines codec stored)
unfolding is_ordinary_name has lock_in stringify_lock_file
stored-AreOrdinary = ((refl, (refl, tt)), (refl, (refl, tt)))

a-IsOrdinary : is_ordinary_name (codes "a.md") ≡ true
unfolding is_ordinary_name
a-IsOrdinary = refl

parse_lock_file-stringify_lock_file_example :
    parse_lock_file codec (stringify_lock_file codec two_oaths)
    ≡ some (record { oaths = sort_oaths two_oaths.oaths })
parse_lock_file-stringify_lock_file_example =
    parse_lock_file-stringify_lock_file codec IsCodec-codec two_oaths two_oaths-AreOrdinary

reconcile_drift_accepted_example :
    (let (drifts, after) = reconcile_drift codec words true (codes "a.md") source doc plan stored in
      reconcile_drift codec words false (codes "a.md") source doc plan after ≡ ([], after))
reconcile_drift_accepted_example =
    reconcile_drift_accepted codec IsCodec-codec words (codes "a.md") source doc plan stored
      stored-AreOrdinary a-IsOrdinary (parse-HaveDistinctLines (codes "a.md") source)

apart : codes "a.md" ≢ codes "b.md"
unfolding text_eq
apart e = let same : false ≡ true = (text_eq_iff (codes "a.md") (codes "b.md")).1 e in cc

oath_at-reconcile_drift_example :
    oath_at
      (codes "b.md")
      (baselines codec (reconcile_drift codec words true (codes "a.md") source doc plan stored).1)
    ≡ oath_at (codes "b.md") (baselines codec stored)
oath_at-reconcile_drift_example =
    oath_at-reconcile_drift codec IsCodec-codec words (codes "a.md") source doc plan true stored
      (codes "b.md") stored-AreOrdinary a-IsOrdinary apart

oath_at-prune_baselines_example :
    oath_at
      (codes "b.md")
      (baselines codec (prune_baselines codec (codes "a.md" ∷ []) true stored).1)
    ≡ (if has (codes "b.md") (codes "a.md" ∷ [])
        then oath_at (codes "b.md") (baselines codec stored)
        else none)
oath_at-prune_baselines_example =
    oath_at-prune_baselines codec IsCodec-codec (codes "a.md" ∷ []) stored (codes "b.md")
      stored-AreOrdinary

-- the baseline of the document that is gone
pruned : (prune_baselines codec (codes "a.md" ∷ []) true stored).0 ≡ codes "b.md" ∷ []
unfolding prune_baselines stringify_lock_file
pruned = refl
