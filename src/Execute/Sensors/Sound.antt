-- ===== src/Execute/Sensors/Sound.antt =====
-- What a sensor's return has to be.
use varar.Base.{
  ℕ, zero, suc, ◌+◌, ◌≤◌, true, false, List, [], ◌∷◌, Option, none, some, ◌==◌, ◌≡◌, ◌≢◌, refl, ◌⊎◌,
  inl, inr, if◌then◌else◌, length, length-take, take, All, Bool-cases, arith,
}
use varar.Text.{Text}
use varar.Text.Laws.{text_eq_iff}
use varar.Ast.{Table}
use varar.Value.{Value, undefined, str, array, to_list}
use varar.Cells.{CellDiff, Runtime, Checked, checked, misshaped, no_slots}
use varar.Execute.Failures.{return_shape}
use varar.Cells.Tables.{compare_table}
use varar.Cells.Tables.Exact.{IsAccepted}
use varar.Cells.Params.Pairs.{AllEqual, compare_params_iff}
use varar.Cells.DocStrings.{compare_doc_string}
use varar.Plan.{PlannedStep, DocString}
use varar.Execute.Sensors.{
  Verdict, agreed, rejected, failing, mismatch, extra_args, trailing_args, slot_at, table_verdict,
  doc_string_verdict, ◌>>◌, judge_trailing, judge_slots, judge_many, judge_slotted, is_undefined,
  judge_sensor,
}

pub eq_undefined : (v : Value) → is_undefined v ≡ true → v ≡ undefined
eq_undefined undefined e = refl
eq_undefined _ e = cc

pub ne_undefined : (v : Value) → is_undefined v ≡ false → v ≢ undefined
ne_undefined v e same = ground arith

pub failing-eq-nil : (ds : List CellDiff) → failing ds ≡ [] → All (λ d. d.ok ≡ true) ds
unfolding failing
failing-eq-nil [] e = tt
failing-eq-nil (d ∷ ds) e = elim (Bool-cases d.ok) [
  | inl o ↦ (o, failing-eq-nil ds (ground arith))
  | inr o ↦ absurd (ground arith)
]

mismatch-eq-agreed : (ds : List CellDiff) → mismatch ds ≡ agreed → ds ≡ []
mismatch-eq-agreed [] e = refl
mismatch-eq-agreed (d ∷ ds) e = cc

mismatch-failing : (ds : List CellDiff) → mismatch (failing ds) ≡ agreed → All (λ d. d.ok ≡ true) ds
mismatch-failing ds e = failing-eq-nil ds (mismatch-eq-agreed (failing ds) e)

>>-eq-agreed : (v w : Verdict) → (v >> w) ≡ agreed → (v ≡ agreed) × (w ≡ agreed)
>>-eq-agreed agreed w e = (refl, e)
>>-eq-agreed (rejected t) w e = cc

table_verdict-eq-agreed : (c : Checked (List CellDiff)) → table_verdict c ≡ agreed → IsAccepted c
table_verdict-eq-agreed (checked ds) e = mismatch-failing ds e
table_verdict-eq-agreed (misshaped x) e = cc

module _ (runtime : Runtime) (source : Text) where
  -- The trailing slot reproduces the table or doc string of the step, if it has one.
  abbrev pub MatchesExtra : Option Table → Option DocString → Value → Type 0
  MatchesExtra (some t) d v = IsAccepted (compare_table runtime v t)
  MatchesExtra none (some d) v = (v ≡ str d.content) ⊎ (v ≡ undefined)
  MatchesExtra none none v = Unit

  doc_string_verdict-eq-agreed :
      (v : Value) (d : DocString)
      → doc_string_verdict (compare_doc_string runtime v d.content d.span) ≡ agreed
      → (v ≡ str d.content) ⊎ (v ≡ undefined)
  unfolding compare_doc_string
  doc_string_verdict-eq-agreed undefined d e = inr refl
  doc_string_verdict-eq-agreed (str s) d e = ground (arith, text_eq_iff s d.content)
  doc_string_verdict-eq-agreed _ d e = cc

  judge_trailing-eq-agreed :
      (t : Option Table) (d : Option DocString) (v : Value)
      → judge_trailing runtime source t d v ≡ agreed
      → MatchesExtra t d v
  unfolding judge_trailing
  judge_trailing-eq-agreed (some t) d v e = table_verdict-eq-agreed (compare_table runtime v t) e
  judge_trailing-eq-agreed none (some d) v e = doc_string_verdict-eq-agreed v d e
  judge_trailing-eq-agreed none none v e = tt

  -- The slots hold values equal to the captured arguments, and then what the step's table or doc
  -- string says.
  abbrev pub SlotsMatch : PlannedStep → List Value → Type 0
  SlotsMatch step slots =
      AllEqual (take (length step.args) slots) step.args
      × MatchesExtra step.data_table step.doc_string (slot_at slots (length step.args))

  judge_slots-eq-agreed :
      (step : PlannedStep) (slots : List Value)
      → length step.args ≤ length slots
      → judge_slots runtime source step slots ≡ agreed
      → SlotsMatch step slots
  unfolding judge_slots
  judge_slots-eq-agreed step slots h e =
      let (params, trailing) = >>-eq-agreed _ _ e in
      (
        (compare_params_iff runtime step.param_spans _ step.formats (take (length step.args) slots)
              step.args (omega (arith, length-take {0} (length step.args) slots))).0
            (mismatch-failing _ params),
        judge_trailing-eq-agreed step.data_table step.doc_string _ trailing,
      )

  -- How many slots the step has: its arguments, and one for a table or doc string.
  abbrev pub slot_count : PlannedStep → ℕ
  slot_count step = length step.args + length (extra_args step)

  -- What a sensor has to return: nothing without slots, the value of the only slot, or an array with
  -- one value for each slot.
  abbrev pub Spreads : ℕ → Value → List Value → Type 0
  Spreads zero v slots = (v ≡ undefined) × (slots ≡ [])
  Spreads (suc zero) v slots = (v ≢ undefined) × (slots ≡ v ∷ [])
  Spreads (suc (suc n)) (array i vs) slots = (slots ≡ to_list vs) × (length slots ≡ suc (suc n))
  Spreads (suc (suc n)) _ slots = ⊥

  judge_many-eq-agreed :
      (step : PlannedStep) (n : ℕ) (v : Value)
      → judge_many runtime source step (suc (suc n)) v ≡ agreed
      → (slots : List Value) × Spreads (suc (suc n)) v slots
        × (judge_slots runtime source step slots ≡ agreed)
  unfolding judge_many
  judge_many-eq-agreed step n (array i vs) e =
      elim (Bool-cases (length (to_list vs) == suc (suc n))) [
        | inl l ↦ (to_list vs, (refl, ground arith), rw l at e)
        | inr l ↦ absurd (ground arith)
      ]
  judge_many-eq-agreed step n _ e = cc

  judge_slotted-eq-agreed :
      (step : PlannedStep) (n : ℕ) (v : Value)
      → judge_slotted runtime source step (suc n) v ≡ agreed
      → (slots : List Value) × Spreads (suc n) v slots
        × (judge_slots runtime source step slots ≡ agreed)
  unfolding judge_slotted
  judge_slotted-eq-agreed step n v e = elim (Bool-cases (is_undefined v)) [
    | inl u ↦ absurd (ground arith)
    | inr u ↦ answered u n (rw u at e)
  ]
    where
      answered :
          is_undefined v ≡ false
          → (n : ℕ)
          → (if suc n == 1
              then judge_slots runtime source step (v ∷ [])
              else judge_many runtime source step (suc n) v)
            ≡ agreed
          → (slots : List Value) × Spreads (suc n) v slots
            × (judge_slots runtime source step slots ≡ agreed)
      answered u zero e = (v ∷ [], (ne_undefined v u, refl), e)
      answered u (suc n) e = judge_many-eq-agreed step n v (ground arith)

  Spreads-length : (n : ℕ) (v : Value) (slots : List Value) → Spreads n v slots → length slots ≡ n
  Spreads-length zero v slots (_, s) = rw s
  Spreads-length (suc zero) v slots (_, s) = rw s
  Spreads-length (suc (suc n)) (array i vs) slots (_, l) = l
  Spreads-length (suc (suc n)) _ slots s = absurd s

  no_args : (ws : List Value) → length ws ≡ 0 → AllEqual (take (length ws) []) ws
  no_args [] h = tt
  no_args (w ∷ ws) h = absurd (omega arith)

  no_extra :
      (t : Option Table) (d : Option DocString) (v : Value)
      → length (trailing_args t d) ≡ 0
      → MatchesExtra t d v
  no_extra (some t) d v h = absurd (omega arith)
  no_extra none (some d) v h = absurd (omega arith)
  no_extra none none v h = tt

  judge_sensor_at :
      (n : ℕ) (step : PlannedStep) (v : Value)
      → slot_count step ≡ n
      → (if n == 0
          then (if is_undefined v then agreed else rejected (return_shape no_slots))
          else judge_slotted runtime source step n v)
        ≡ agreed
      → (slots : List Value) × Spreads n v slots × SlotsMatch step slots
  unfolding extra_args
  judge_sensor_at zero step v c e = (
    [],
    (eq_undefined v (ground arith), refl),
    (no_args step.args (omega arith), no_extra step.data_table step.doc_string _ (omega arith)),
  )
  judge_sensor_at (suc n) step v c e =
      let (slots, spread, rest) = judge_slotted-eq-agreed step n v (ground arith) in
      let long = Spreads-length (suc n) v slots spread in
      (slots, spread, judge_slots-eq-agreed step slots (omega arith) rest)

  -- A sensor that is accepted returned nothing if it has no slot, the value of its only slot, or an
  -- array with one value for each slot; the values of its parameters are structurally equal to those
  -- captured in the document; and the value of the last slot reproduces the step's table or doc
  -- string, or is undefined.
  pub judge_sensor_sound :
      (step : PlannedStep) (v : Value)
      → judge_sensor runtime source step v ≡ agreed
      → (slots : List Value) × Spreads (slot_count step) v slots × SlotsMatch step slots
  unfolding judge_sensor
  judge_sensor_sound step v e = judge_sensor_at (slot_count step) step v refl e
