-- ===== src/Skills/Validation/Replays.antt =====
-- The verdict on a manifest, told from what each recorded call gives: `validate` of
-- src/skills/validation_engine.cpp.
use a.Base.{
  pos, negsuc, ◌⊎◌, if◌then◌else◌, ℕ, ◌+◌, ◌≡◌, refl, ap, sym, ◌∙◌, Bool, false, not, ◌&&◌, ◌||◌,
  List, [], ◌∷◌, ◌++◌, map, some, Bytes, ℤ, bytes_eq, length, select, All, Bool-cases, Option-cases,
  inl, inr, is_empty, append-nil, append_assoc, arith, is_zero,
}
use mathlib.Core.List.{flatten}
use a.Shared.Json.{Json}
use a.Executor.Runner.{CommandResult}
use a.Skills.Types.{SkillTool, SkillManifest, CompatBridge}
use a.Skills.Validation.{
  InvocationRecord, Output, no_output, raised, output_is, find_replayed, parsed, input_of,
  replay_output, replay_record, apply_bridge,
}
use a.Skills.Validation.Verdicts.{
  RecordOutcome, skipped, kept, bridged, mismatch, Tally, count, fail_line, try_bridges,
  judge_record, check_records, decide, no_tally, validate_records,
}

module _ {J W : Type 0} (json : Json J) (same : J → J → Bool)
    (run : Bytes → Bytes → ℤ → W → CommandResult × W) where
  abbrev pub agrees : J → Output J → Bool
  agrees j no_output = false
  agrees j raised = false
  agrees j (output_is k) = same j k

  abbrev pub differs : J → Output J → Bool
  differs j no_output = false
  differs j raised = false
  differs j (output_is k) = not (same j k)

  -- a bridge of the tool gives the recorded output
  abbrev pub is_explained : InvocationRecord J → List CompatBridge → W → Bool
  is_explained r [] w = false
  is_explained r (bridge ∷ rest) w =
      bytes_eq bridge.tool_name r.tool_name
        && agrees r.output (apply_bridge json same run bridge r.params w).0
      || is_explained r rest w

  abbrev pub is_failing : SkillManifest J → W → InvocationRecord J → Bool
  is_failing m w r =
      differs r.output (replay_record json same run r m.tools w).0
      && not (is_explained r m.compat w)

  abbrev pub is_rescued : SkillManifest J → W → InvocationRecord J → Bool
  is_rescued m w r =
      differs r.output (replay_record json same run r m.tools w).0 && is_explained r m.compat w

  abbrev pub failing_lines : List (InvocationRecord J) → Bytes
  failing_lines rs = flatten (map fail_line rs)

  abbrev pub HasDump : InvocationRecord J → Type 0
  HasDump r = (s : Bytes) × (json.dump r.params ≡ some s)

  -- a count to which the calls of a list are added
  abbrev pub counted : SkillManifest J → W → List (InvocationRecord J) → Tally → Tally
  counted m w rs t = record {
    failures = t.failures + length (select (is_failing m w) rs);
    bridges_used = t.bridges_used + length (select (is_rescued m w) rs);
    text = t.text ++ failing_lines (select (is_failing m w) rs);
  }

  decide_lem :
      {A B : Type 0} (xs : List A) (ys : List B)
      → decide json same run (length xs) (length ys)
        ≡ (if is_empty xs then (if is_empty ys then pos 0 else pos 1) else negsuc 0)
  unfolding decide
  decide_lem [] [] = refl
  decide_lem [] (y ∷ ys) = ground arith
  decide_lem (x ∷ xs) ys = ground arith

  module _ (steady : (c s : Bytes) (t : ℤ) (w : W) → (run c s t w).1 ≡ w) where
    bridge-steady :
        (bridge : CompatBridge) (params : J) (w : W)
        → (apply_bridge json same run bridge params w).1 ≡ w
    unfolding apply_bridge
    bridge-steady bridge params w = elim (Option-cases (json.dump params)) [
      | inl e ↦ rw (apply_bridge, e) refl
      | inr (s, e) ↦ rw (apply_bridge, e) (steady bridge.bridge_command s (ℤ.pos 30) w)
    ]

    replay_record-steady :
        (r : InvocationRecord J) (tools : List (SkillTool J)) (w : W)
        → (replay_record json same run r tools w).1 ≡ w
    unfolding replay_record
    replay_record-steady r tools w = elim (Option-cases (find_replayed r.tool_name tools)) [
      | inl e ↦ rw (replay_record, e) refl
      | inr (tool, e) ↦ elim (Option-cases (input_of json same run r.params)) [
        | inl f ↦ rw (replay_record, e, f) refl
        | inr (s, f) ↦ rw (replay_record, e, f) (steady tool.command s (ℤ.pos 30) w)
      ]
    ]

    bridge-gives :
        (bridge : CompatBridge) (r : InvocationRecord J) (w : W)
        → HasDump r
        → ((apply_bridge json same run bridge r.params w).0 ≡ no_output)
          ⊎ ((j : J) × ((apply_bridge json same run bridge r.params w).0 ≡ output_is j))
    unfolding apply_bridge
    bridge-gives bridge r w (s, d) =
        elim (Bool-cases (is_zero (run bridge.bridge_command s (ℤ.pos 30) w).0.exit_code)) [
          | inl z ↦ inr (
            parsed json (run bridge.bridge_command s (ℤ.pos 30) w).0.stdout,
            rw (apply_bridge, d, z) refl,
          )
          | inr z ↦ inl (rw (apply_bridge, d, z) refl)
        ]

    replay_record-gives :
        (r : InvocationRecord J) (tools : List (SkillTool J)) (w : W)
        → HasDump r
        → ((replay_record json same run r tools w).0 ≡ no_output)
          ⊎ ((j : J) × ((replay_record json same run r tools w).0 ≡ output_is j))
    unfolding replay_record input_of
    replay_record-gives r tools w (s, d) = elim (Option-cases (find_replayed r.tool_name tools)) [
      | inl e ↦ inl (rw (replay_record, e) refl)
      | inr (tool, e) ↦ elim (Option-cases (json.as_text r.params)) [
        | inl f ↦ inr (
          replay_output json same run (run tool.command s (ℤ.pos 30) w).0,
          rw (replay_record, e, input_of, f, d) refl,
        )
        | inr (t, f) ↦ inr (
          replay_output json same run (run tool.command t (ℤ.pos 30) w).0,
          rw (replay_record, e, input_of, f) refl,
        )
      ]
    ]

    try_bridges_lem :
        (r : InvocationRecord J) (bs : List CompatBridge) (w : W)
        → HasDump r
        → try_bridges json same run r bs w ≡ (some (is_explained r bs w), w)
    unfolding try_bridges
    try_bridges_lem r [] w d = refl
    try_bridges_lem r (b ∷ bs) w d =
        let back = try_bridges_lem r bs w d in
        elim (Bool-cases (bytes_eq b.tool_name r.tool_name)) [
          | inr other ↦ rw (try_bridges, other) back
          | inl h ↦ elim (bridge-gives b r w d) [
            | inl o ↦ rw (try_bridges, h, o, bridge-steady b r.params w) back
            | inr (j, o) ↦ elim (Bool-cases (same r.output j)) [
              | inl e ↦ rw (try_bridges, h, o, e, bridge-steady b r.params w) refl
              | inr e ↦ rw (try_bridges, h, o, e, bridge-steady b r.params w) back
            ]
          ]
        ]

    outcome : SkillManifest J → InvocationRecord J → W → RecordOutcome
    outcome m r w =
        if is_failing m w r
        then mismatch
        else if is_rescued m w r
        then bridged
        else (elim (replay_record json same run r m.tools w).0 [
          | no_output ↦ skipped
          | raised ↦ skipped
          | output_is j ↦ kept
        ])

    judge_record_lem :
        (m : SkillManifest J) (r : InvocationRecord J) (w : W)
        → HasDump r
        → judge_record json same run r m w ≡ (some (outcome m r w), w)
    unfolding judge_record outcome
    judge_record_lem m r w d = elim (replay_record-gives r m.tools w d) [
      | inl o ↦ rw (judge_record, outcome, o, replay_record-steady r m.tools w) refl
      | inr (j, o) ↦ elim (Bool-cases (same r.output j)) [
        | inl e ↦ rw (judge_record, outcome, o, e, replay_record-steady r m.tools w) refl
        | inr e ↦ elim (Bool-cases (is_explained r m.compat w)) [
          | inl x ↦
              rw
                (
                  judge_record,
                  outcome,
                  o,
                  e,
                  replay_record-steady r m.tools w,
                  try_bridges_lem r m.compat w d,
                  x,
                )
                refl
          | inr x ↦
              rw
                (
                  judge_record,
                  outcome,
                  o,
                  e,
                  replay_record-steady r m.tools w,
                  try_bridges_lem r m.compat w d,
                  x,
                )
                refl
        ]
      ]
    ]

    tally_eq :
        {f f' b b' : ℕ} {x x' : Bytes}
        → f ≡ f'
        → b ≡ b'
        → x ≡ x'
        → ◌≡◌ {A = Tally}
            (record { failures = f; bridges_used = b; text = x })
            (record { failures = f'; bridges_used = b'; text = x' })
    tally_eq {f = f} {b = b} {x = x} e g h = rw (sym e, sym g, sym h) refl

    counted-count :
        (m : SkillManifest J) (r : InvocationRecord J) (rs : List (InvocationRecord J)) (t : Tally)
        (w : W)
        → HasDump r
        → counted m w rs (count (outcome m r w) (fail_line r) t) ≡ counted m w (r ∷ rs) t
    unfolding count outcome flatten
    counted-count m r rs t w d = elim (replay_record-gives r m.tools w d) [
      | inl o ↦ rw (outcome, o) refl
      | inr (j, o) ↦ elim (Bool-cases (same r.output j)) [
        | inl e ↦ rw (outcome, o, e) refl
        | inr e ↦ elim (Bool-cases (is_explained r m.compat w)) [
          | inl x ↦ rw (outcome, o, e, x) (tally_eq refl (omega arith) refl)
          | inr x ↦
              rw (outcome, o, e, x)
                (tally_eq (omega arith) refl
                  (append_assoc t.text (fail_line r) (failing_lines (select (is_failing m w) rs))))
        ]
      ]
    ]

    check_records_lem :
        (m : SkillManifest J) (rs : List (InvocationRecord J)) (t : Tally) (w : W)
        → All HasDump rs
        → check_records json same run m rs t w ≡ (some (counted m w rs t), w)
    unfolding check_records flatten
    check_records_lem m [] t w d =
        ap (λ s. (some s, w)) (tally_eq (omega arith) (omega arith) (sym (append-nil t.text)))
    check_records_lem m (r ∷ rs) t w (d, ds) =
        rw
          (
            check_records,
            ap (λ p. p.0) (judge_record_lem m r w d),
            ap (λ p. p.1) (judge_record_lem m r w d),
          )
          (check_records_lem m rs (count (outcome m r w) (fail_line r) t) w ds
            ∙ ap (λ s. (some s, w)) (counted-count m r rs t w d))

    -- Where the commands leave the world as it is and the parameters of the calls can be dumped, the
    -- verdict is -1 when some call fails, which is a tool of the manifest whose output is not the
    -- recorded one and no bridge of that tool gives it either; else 1 when some call differs, and else
    -- 0, whether or not a tool has a schema. The report has one line for every call that fails, in order.
    pub validate_records_lem :
        (m : SkillManifest J) (rs : List (InvocationRecord J)) (report : Bytes) (w : W)
        → All HasDump rs
        → validate_records json same run m rs report w ≡ record {
          code = some (
              if is_empty (select (is_failing m w) rs)
              then (if is_empty (select (is_rescued m w) rs) then pos 0 else pos 1)
              else negsuc 0);
          report = failing_lines (select (is_failing m w) rs);
          world = w;
        }
    unfolding validate_records no_tally
    validate_records_lem m rs report w d =
        let failing = select (is_failing m w) rs in
        let rescued = select (is_rescued m w) rs in
        let counts : check_records json same run m rs (no_tally json same run) w ≡ (
          some (record {
            failures = length failing;
            bridges_used = length rescued;
            text = failing_lines failing;
          }),
          w,
        ) =
          check_records_lem m rs (no_tally json same run) w d
          ∙ ap (λ t. (some t, w)) (tally_eq (omega arith) (omega arith) refl) in
        rw (validate_records, ap (λ p. p.0) counts, ap (λ p. p.1) counts)
          (ap (λ c. record { code = some c; report = failing_lines failing; world = w })
            (decide_lem failing rescued))
