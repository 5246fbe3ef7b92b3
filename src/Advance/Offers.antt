-- ===== src/Advance/Offers.antt =====
-- core/stage_resolution_service.py: what the operations of a stage offer for the blockers of its gate.
use ai_workflow_premortem_pu.Prelude.{
  ℕ, String, Bool, true, false, not, ◌&&◌, ◌||◌, Option, none, some, List, [], ◌∷◌, map, mem,
  is_blank, Outcome, ok, raised, string_eq, ◌==◌, All, All-map, In, Bool-cases, beq_refl, ◌≡◌, refl,
  ◌∙◌, ap, inl, inr, arith, concat,
}
use ai_workflow_premortem_pu.Dict.{get}
use ai_workflow_premortem_pu.Model.Context.{ProjectContext, or_default}
use ai_workflow_premortem_pu.Gates.Blocker.{
  RequiredResolution, resolve_action, approve_escalation, edit_stage_output, approve_expert_review,
  StageBlocker,
}
use ai_workflow_premortem_pu.Gates.Engine.{StageGateResult, GateError}
use ai_workflow_premortem_pu.Advance.Contract.{
  Template, the_action, resolution_text, operation_contract_for, resolution_operation_contract,
  resolve_endpoint,
}
use ai_workflow_premortem_pu.Advance.Operations.{
  StageResolutionOperation, operation_id_of, operation_from_blocker, operations_loop, operations_of,
  build_stage_resolution_operations, api_path_of, bound_path,
}
use ai_workflow_premortem_pu.Advance.Coordinator.Moves.{Gate}

-- The identifiers, none twice.
abbrev pub Distinct : List StageResolutionOperation → Type 0
Distinct [] = Unit
Distinct (o ∷ ops) =
    All (λ (p : StageResolutionOperation). (p.operation_id == o.operation_id) ≡ false) ops
    × Distinct ops

-- The resolutions that go through a pending action.
abbrev pub through_action : RequiredResolution → Bool
through_action resolve_action = true
through_action approve_escalation = true
through_action edit_stage_output = true
through_action approve_expert_review = true
through_action _ = false

-- The operation is offered for the blocker, and a call it offers on an action names that action.
pub record Resolves (session_id : String) (b : StageBlocker) (o : StageResolutionOperation)
    : Type 0 where
  pub of_blocker : o ≡ operation_from_blocker session_id b
  pub identified : (o.operation_id ≡ operation_id_of b) × (o.blocker_id ≡ b.blocker_id)
  pub asks :
      (o.required_resolution ≡ b.required_resolution)
      × (o.blocker_type ≡ b.blocker_type)
      × (o.severity ≡ b.severity)
      × (o.stage_id ≡ b.stage_id)
      × (o.stage_output_version ≡ b.stage_output_version)
  pub about :
      (o.source_type ≡ b.source_type) × (o.source_id ≡ b.source_id) × (o.action_id ≡ b.action_id)
  pub hard : o.hard_blocker ≡ not b.can_be_overridden_by_approval
  pub executable :
      o.can_execute_via_api ≡ true
      → through_action b.required_resolution ≡ true
      → (id : String) × (o.action_id ≡ some id)
        × (is_blank id ≡ false)
        × (o.api_path
            ≡ some (
                concat "/sessions/"
                  (concat session_id (concat "/actions/" (concat id "/resolve")))))

action_contract :
    (r : RequiredResolution)
    → through_action r ≡ true
    → operation_contract_for (resolution_text r) ≡ resolve_endpoint
unfolding operation_contract_for resolution_operation_contract get
action_contract resolve_action h = refl
action_contract approve_escalation h = refl
action_contract edit_stage_output h = refl
action_contract approve_expert_review h = refl
action_contract _ h = absurd cc

abbrev resolve_template : Template
resolve_template = record { before = "/actions/"; place = some the_action; after = "/resolve" }

module _ (session_id : String) where
  action_path :
      (id : Option String) (path : String)
      → bound_path session_id resolve_template id ≡ some path
      → (i : String) × (id ≡ some i)
        × (is_blank i ≡ false)
        × (path
            ≡ concat "/sessions/" (concat session_id (concat "/actions/" (concat i "/resolve"))))
  action_path none path h = absurd cc
  action_path (some i) path h = elim (Bool-cases (is_blank i)) [
    | inl t ↦ absurd (let k = rw t at h in cc)
    | inr f ↦ let k = rw f at h in (i, refl, f, cc)
  ]

  executable_path :
      (p : Option String)
      → (true && not (is_blank (or_default p ""))) ≡ true
      → (path : String) × (p ≡ some path)
  executable_path none h = absurd cc
  executable_path (some path) h = (path, refl)

  operation_from_blocker-Resolves :
      (b : StageBlocker) → Resolves session_id b (operation_from_blocker session_id b)
  unfolding operation_from_blocker api_path_of
  operation_from_blocker-Resolves b = record {
    of_blocker = refl;
    identified = (refl, refl);
    asks = (refl, refl, refl, refl, refl);
    about = (refl, refl, refl);
    hard = refl;
    executable = λ e t.
        let c = action_contract b.required_resolution t in
        let (path, found) =
          executable_path (bound_path session_id resolve_template b.action_id) (rw c at e) in
        let (i, named, full, same) = action_path b.action_id path found in
        (i, named, full, rw c (found ∙ ap (λ (x : String). some x) same));
  }

  -- An operation for one of the blockers, whose identifier is not in use yet.
  record Offered (seen : List String) (bs : List StageBlocker) (o : StageResolutionOperation)
      : Type 0 where
    fresh : mem o.operation_id seen ≡ false
    resolves : (b : StageBlocker) × In b bs × Resolves session_id b o

  Offered-later :
      (seen seen' : List String) (b : StageBlocker) (bs : List StageBlocker)
      (o : StageResolutionOperation)
      → (mem o.operation_id seen' ≡ false → mem o.operation_id seen ≡ false)
      → Offered seen' bs o
      → Offered seen (b ∷ bs) o
  Offered-later seen seen' b bs o f h =
      let (c, m, r) = h.resolves in record { fresh = f h.fresh; resolves = (c, inr m, r) }

  operations_loop-Offered :
      (seen : List String) (bs : List StageBlocker)
      → All (Offered seen bs) (operations_loop session_id seen bs)
  unfolding operations_loop
  operations_loop-Offered seen [] = tt
  operations_loop-Offered seen (b ∷ bs) =
      let o = operation_from_blocker session_id b in
      let seen' = o.operation_id ∷ seen in
      elim (Bool-cases (mem o.operation_id seen)) [
        | inl t ↦ rw t (
            All-map (operations_loop session_id seen bs)
              (λ p. Offered-later seen seen b bs p (λ h. h)) (operations_loop-Offered seen bs))
        | inr f ↦ rw f (
          record { fresh = f; resolves = (b, inl refl, operation_from_blocker-Resolves b) },
          All-map (operations_loop session_id seen' bs)
              (λ p. Offered-later seen seen' b bs p (λ h. ground arith))
              (operations_loop-Offered seen' bs),
        )
      ]

  operations_loop-Distinct :
      (seen : List String) (bs : List StageBlocker) → Distinct (operations_loop session_id seen bs)
  unfolding operations_loop
  operations_loop-Distinct seen [] = tt
  operations_loop-Distinct seen (b ∷ bs) =
      let o = operation_from_blocker session_id b in
      let seen' = o.operation_id ∷ seen in
      elim (Bool-cases (mem o.operation_id seen)) [
        | inl t ↦ rw t (operations_loop-Distinct seen bs)
        | inr f ↦ rw f (
          All-map (operations_loop session_id seen' bs) (λ p h. let g = h.fresh in ground arith)
              (operations_loop-Offered seen' bs),
          operations_loop-Distinct seen' bs,
        )
      ]

  abbrev ids_of : List StageResolutionOperation → List String
  ids_of ops = map (λ (o : StageResolutionOperation). o.operation_id) ops

  -- The identifier is in use, or an operation has it.
  abbrev pub Answered : List String → List StageResolutionOperation → StageBlocker → Type 0
  Answered seen ops b =
      (mem (operation_id_of b) seen || mem (operation_id_of b) (ids_of ops)) ≡ true

  Answered-ops :
      (seen : List String) (ops ops' : List StageResolutionOperation) (bs : List StageBlocker)
      → ops ≡ ops'
      → All (Answered seen ops') bs
      → All (Answered seen ops) bs
  Answered-ops seen ops ops' bs e h = rw e h

  operations_loop-Answered :
      (seen : List String) (bs : List StageBlocker)
      → All (Answered seen (operations_loop session_id seen bs)) bs
  unfolding operations_loop operation_from_blocker
  operations_loop-Answered seen [] = tt
  operations_loop-Answered seen (b ∷ bs) =
      let id = operation_id_of b in
      let o = operation_from_blocker session_id b in
      let rest = operations_loop session_id seen bs in
      let kept = o ∷ operations_loop session_id (id ∷ seen) bs in
      elim (Bool-cases (mem id seen)) [
        | inl t ↦
            Answered-ops seen _ rest (b ∷ bs) (rw t refl)
              (ground arith, operations_loop-Answered seen bs)
        | inr f ↦ Answered-ops seen _ kept (b ∷ bs) (rw f refl) (
          ground (arith, beq_refl id),
          All-map bs (λ c h. ground arith) (operations_loop-Answered (id ∷ seen) bs),
        )
      ]

-- What a list of operations offers for a list of blockers.
pub record Offers (session_id : String) (bs : List StageBlocker)
    (ops : List StageResolutionOperation) : Type 0 where
  pub sound :
      All
        (λ (o : StageResolutionOperation). (b : StageBlocker) × In b bs × Resolves session_id b o)
        ops
  pub complete :
      All
        (λ (b : StageBlocker).
          mem (operation_id_of b) (map (λ (o : StageResolutionOperation). o.operation_id) ops)
          ≡ true)
        bs
  pub distinct : Distinct ops

-- The operations of a stage, whenever its gate answers: each belongs to a blocker of the gate, keeps its
-- identifier, what it asks for, its severity and what it is about, its hardness and, if it is called executable on an action, has the path of that action, which is named;
-- each blocker is answered by an operation with its identifier; and no identifier occurs twice.
pub build_stage_resolution_operations-Offers :
    (gate : Gate) (ctx : ProjectContext) (stage : ℕ) (ops : List StageResolutionOperation)
    → (build_stage_resolution_operations gate ctx stage).0 ≡ ok ops
    → (result : StageGateResult) × ((gate ctx stage).0 ≡ ok result)
      × Offers (gate ctx stage).1.session_id result.blockers ops
unfolding build_stage_resolution_operations operations_of
build_stage_resolution_operations-Offers gate ctx stage ops h = from_answer (gate ctx stage) h
  where
    from_answer :
        (p : Outcome GateError StageGateResult × ProjectContext)
        → (operations_of gate p).0 ≡ ok ops
        → (result : StageGateResult) × (p.0 ≡ ok result) × Offers p.1.session_id result.blockers ops
    from_answer (raised e, c) h = absurd cc
    from_answer (ok result, c) h =
        let bs = result.blockers in
        let e : operations_loop c.session_id [] bs ≡ ops = cc in
        (
          result,
          refl,
          rw⁻¹ e (record {
            sound =
                All-map (operations_loop c.session_id [] bs) (λ o h. h.resolves)
                  (operations_loop-Offered c.session_id [] bs);
            complete = operations_loop-Answered c.session_id [] bs;
            distinct = operations_loop-Distinct c.session_id [] bs;
          }),
        )
