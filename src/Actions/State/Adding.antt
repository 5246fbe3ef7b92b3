-- ===== src/Actions/State/Adding.antt =====
-- core/governance/action_state.py: adding an action twice adds it once.
use ai_workflow_premortem_pu.Prelude.{
  append_nil, String, Bool, true, false, not, ◌&&◌, ◌||◌, Option, none, List, [], ◌∷◌, ◌++◌, any,
  length, ◌≤◌, ◌≡◌, ◌↔◌, refl, sym, arith, inl, inr, Bool-cases, any-appended, nat_eq, string_eq,
  option_string_eq, beq_refl, ◌==◌,
}
use ai_workflow_premortem_pu.Model.Enums.{ActionType, is_inactive}
use ai_workflow_premortem_pu.Model.Records.{PendingHumanAction}
use ai_workflow_premortem_pu.Model.Context.{ProjectContext, append_audit_event, current_version}
use ai_workflow_premortem_pu.Actions.State.{
  NewAction, is_same_action, has_action, version_for, new_action, add_action_if_missing, type_text,
}

module _ (ctx : ProjectContext) (n : NewAction) where
  -- An active action as the new one would be.
  abbrev pub is_wanted : PendingHumanAction → Bool
  is_wanted a =
      is_same_action n.stage n.source_type_of n.source_id_of n.type (version_for ctx n) a
      && (false || not (is_inactive a.status))

  same_type : (t : ActionType) → (type_text t == type_text t) ≡ true
  same_type t = beq_refl (type_text t)

  new_is_wanted : (fresh : String) → is_wanted (new_action fresh (version_for ctx n) n) ≡ true
  unfolding is_same_action new_action
  new_is_wanted fresh =
      rw
        (
          beq_refl n.stage,
          beq_refl n.source_type_of,
          beq_refl n.source_id_of,
          same_type n.type,
          beq_refl (version_for ctx n),
        )
        refl

  -- What adding leaves: the answer is an action exactly if there was none; the former actions stay; then
  -- there is a wanted one, more than one only if there were more before; and adding again changes nothing.
  pub record Adds (fresh : String) (r : Option PendingHumanAction × ProjectContext) : Type 0 where
    pub answers : (r.0 ≡ none) ↔ (any is_wanted ctx.pending_actions ≡ true)
    pub keeps :
        (added : List PendingHumanAction) × (r.1.pending_actions ≡ ctx.pending_actions ++ added)
        × (length added ≤ 1)
    pub found : any is_wanted r.1.pending_actions ≡ true
    pub again : (other : String) → add_action_if_missing r.1 other n ≡ (none, r.1)

  -- Adding an action that may be missing: the answer is a new action exactly if no active one of the same
  -- stage, source, type and output version is there; the former actions stay in place, at most one is
  -- appended, and one as wanted is there then; adding again answers nothing and changes nothing.
  pub add_action_if_missing-Adds : (fresh : String) → Adds fresh (add_action_if_missing ctx fresh n)
  unfolding add_action_if_missing has_action append_audit_event version_for current_version
  add_action_if_missing-Adds fresh = elim (Bool-cases (any is_wanted ctx.pending_actions)) [
    | inl t ↦ rw t (record {
      answers = (λ _. t, λ _. refl);
      keeps = ([], sym (append_nil ctx.pending_actions), omega arith);
      found = t;
      again = λ other. rw t refl;
    })
    | inr f ↦
        let a = new_action fresh (version_for ctx n) n in
        let e = any-appended is_wanted ctx.pending_actions a (new_is_wanted fresh) in
        rw f (record {
          answers = (λ h. absurd cc, λ h. absurd cc);
          keeps = (a ∷ [], refl, omega arith);
          found = e;
          again = λ other. rw e refl;
        })
  ]
