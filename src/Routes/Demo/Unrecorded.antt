-- ===== src/Routes/Demo/Unrecorded.antt =====
-- The routes of app/api/routes/optimization.py on the demo memory: they follow the status machine of the
-- workflow, but a rejection, an approval and an application raise before their event is recorded,
-- since the event's detail holds an instant that `json.dumps` refuses.
use khalij_intelligent_energ.Base.{
  ℕ, String, Bool, true, Option, none, some, or_else, if◌then◌else◌, suc, ◌≡◌, refl, arith,
}
use khalij_intelligent_energ.Base.Float.{FloatOps}
use khalij_intelligent_energ.Base.Result.{ok, err}
use khalij_intelligent_energ.Base.Table.{Table, lookup, insert, lookup-insert}
use khalij_intelligent_energ.Config.{Settings}
use khalij_intelligent_energ.Ingestion.TagMap.{TagMap}
use khalij_intelligent_energ.Ingestion.OpcuaWrite.{OpcServer}
use khalij_intelligent_energ.Optimization.Model.{
  UnitOperatingState, Status, Recommendation, Decision,
}
use khalij_intelligent_energ.Optimization.Store.{is_open, is_rejected}
use khalij_intelligent_energ.Optimization.Apply.{is_accepted, is_approved}
use khalij_intelligent_energ.Demo.MemoryRecs
use khalij_intelligent_energ.Demo.MemoryRecs.{
  MemoryRecStore, MemoryAuditEvent, MemoryError, Extra, is_memory_id, persist, put_row, set_status,
  list_audit, set_extras, are_json, append_detail,
}
use khalij_intelligent_energ.Security.Auth.{Digests}
use khalij_intelligent_energ.Security.Deps.{CurrentUser, request_action}
use khalij_intelligent_energ.Routes.Outputs.{server_error}
use khalij_intelligent_energ.Routes.Stores.{ApiState, Header, is_decision, status_of}
use khalij_intelligent_energ.Routes.Memory.{
  memory_mode_of, memory_feedback, memory_approve, memory_apply,
}
use khalij_intelligent_energ.Routes.Recommendations

module _ {F : Type 0} where
  abbrev pub with_row : ℕ → Recommendation F → ApiState F → ApiState F
  with_row id rec st = record st {
    memory = record st.memory {
      recs = insert id rec st.memory.recs;
      audit_id = suc st.memory.audit_id;
    };
  }

module _ {F : Type 0} ⦃fl : FloatOps F⦄ where
  abbrev pub approved_row : ℕ → String → Recommendation F → Recommendation F
  approved_row now actor rec = record rec {
    status = Status.approved;
    approved_by = some actor;
    approved_at = some now;
  }

  pub memory_approve_run :
      (now id : ℕ) (actor : String) (rec : Recommendation F) (st : ApiState F)
      → lookup id st.memory.recs ≡ some rec
      → is_accepted rec.status ≡ true
      → memory_approve now id actor st
        ≡ (err server_error, with_row id (approved_row now actor rec) st)
  unfolding memory_approve set_status set_extras are_json append_detail put_row
  memory_approve_run now id actor rec st found t = ground arith

  abbrev pub applied_row : ℕ → String → Bool → Recommendation F → Recommendation F
  applied_row now actor dry_run rec = record rec {
    status = Status.applied;
    apply_mode = some (memory_mode_of dry_run);
    applied_by = some actor;
    applied_at = some now;
  }

  pub memory_apply_run :
      (now id : ℕ) (actor : String) (dry : Option Bool) (rec : Recommendation F) (st : ApiState F)
      → lookup id st.memory.recs ≡ some rec
      → is_approved rec.status ≡ true
      → memory_apply now id actor dry st
        ≡ (err server_error, with_row id (applied_row now actor (or_else dry true) rec) st)
  unfolding memory_apply set_status set_extras are_json append_detail put_row
  memory_apply_run now id actor dry rec st found t = ground arith

  -- What a request for feedback leaves of the demo memory.
  abbrev pub decided_row : ℕ → Decision → Recommendation F → Recommendation F
  decided_row now decision rec = record rec {
    status = status_of decision;
    resolved_at = if is_rejected (status_of decision) then some now else none;
  }

  pub memory_feedback_recs :
      (now id : ℕ) (decision : Decision) (operator : String) (comment : Option String)
      (rec : Recommendation F) (st : ApiState F)
      → lookup id st.memory.recs ≡ some rec
      → is_decision decision ≡ true
      → is_open rec.status ≡ true
      → let after = (memory_feedback now id decision operator comment st).1.memory in
        (after.recs ≡ insert id (decided_row now decision rec) st.memory.recs)
        × (after.next_id ≡ st.memory.next_id)
  unfolding memory_feedback set_status set_extras are_json append_detail put_row
      MemoryRecs.append_unlocked
  memory_feedback_recs now id Decision.accepted operator comment rec st found a open_ = ground arith
  memory_feedback_recs now id Decision.rejected operator comment rec st found a open_ = ground arith
  memory_feedback_recs now id (Decision.other text) operator comment rec st found a open_ = cc

  put_twice :
      (id : ℕ) (a b : Recommendation F) (recs : Table (Recommendation F))
      → lookup id (insert id b (insert id a recs)) ≡ some b
  put_twice id a b recs = ground (arith, lookup-insert id id b (insert id a recs))

module _ {F : Type 0} ⦃fl : FloatOps F⦄ (cfg : Settings F) (d : Digests) (plants : TagMap F) where
  -- An accepted recommendation of the demo memory that is approved and then applied through the
  -- routes, by users who may, ends with the status applied; but both requests are answered by 500,
  -- and neither leaves an audit event.
  pub demo_apply_unrecorded :
      (opc : OpcServer F) (state : Option (UnitOperatingState F)) (now later id : ℕ)
      (header header' : Header) (comment : Option String) (dry : Option Bool)
      (user user' : CurrentUser) (rec : Recommendation F) (st : ApiState F)
      → is_memory_id id ≡ true
      → request_action cfg d now "operate" header ≡ ok user
      → request_action cfg d later "apply" header' ≡ ok user'
      → lookup id st.memory.recs ≡ some rec
      → is_accepted rec.status ≡ true
      → let approved = Recommendations.approve cfg d now header id comment st in
        let applied =
          Recommendations.apply cfg d plants opc state later header' id dry approved.1 in
        (approved.0 ≡ err server_error)
        × (applied.0 ≡ err server_error)
        × ((row : Recommendation F) × (lookup id applied.1.memory.recs ≡ some row)
            × (row.status ≡ Status.applied)
            × (row.approved_by ≡ some user.username)
            × (row.applied_by ≡ some user'.username))
        × (applied.1.memory.audit ≡ st.memory.audit)
  unfolding Recommendations.approve Recommendations.apply
  demo_apply_unrecorded opc state now later id header header' comment dry user user' rec st demo
        may_operate may_apply found accepted =
      let row = approved_row now user.username rec in
      let end_row = applied_row later user'.username (or_else dry true) row in
      let mid = with_row id row st in
      let there : lookup id mid.memory.recs ≡ some row =
        ground (arith, lookup-insert id id row st.memory.recs) in
      let approved : Recommendations.approve cfg d now header id comment st
          ≡ (err server_error, mid) =
        rw (may_operate, demo) (memory_approve_run now id user.username rec st found accepted) in
      let applied : Recommendations.apply cfg d plants opc state later header' id dry mid
          ≡ (err server_error, with_row id end_row mid) =
        rw (may_apply, demo) (memory_apply_run later id user'.username dry row mid there refl) in
      rw (approved, applied)
        (refl, refl, (end_row, put_twice id row end_row st.memory.recs, refl, refl, refl), refl)
