-- ===== src/Routes/Examples.antt =====
-- Requests to the routes on small data, and their theorems on them.
use khalij_intelligent_energ.Base.{ℕ, ◌≡◌, refl, false, none, some, List, [], ◌∷◌, arith}
use khalij_intelligent_energ.Base.NatFloat.{nat_float}
use khalij_intelligent_energ.Base.Result.{err}
use khalij_intelligent_energ.Base.Table.{lookup, get}
use khalij_intelligent_energ.Optimization.Model.{Status, Decision, Recommendation}
use khalij_intelligent_energ.Optimization.Store.{new_row}
use khalij_intelligent_energ.Optimization.Examples.{advice, tag_map, good_server}
use khalij_intelligent_energ.Optimization.Workflow.{empty_world}
use khalij_intelligent_energ.Demo.MemoryRecs.{new_memory, is_memory_id}
use khalij_intelligent_energ.Security.Auth.{has_colon, verify_token}
use khalij_intelligent_energ.Security.Roles.{role_allows}
use khalij_intelligent_energ.Security.Deps.{request_action, get_current_user, require_action}
use khalij_intelligent_energ.Security.Examples.{enforced_settings, digests, admin_token, admin_user}
use khalij_intelligent_energ.Routes.Outputs.{server_error}
use khalij_intelligent_energ.Routes.Stores.{ApiState, Header}
use khalij_intelligent_energ.Routes.Recommendations
use khalij_intelligent_energ.Routes.Requests.{ApiRequest, approve, apply, feedback, run_api}
use khalij_intelligent_energ.Routes.Demo.Evolves.{IsFresh}
use khalij_intelligent_energ.Routes.Demo.Workflow.{Passes, demo_follows_workflow}
use khalij_intelligent_energ.Routes.Demo.Unrecorded.{demo_apply_unrecorded}

abbrev bearer : Header
bearer = some (some admin_token)

abbrev accepted_row : Recommendation ℕ
accepted_row = record (new_row 100 [] advice) { status = Status.accepted }

abbrev demo_state : ApiState ℕ
demo_state = record {
  world = empty_world;
  memory = record new_memory { recs = (900000, accepted_row) ∷ []; next_id = 900001 };
}

abbrev requests : List (ApiRequest ℕ)
requests =
    feedback 200 bearer 1 Decision.accepted "op" none
    ∷ approve 210 bearer 900000 none
    ∷ apply good_server none 220 bearer 900000 (some false)
    ∷ []

demo_apply_unrecorded_example :
    let approved =
      Recommendations.approve enforced_settings digests 200 bearer 900000 none demo_state in
    let applied =
      Recommendations.apply enforced_settings digests tag_map good_server none 210 bearer 900000
        none approved.1 in
    (approved.0 ≡ err server_error)
    × (applied.0 ≡ err server_error)
    × ((row : Recommendation ℕ) × (lookup 900000 applied.1.memory.recs ≡ some row)
        × (row.status ≡ Status.applied)
        × (row.approved_by ≡ some "admin")
        × (row.applied_by ≡ some "admin"))
    × (applied.1.memory.audit ≡ [])
unfolding is_memory_id request_action get_current_user require_action verify_token has_colon
    role_allows get lookup
demo_apply_unrecorded_example =
    demo_apply_unrecorded enforced_settings digests tag_map good_server none 200 210 900000 bearer
      bearer none none admin_user admin_user accepted_row demo_state refl refl refl refl refl

demo_state-IsFresh : IsFresh demo_state.memory
unfolding lookup
demo_state-IsFresh id le = ground arith

demo_follows_workflow_example :
    let after = (run_api enforced_settings tag_map digests requests demo_state).memory in
    ((row : Recommendation ℕ) × (lookup 900000 after.recs ≡ some row)
      × Passes requests 900000 Status.accepted row.status)
    × IsFresh after
unfolding lookup
demo_follows_workflow_example =
    demo_follows_workflow enforced_settings tag_map digests requests demo_state 900000 accepted_row
      demo_state-IsFresh refl
