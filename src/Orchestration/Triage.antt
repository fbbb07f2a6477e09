-- ===== src/Orchestration/Triage.antt =====
-- `issue_triage_plan` of src/aegisrun/orchestration/models.py.
use Prim.Native.String.{◌++◌}
use equi_seek.Prelude.{String, true, List, [], ◌∷◌, Option, none, some, ◌⊎◌, inl, inr}
use equi_seek.Orchestration.Spec.{TaskSpec, SpecError, default_spec, check_spec}
use equi_seek.Orchestration.Plan.{Plan, Clock, Result}
use equi_seek.Orchestration.Revise.{create}

abbrev after : String → TaskSpec → TaskSpec
after dependency s = record s { depends_on = dependency ∷ [] }

abbrev pub triage_specs : String → List TaskSpec
triage_specs run_id =
    default_spec "skill" "加载适用技能" "load_skill"
    ∷ after "skill" (default_spec "baseline" "运行失败基线测试" "run_tests")
    ∷ after "baseline" (default_spec "inspect" "读取与定位源码" "read_source")
    ∷ after "inspect" (default_spec "patch" "生成最小补丁" "create_patch")
    ∷ approval
    ∷ after "approval" (default_spec "verify" "执行回归测试" "verify")
    ∷ after "verify" (default_spec "report" "生成可校验报告" "finish")
    ∷ []
  where
    approval : TaskSpec
    approval =
        let s = after "patch" (default_spec "approval" "审批高风险写操作" "apply_patch") in
        record s {
          approval_required = true;
          side_effect = true;
          idempotency_key = some (run_id ++ ":apply_patch");
        }

-- `__post_init__` of the specs of a list literal, one after the other: the first error
unfoldable pub check_specs : List TaskSpec → Option SpecError
check_specs [] = none
check_specs (s ∷ specs) = elim (check_spec s) [ none ↦ check_specs specs | some e ↦ some e ]

-- The specs are made, and checked by it, before `create` runs; `inl` is the error of a spec.
unfoldable pub issue_triage_plan : Clock → String → SpecError ⊎ Result Plan
issue_triage_plan now run_id = elim (check_specs (triage_specs run_id)) [
  | none ↦ inr (create now run_id "复现问题、最小修复并验证结果" (triage_specs run_id) [])
  | some e ↦ inl e
]
