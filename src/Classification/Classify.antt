-- ===== src/Classification/Classify.antt =====
-- `Classify`: the tool's own rules, or the generic ones. The headers are not read.
use rbitr.Prelude.{String, ◌==◌, if◌then◌else◌, Unicode, to_lower, trim_space}
use rbitr.Classification.{Url, Result}
use rbitr.Classification.Input.{new_classify_input}
use rbitr.Classification.Intents.{classify_generic}
use rbitr.Classification.Jira.{classify_jira}
use rbitr.Classification.Mock.{classify_mock_internal}

module _ ⦃u : Unicode⦄ ⦃l : Url⦄ where
  unfoldable pub classify : String → String → String → String → Result
  classify tool_id method path query =
      let input = new_classify_input method path query in
      let tool = to_lower (trim_space tool_id) in
      if tool == "jira"
      then classify_jira input
      else if tool == "mock_internal"
      then classify_mock_internal input
      else classify_generic input
