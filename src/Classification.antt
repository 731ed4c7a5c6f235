-- ===== src/Classification.antt =====
-- The classification of a tool call: internal/classification/classifier.go and types.go. The tables of
-- Go's package unicode and the parsers of net/url are parameters, given as instances.
pub mod Input
pub mod Intents
pub mod Jira
pub mod Mock
pub mod Classify
pub mod Paths
pub mod Risk
use rbitr.Prelude.{String, Option, List, Map}

-- The functions of net/url that the classifier calls, with `none` for their error: the path of
-- `url.Parse`, and `url.ParseQuery`.
pub record Url : Type 0 where
  pub parsed_path : String → Option String
  pub parsed_query : String → Option (Map (List String))

-- The constants `ActionType…`, which are texts in Go.
pub data ActionType : Type 0 where
  crm_delete data_delete data_bulk_export data_export access_grant : ActionType
  crm_read data_query data_update data_read : ActionType
  ticket_create ticket_comment ticket_update payment_refund access_role_change : ActionType

abbrev pub action_text : ActionType → String
action_text crm_delete = "CRM.DELETE"
action_text data_delete = "DATA.DELETE"
action_text data_bulk_export = "DATA.BULK_EXPORT"
action_text data_export = "DATA.EXPORT"
action_text access_grant = "ACCESS.GRANT"
action_text crm_read = "CRM.READ"
action_text data_query = "DATA.QUERY"
action_text data_update = "DATA.UPDATE"
action_text data_read = "DATA.READ"
action_text ticket_create = "TICKET.CREATE"
action_text ticket_comment = "TICKET.COMMENT"
action_text ticket_update = "TICKET.UPDATE"
action_text payment_refund = "PAYMENT.REFUND"
action_text access_role_change = "ACCESS.ROLE_CHANGE"

abbrev pub default_risk : ActionType → String
default_risk payment_refund = "HIGH"
default_risk access_role_change = "HIGH"
default_risk data_export = "CRITICAL"
default_risk access_grant = "CRITICAL"
default_risk data_bulk_export = "CRITICAL"
default_risk data_delete = "CRITICAL"
default_risk crm_delete = "CRITICAL"
default_risk ticket_create = "LOW"
default_risk ticket_comment = "LOW"
default_risk ticket_update = "LOW"
default_risk data_read = "LOW"
default_risk data_query = "LOW"
default_risk crm_read = "LOW"
default_risk data_update = "MEDIUM"

pub record Result : Type 0 where
  pub action_type : String
  pub action_risk : String
  pub action_summary : String

abbrev pub new_result : ActionType → String → Result
new_result t summary = record {
  action_type = action_text t;
  action_risk = default_risk t;
  action_summary = summary;
}

pub record ClassifyInput : Type 0 where
  pub method : String
  pub raw_path : String
  pub normalized_path : String
  pub segments : List String
  pub path_tokens : List String
  pub query_values : Map (List String)
  pub query_tokens : List String
