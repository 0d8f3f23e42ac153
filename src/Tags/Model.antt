-- ===== src/Tags/Model.antt =====
-- src/blob/persistence/QueryInterpreter/QueryNodes: the syntax trees of tag queries.
use azurite.Prelude.{Option}
use azurite.Conditions.Model.{Text}

-- The six comparison classes, in the order in which the parser tries their operators.
pub data Operator : Type 0 where
  equals greater_than_equal less_than_equal not_equals greater_than less_than : Operator

-- One constructor for each class of node; the comparison classes, which differ in their operator, are
-- `compare_node`.
pub data QueryNode : Type 0 where
  or_node and_node : QueryNode → QueryNode → QueryNode
  compare_node : Operator → QueryNode → QueryNode → QueryNode
  expression_node : QueryNode → QueryNode
  key_node constant_node : Text → QueryNode

-- `context[identifier]`: a tag's value, undefined, or what Object.prototype has under that name,
-- which compares by its text and equals no string.
pub data TagValue : Type 0 where
  undefined : TagValue
  text inherited : Text → TagValue

pub record TagContent : Type 0 where
  pub key : Option Text
  pub value : TagValue
