-- ===== src/Expression.antt =====
-- What the alarm expression parser hands on: the classes `SubExpr` and `BinaryOp` of
-- monasca/expression_parser/alarm_expr_parser.py. The grammar itself is pyparsing's work: a parse
-- result, or the column of the failure, is an argument where the server parses.
use monasca_api.Prelude.{
  ◌||◌, String, List, [], ◌∷◌, ◌++◌, Option, none, some, seq, split, lower, upper, append,
  if◌then◌else◌,
}

-- A group that pyparsing did not find is the empty text.
pub record SubExpr : Type 0 where
  pub func : String
  pub metric_name : String
  pub dimensions : String
  pub operator : String
  pub threshold : String
  pub given_period : String
  pub given_periods : String
  pub id : Option String

unfoldable pub normalized_func : SubExpr → String
normalized_func e = upper e.func

unfoldable pub normalized_metric_name : SubExpr → String
normalized_metric_name e = lower e.metric_name

unfoldable pub dimensions_as_list : SubExpr → List String
dimensions_as_list e = if seq e.dimensions "" then [] else split b',' e.dimensions

unfoldable pub period : SubExpr → String
period e = if seq e.given_period "" then "60" else e.given_period

unfoldable pub periods : SubExpr → String
periods e = if seq e.given_periods "" then "1" else e.given_periods

-- `None` where no test passes
unfoldable pub normalized_operator : SubExpr → Option String
normalized_operator e =
    if seq (lower e.operator) "lt" || seq e.operator "<"
    then some "LT"
    else if seq (lower e.operator) "gt" || seq e.operator ">"
    then some "GT"
    else if seq (lower e.operator) "lte" || seq e.operator "<="
    then some "LTE"
    else if seq (lower e.operator) "gte" || seq e.operator ">="
    then some "GTE"
    else none

-- `"{}({}{{{}}}, {}) {} {} times {}"`, each optional part if its text is not empty
unfoldable pub formatted : String → String → String → String → String → String → String → String
formatted func metric_name dimensions period operator threshold periods =
    let head = append func (append "(" metric_name) in
    let dims = if seq dimensions "" then "" else append "{" (append dimensions "}") in
    let per = if seq period "" then "" else append ", " period in
    let times = if seq periods "" then "" else append " times " periods in
    append head (
      append dims
        (append per (append ") " (append operator (append " " (append threshold times))))))

unfoldable pub fmtd_sub_expr_str : SubExpr → String
unfolding formatted
fmtd_sub_expr_str e =
    formatted e.func e.metric_name e.dimensions e.given_period e.operator e.threshold
      e.given_periods

mutual
  -- A parse result: a sub expression, or the operands of a row of `and` or of `or`.
  pub data Expr : Type 0 where
    leaf : SubExpr → Expr
    and_sub_expr : Operands → Expr
    or_sub_expr : Operands → Expr

  pub data Operands : Type 0 where
    no_operands : Operands
    operand : Expr → Operands → Operands

unfoldable mutual
  pub operands_list : Expr → List SubExpr
  operands_list (leaf e) = e ∷ []
  operands_list (and_sub_expr es) = all_operands es
  operands_list (or_sub_expr es) = all_operands es

  pub all_operands : Operands → List SubExpr
  all_operands no_operands = []
  all_operands (operand e es) = operands_list e ++ all_operands es
