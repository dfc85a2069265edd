-- ===== src/Expression.antt =====
-- Expressions (saengra-server/include/expression.h): the tree that the parser builds of a pattern.
use saengra.Prelude.{ℕ, Option, List}
use saengra.Vertex.{VertexTypeName}
use saengra.Edge.{EdgeLabel}
use saengra.Refs.{RefName}

pub data Direction : Type 0 where
  forward : Direction
  backward : Direction
  both : Direction
  both_symmetric : Direction
  any : Direction

pub data OperationType : Type 0 where
  all : OperationType
  only_if : OperationType
  unless : OperationType
  skip : OperationType
  maybe : OperationType

pub record VertexExpr : Type 0 where
  pub type_name : Option VertexTypeName
  pub ref : Option RefName
  pub placeholder_idx : Option ℕ

pub record EdgeExpr : Type 0 where
  pub direction : Direction
  pub forward_labels : Option (List EdgeLabel)
  pub backward_labels : Option (List EdgeLabel)

-- An operation carries its shared refs, a repetition its bounds.
mutual
  pub data Expression : Type 0 where
    vertex_expr : VertexExpr → Expression
    edge_expr : EdgeExpr → Expression
    noop_expr : Expression
    concatenation_expr : Expressions → Expression
    or_expr : Expressions → Expression
    and_expr : Expressions → Expression
    operation_expr : OperationType → List RefName → Expression → Expression
    repetition_expr : ℕ → Option ℕ → Expression → Expression

  pub data Expressions : Type 0 where
    no_more : Expressions
    operand : Expression → Expressions → Expressions
