-- ===== src/Ast/Graph.antt =====
-- crates/knok-core/src/ast.rs: expressions, graphs before and after type checking, and signatures.
use knok.Base.{ℕ, List, String}
use knok.Ast.Types.{ElementType, TensorType}
use knok.Ast.Op.{UnaryOp, BinaryOp, CallOp}

-- `Box` and `Arc` are transparent: an expression is compared by its structure, never by its address.
mutual
  pub data Expr : Type 0 where
    var : String → Expr
    const : String → ElementType → Expr
    unary : UnaryOp → Expr → Expr
    binary : BinaryOp → Expr → Expr → Expr
    node : ℕ → Expr → Expr
    tuple_get : ℕ → Expr → ℕ → Expr
    call : CallOp → Exprs → Expr

  -- `Vec<Expr>`.
  pub data Exprs : Type 0 where
    nil : Exprs
    cons : Expr → Exprs → Exprs

pub record Input : Type 0 where
  pub name : String
  pub ty : TensorType

pub record Let : Type 0 where
  pub names : List String
  pub value : Expr

pub record Graph : Type 0 where
  pub name : String
  pub backend : String
  pub inputs : List Input
  pub outputs : List TensorType
  pub lets : List Let
  pub body : List Expr

pub record TypedValue : Type 0 where
  pub kind : Expr
  pub tys : List TensorType

pub record TypedExpr : Type 0 where
  pub kind : Expr
  pub ty : TensorType

pub record TypedLet : Type 0 where
  pub names : List String
  pub value : TypedValue

pub record TypedGraph : Type 0 where
  pub name : String
  pub backend : String
  pub inputs : List Input
  pub outputs : List TensorType
  pub lets : List TypedLet
  pub body : List TypedExpr

pub record GraphSignature : Type 0 where
  pub inputs : List TensorType
  pub outputs : List TensorType
