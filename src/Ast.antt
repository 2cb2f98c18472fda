-- ===== src/Ast.antt =====
-- ast_expr.h, ast_type.h and ast_attr.h: the nodes that the parser builds. Lists of nodes and
-- optional nodes are written out, since a node may not hold a list of nodes. Every node carries the
-- range of the source that it covers.
use rox.Prelude.{ℕ, Bool}
use rox.Lexer.Char.{Bytes}
use rox.Lexer.Token.{Range}

-- `AstBinExpr::Op`, `AstLBinExpr::Op` and `AstUnaryExpr::Op`.
pub data BinOp : Type 0 where
  mul div add sub lshift rshift lt le min gt ge max eq ne band bor : BinOp

pub data LBinOp : Type 0 where
  land lor : LBinOp

pub data UnaryOp : Type 0 where
  not neg deref addrof : UnaryOp

-- `AstIntExpr::Kind`.
pub data IntKind : Type 0 where
  u8 u16 u32 u64 s8 s16 s32 s64 untyped : IntKind

-- `AstFltExpr::Kind`.
pub data FltKind : Type 0 where
  f32 f64 untyped : FltKind

mutual
  pub data Expr : Type 0 where
    tuple_expr : Range → Exprs → Expr
    call_expr : Range → Expr → Expr → Bool → Expr
    type_expr : Range → AstType → Expr
    var_expr : Range → Bytes → Expr
    selector_expr : Range → Bytes → Expr
    int_expr : Range → IntKind → ℕ → Expr
    flt_expr : Range → FltKind → Bytes → Expr
    str_expr : Range → Bytes → Expr
    bool_expr : Range → Bool → Expr
    agg_expr : Range → Exprs → Expr
    typed_agg_expr : Range → AstType → Exprs → Expr
    bin_expr : Range → BinOp → Expr → Expr → Expr
    lbin_expr : Range → LBinOp → Expr → Expr → Expr
    unary_expr : Range → UnaryOp → Expr → Expr
    index_expr : Range → Expr → Expr → Expr
    explode_expr : Range → Expr → Expr
    eff_expr : Range → Expr → Expr
    infer_size_expr : Range → Expr
    access_expr : Range → Expr → Expr → Expr
    cast_expr : Range → Expr → Expr → Expr
    test_expr : Range → Expr → Expr → Expr
    prop_expr : Range → Expr → Expr → Expr

  pub data Exprs : Type 0 where
    no_exprs : Exprs
    more_exprs : Expr → Exprs → Exprs

  pub data AstType : Type 0 where
    tuple_type : Range → Elems → Attrs → AstType
    group_type : Range → AstType → AstType
    union_type : Range → Types → Attrs → AstType
    ident_type : Range → Bytes → Attrs → AstType
    varargs_type : Range → Attrs → AstType
    ptr_type : Range → AstType → Attrs → AstType
    array_type : Range → AstType → Expr → Attrs → AstType
    slice_type : Range → AstType → Attrs → AstType
    atom_type : Range → AstType → Attrs → AstType
    enum_type : Range → Enums → Attrs → AstType
    fn_type : Range → Args → Args → Types → AstType → Attrs → AstType

  pub data Types : Type 0 where
    no_types : Types
    more_types : AstType → Types → Types

  -- `AstTupleType::Elem` and `AstArgsType::Elem`.
  pub data Elems : Type 0 where
    no_elems : Elems
    elem : AstType → Elems → Elems
    named_elem : Bytes → AstType → Elems → Elems

  -- `AstArgsType`.
  pub data Args : Type 0 where
    args_type : Range → Elems → Args

  -- `AstEnumType::Enumerator`.
  pub data Enums : Type 0 where
    no_enums : Enums
    enumerator : Bytes → Enums → Enums
    init_enumerator : Bytes → Expr → Enums → Enums

  pub data Attrs : Type 0 where
    no_attrs : Attrs
    more_attrs : Range → Bytes → Expr → Attrs → Attrs

-- `AstNode::range`.
unfoldable pub expr_range : Expr → Range
expr_range (tuple_expr r _) = r
expr_range (call_expr r _ _ _) = r
expr_range (type_expr r _) = r
expr_range (var_expr r _) = r
expr_range (selector_expr r _) = r
expr_range (int_expr r _ _) = r
expr_range (flt_expr r _ _) = r
expr_range (str_expr r _) = r
expr_range (bool_expr r _) = r
expr_range (agg_expr r _) = r
expr_range (typed_agg_expr r _ _) = r
expr_range (bin_expr r _ _ _) = r
expr_range (lbin_expr r _ _ _) = r
expr_range (unary_expr r _ _) = r
expr_range (index_expr r _ _) = r
expr_range (explode_expr r _) = r
expr_range (eff_expr r _) = r
expr_range (infer_size_expr r) = r
expr_range (access_expr r _ _) = r
expr_range (cast_expr r _ _) = r
expr_range (test_expr r _ _) = r
expr_range (prop_expr r _ _) = r

unfoldable pub type_range : AstType → Range
type_range (tuple_type r _ _) = r
type_range (group_type r _) = r
type_range (union_type r _ _) = r
type_range (ident_type r _ _) = r
type_range (varargs_type r _) = r
type_range (ptr_type r _ _) = r
type_range (array_type r _ _ _) = r
type_range (slice_type r _ _) = r
type_range (atom_type r _ _) = r
type_range (enum_type r _ _) = r
type_range (fn_type r _ _ _ _ _) = r
