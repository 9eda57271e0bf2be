-- ===== src/Vm.antt =====
-- The scripts of kubegraph: the expressions of crates/kubegraph/parser/src/lib.rs, and the
-- instructions of crates/kubegraph/api/src/vm.rs that they are compiled to.
--
-- A name is a number that stands for it. The floating-point numbers and the lazy frames with their
-- columns are those of other packages: `Kernel` lists what is used of them.
pub mod Fold
pub mod Compile
pub mod Variables
pub mod Call
pub mod Meaning
pub mod Correct
pub mod Examples
use open_ark.Prelude.{ℕ, Bool, Option, none, some, List, [], ◌∷◌, ◌≡◌, ◌≢◌, Result, ok}

-- `BinaryExpr`, `UnaryExpr`, `BuiltInFunctionExpr` and `FunctionExpr`
pub data BinaryExpr : Type 0 where
  add sub mul div eq ne ge gt le lt and or : BinaryExpr

pub data UnaryExpr : Type 0 where
  neg inv : UnaryExpr

pub data BuiltIn : Type 0 where
  max min : BuiltIn

pub data FunctionExpr : Type 0 where
  built_in : BuiltIn → FunctionExpr
  custom : ℕ → FunctionExpr

-- The errors of the compiler and of the machine, and the panic of an index out of range.
pub data VmError : Type 0 where
  unexpected_value unexpected_feature unexpected_number undefined_feature undefined_number
        divided_by_zero empty_arguments frame_error index_panic :
      VmError
  unsupported_function undefined_local : ℕ → VmError
  illegal_access : ℕ → ℕ → VmError

-- An operand of a column operation, and `LazySliceOrScalar`
pub data Operand (N S : Type 0) : Type 0 where
  slice_operand : S → Operand N S
  feature_operand : Bool → Operand N S
  number_operand : N → Operand N S

pub data SliceOrScalar (N S : Type 0) : Type 0 where
  a_slice : S → SliceOrScalar N S
  a_scalar : N → SliceOrScalar N S

-- `Number`, an ordered `f64`, and `LazySlice` and `LazyFrame`, over a data frame package.
pub record Kernel : Type 1 where
  pub Number : Type 0
  pub Slice : Type 0
  pub Frame : Type 0
  pub number_neg : Number → Number
  pub number_add : Number → Number → Number
  pub number_sub : Number → Number → Number
  pub number_mul : Number → Number → Number
  pub number_quot : Number → Number → Number
  pub number_is_zero : Number → Bool
  pub number_eq : Number → Number → Bool
  pub number_ne : Number → Number → Bool
  pub number_ge : Number → Number → Bool
  pub number_gt : Number → Number → Bool
  pub number_le : Number → Number → Bool
  pub number_lt : Number → Number → Bool
  pub number_pick : BuiltIn → Number → Number → Number
  pub slice_unary : UnaryExpr → Slice → Slice
  pub slice_binary : BinaryExpr → Operand Number Slice → Operand Number Slice → Slice
  pub slice_function :
      BuiltIn → List (SliceOrScalar Number Slice) → Result VmError (SliceOrScalar Number Slice)
  pub get_column : Frame → ℕ → Result VmError Slice
  pub insert_column : Frame → ℕ → Slice → Result VmError Frame
  pub fill_column_with_feature : Frame → ℕ → Bool → Result VmError Frame
  pub fill_column_with_value : Frame → ℕ → Number → Result VmError Frame
  pub apply_filter : Frame → Slice → Result VmError Frame
  pub feature_into_slice : Bool → Frame → Result VmError Slice
  pub number_into_slice : Number → Frame → Result VmError Slice
  pub all_rows : Frame → Result VmError Slice

-- What is documented of a frame: a column that is written leaves the others as they are.
pub record IsFrame (k : Kernel) : Type 0 where
  pub get-insert :
      (f f' : k.Frame) (name other : ℕ) (s : k.Slice)
      → k.insert_column f name s ≡ ok f'
      → other ≢ name
      → k.get_column f' other ≡ k.get_column f other
  pub get-fill_feature :
      (f f' : k.Frame) (name other : ℕ) (b : Bool)
      → k.fill_column_with_feature f name b ≡ ok f'
      → other ≢ name
      → k.get_column f' other ≡ k.get_column f other
  pub get-fill_value :
      (f f' : k.Frame) (name other : ℕ) (n : k.Number)
      → k.fill_column_with_value f name n ≡ ok f'
      → other ≢ name
      → k.get_column f' other ≡ k.get_column f other

-- `Value`, of the parser
pub data Term (k : Kernel) : Type 0 where
  numeral : k.Number → Term k
  named : ℕ → Term k

-- `Expr`, with the rows of arguments
mutual
  pub data Expr (k : Kernel) : Type 0 where
    identity_expr : Term k → Expr k
    unary_expr : UnaryExpr → Expr k → Expr k
    binary_expr : BinaryExpr → Expr k → Expr k → Expr k
    function_expr : FunctionExpr → Exprs k → Expr k

  pub data Exprs (k : Kernel) : Type 0 where
    nil : Exprs k
    cons : Expr k → Exprs k → Exprs k

-- The one `Stmt` of the parser, `Stmt::Set`, and `Filter`
pub record Assign (k : Kernel) : Type 0 where
  pub lhs : ℕ
  pub rhs : Expr k

pub data Filter (k : Kernel) : Type 0 where
  ensure : ℕ → Filter k
  filter_expr : Expr k → Filter k

-- `Value`, of the instructions
pub data Value (k : Kernel) : Type 0 where
  feature : Bool → Value k
  number : k.Number → Value k
  variable : ℕ → Value k

-- `Stmt` and `Instruction`
pub data Stmt (k : Kernel) : Type 0 where
  identity : ℕ → Stmt k
  define_local_feature : Option Bool → Stmt k
  define_local_value : Option (k.Number) → Stmt k
  binary_stmt : BinaryExpr → Value k → Value k → Stmt k
  unary_stmt : UnaryExpr → Value k → Stmt k
  function_stmt : FunctionExpr → List (Value k) → Stmt k

pub record Instruction (k : Kernel) : Type 0 where
  pub name : Option ℕ
  pub stmt : Stmt k
