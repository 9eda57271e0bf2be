-- ===== src/Vm/Variables.antt =====
-- The variables of the machine and their operations, `Variable` and `VariableVec` of crates/kubegraph/vm/lazy/src/lib.rs.
use open_ark.Prelude.{
  Bool, not, Option, none, some, List, [], ◌∷◌, and_then, Result, ok, err, ◌>>=◌,
}
use open_ark.Vm.{
  BinaryExpr, UnaryExpr, neg, inv, BuiltIn, FunctionExpr, built_in, custom, VmError,
  unexpected_feature, unexpected_number, undefined_feature, undefined_number, empty_arguments,
  unsupported_function, slice_operand, feature_operand, number_operand, SliceOrScalar, a_slice,
  a_scalar, Kernel,
}
use open_ark.Vm.Fold.{
  Kind, number_number, number_number?, number_feature, feature_feature, kind, pick,
}

-- `Variable`
pub data Variable (k : Kernel) : Type 0 where
  lazy_slice : k.Slice → Variable k
  a_feature : Option Bool → Variable k
  a_number : Option (k.Number) → Variable k

module _ {k : Kernel} where
  -- The arms of `impl_expr_binary` that take numbers, with what a pair of numbers gives.
  abbrev pub number_arm :
      BinaryExpr
      → (k.Number → k.Number → Result VmError (Variable k))
      → Variable k
      → Variable k
      → Result VmError (Variable k)
  number_arm op f (lazy_slice s) (lazy_slice t) =
      ok (lazy_slice (k.slice_binary op (slice_operand s) (slice_operand t)))
  number_arm op f (lazy_slice s) (a_feature b) = err unexpected_feature
  number_arm op f (lazy_slice s) (a_number (some n)) =
      ok (lazy_slice (k.slice_binary op (slice_operand s) (number_operand n)))
  number_arm op f (lazy_slice s) (a_number none) = err undefined_number
  number_arm op f (a_feature b) r = err unexpected_feature
  number_arm op f (a_number (some n)) (lazy_slice t) =
      ok (lazy_slice (k.slice_binary op (number_operand n) (slice_operand t)))
  number_arm op f (a_number (some n)) (a_feature b) = err unexpected_feature
  number_arm op f (a_number (some n)) (a_number (some m)) = f n m
  number_arm op f (a_number (some n)) (a_number none) = err undefined_number
  number_arm op f (a_number none) r = err undefined_number

  -- The arm that takes features
  abbrev pub feature_arm :
      BinaryExpr → (Bool → Bool → Bool) → Variable k → Variable k → Result VmError (Variable k)
  feature_arm op f (lazy_slice s) (lazy_slice t) =
      ok (lazy_slice (k.slice_binary op (slice_operand s) (slice_operand t)))
  feature_arm op f (lazy_slice s) (a_feature (some b)) =
      ok (lazy_slice (k.slice_binary op (slice_operand s) (feature_operand b)))
  feature_arm op f (lazy_slice s) (a_feature none) = err undefined_feature
  feature_arm op f (lazy_slice s) (a_number n) = err unexpected_number
  feature_arm op f (a_feature (some b)) (lazy_slice t) =
      ok (lazy_slice (k.slice_binary op (feature_operand b) (slice_operand t)))
  feature_arm op f (a_feature (some b)) (a_feature (some c)) = ok (a_feature (some (f b c)))
  feature_arm op f (a_feature (some b)) (a_feature none) = err undefined_feature
  feature_arm op f (a_feature (some b)) (a_number n) = err unexpected_number
  feature_arm op f (a_feature none) r = err undefined_feature
  feature_arm op f (a_number n) r = err unexpected_number

  -- `Variable::execute_expr_binary`
  abbrev pub binary_on : Kind k → BinaryExpr → Variable k → Variable k → Result VmError (Variable k)
  binary_on (number_number f) op l r = number_arm op (λ a b. ok (a_number (some (f a b)))) l r
  binary_on (number_number? f) op l r =
      number_arm op (λ a b. f a b >>= λ c. ok (a_number (some c))) l r
  binary_on (number_feature f) op l r = number_arm op (λ a b. ok (a_feature (some (f a b)))) l r
  binary_on (feature_feature f) op l r = feature_arm op f l r

  abbrev pub execute_binary : BinaryExpr → Variable k → Variable k → Result VmError (Variable k)
  execute_binary op l r = binary_on (kind k op) op l r

  -- `Variable::execute_expr_unary`
  abbrev pub execute_unary : UnaryExpr → Variable k → Result VmError (Variable k)
  execute_unary neg (lazy_slice s) = ok (lazy_slice (k.slice_unary neg s))
  execute_unary neg (a_feature b) = err unexpected_feature
  execute_unary neg (a_number (some n)) = ok (a_number (some (k.number_neg n)))
  execute_unary neg (a_number none) = err undefined_number
  execute_unary inv (lazy_slice s) = ok (lazy_slice (k.slice_unary inv s))
  execute_unary inv (a_feature (some b)) = ok (a_feature (some (not b)))
  execute_unary inv (a_feature none) = err undefined_feature
  execute_unary inv (a_number n) = err unexpected_number

  -- `impl_expr_function_builtin`: all arguments are numbers, or they are given to the columns.
  abbrev pub variable_numbers : List (Variable k) → Option (List (k.Number))
  variable_numbers [] = some []
  variable_numbers (a_number (some n) ∷ vs) = and_then (variable_numbers vs) (λ ns. some (n ∷ ns))
  variable_numbers (a_number none ∷ vs) = none
  variable_numbers (a_feature b ∷ vs) = none
  variable_numbers (lazy_slice s ∷ vs) = none

  abbrev pub to_slice_or_scalar : Variable k → Result VmError (SliceOrScalar (k.Number) (k.Slice))
  to_slice_or_scalar (lazy_slice s) = ok (a_slice s)
  to_slice_or_scalar (a_feature b) = err unexpected_feature
  to_slice_or_scalar (a_number (some n)) = ok (a_scalar n)
  to_slice_or_scalar (a_number none) = err undefined_number

  abbrev pub to_slices_or_scalars :
      List (Variable k) → Result VmError (List (SliceOrScalar (k.Number) (k.Slice)))
  to_slices_or_scalars [] = ok []
  to_slices_or_scalars (v ∷ vs) = do
    x ← to_slice_or_scalar v
    xs ← to_slices_or_scalars vs
    ok (x ∷ xs)

  abbrev pub from_slice_or_scalar : SliceOrScalar (k.Number) (k.Slice) → Variable k
  from_slice_or_scalar (a_slice s) = lazy_slice s
  from_slice_or_scalar (a_scalar n) = a_number (some n)

  abbrev pub call_numbers :
      BuiltIn → Option (List (k.Number)) → List (Variable k) → Result VmError (Variable k)
  call_numbers op (some ns) args = elim (pick k op ns) [
    | some n ↦ ok (a_number (some n))
    | none ↦ err empty_arguments
  ]
  call_numbers op none args = do
    xs ← to_slices_or_scalars args
    x ← k.slice_function op xs
    ok (from_slice_or_scalar x)

  -- `VariableVec::execute_expr_function`
  unfoldable pub execute_function : FunctionExpr → List (Variable k) → Result VmError (Variable k)
  execute_function (built_in op) args = call_numbers op (variable_numbers args) args
  execute_function (custom name) args = err (unsupported_function name)
