-- ===== src/Vm/Fold.antt =====
-- The values of instructions and their operations, which fold constants: crates/kubegraph/api/src/vm.rs.
use open_ark.Prelude.{
  Bool, not, ◌&&◌, ◌||◌, Option, none, some, List, [], ◌∷◌, if◌then◌else◌, and_then, Result, ok,
  err, ◌>>=◌,
}
use open_ark.Vm.{
  BinaryExpr, add, sub, mul, div, eq, ne, ge, gt, le, lt, and, or, UnaryExpr, neg, inv, BuiltIn,
  built_in, VmError, unexpected_value, unexpected_feature, divided_by_zero, Kernel, Value, feature,
  number, variable, Stmt, identity, define_local_feature, define_local_value, binary_stmt,
  unary_stmt, function_stmt,
}

-- `Number::div`
abbrev pub number_div : (k : Kernel) → k.Number → k.Number → Result VmError (k.Number)
number_div k a b = if not (k.number_is_zero b) then ok (k.number_quot a b) else err divided_by_zero

-- What an operator takes and gives: the four arms of `impl_expr_binary`.
pub data Kind (k : Kernel) : Type 0 where
  number_number : (k.Number → k.Number → k.Number) → Kind k
  number_number? : (k.Number → k.Number → Result VmError (k.Number)) → Kind k
  number_feature : (k.Number → k.Number → Bool) → Kind k
  feature_feature : (Bool → Bool → Bool) → Kind k

-- The invocations of `impl_expr_binary`.
abbrev pub kind : (k : Kernel) → BinaryExpr → Kind k
kind k add = number_number k.number_add
kind k sub = number_number k.number_sub
kind k mul = number_number k.number_mul
kind k div = number_number? (number_div k)
kind k eq = number_feature k.number_eq
kind k ne = number_feature k.number_ne
kind k ge = number_feature k.number_ge
kind k gt = number_feature k.number_gt
kind k le = number_feature k.number_le
kind k lt = number_feature k.number_lt
kind k and = feature_feature (λ a b. a && b)
kind k or = feature_feature (λ a b. a || b)

-- `Iterator::max` and `Iterator::min`
module _ (k : Kernel) where
  abbrev pub pick_from : BuiltIn → k.Number → List (k.Number) → k.Number
  pick_from op best [] = best
  pick_from op best (n ∷ ns) = pick_from op (k.number_pick op best n) ns

  abbrev pub pick : BuiltIn → List (k.Number) → Option (k.Number)
  pick op [] = none
  pick op (n ∷ ns) = some (pick_from op n ns)

module _ {k : Kernel} where
  -- `Value::to_feature`, `Value::to_number`, `Value::is_number`, `Value::to_number_opt`
  abbrev pub to_feature : Value k → Result VmError (Option Bool)
  to_feature (feature b) = ok (some b)
  to_feature (number n) = err unexpected_value
  to_feature (variable i) = ok none

  abbrev pub to_number : Value k → Result VmError (Option (k.Number))
  to_number (feature b) = err unexpected_feature
  to_number (number n) = ok (some n)
  to_number (variable i) = ok none

  -- `Stmt::from`
  abbrev pub from_value : Value k → Stmt k
  from_value (feature b) = define_local_feature (some b)
  from_value (number n) = define_local_value (some n)
  from_value (variable i) = identity i

  -- `Stmt::to_value`
  abbrev pub to_value : Stmt k → Option (Value k)
  to_value (identity i) = some (variable i)
  to_value (define_local_feature (some b)) = some (feature b)
  to_value (define_local_feature none) = none
  to_value (define_local_value (some n)) = some (number n)
  to_value (define_local_value none) = none
  to_value (binary_stmt op l r) = none
  to_value (unary_stmt op v) = none
  to_value (function_stmt op args) = none

  -- The two arms of `impl_expr_unary`
  abbrev pub fold_unary : UnaryExpr → Value k → Result VmError (Stmt k)
  fold_unary neg v = do
    n ← to_number v
    ok (elim n [ some a ↦ define_local_value (some (k.number_neg a)) | none ↦ unary_stmt neg v ])
  fold_unary inv v = do
    b ← to_feature v
    ok (elim b [ some a ↦ define_local_feature (some (not a)) | none ↦ unary_stmt inv v ])

  -- The `match` of an arm of `impl_expr_binary`: both operands are known, or the operation is kept.
  abbrev pub fold_pair :
      {A : Type 0}
      → (A → A → Result VmError (Stmt k))
      → Stmt k
      → Option A
      → Option A
      → Result VmError (Stmt k)
  fold_pair f kept (some a) (some b) = f a b
  fold_pair f kept (some a) none = ok kept
  fold_pair f kept none b = ok kept

  -- The four arms of `impl_expr_binary`
  unfoldable pub fold_binary : Kind k → BinaryExpr → Value k → Value k → Result VmError (Stmt k)
  fold_binary (number_number f) op l r = do
    a ← to_number l
    b ← to_number r
    fold_pair (λ x y. ok (define_local_value (some (f x y)))) (binary_stmt op l r) a b
  fold_binary (number_number? f) op l r = do
    a ← to_number l
    b ← to_number r
    fold_pair (λ x y. f x y >>= λ z. ok (define_local_value (some z))) (binary_stmt op l r) a b
  fold_binary (number_feature f) op l r = do
    a ← to_number l
    b ← to_number r
    fold_pair (λ x y. ok (define_local_feature (some (f x y)))) (binary_stmt op l r) a b
  fold_binary (feature_feature f) op l r = do
    a ← to_feature l
    b ← to_feature r
    fold_pair (λ x y. ok (define_local_feature (some (f x y)))) (binary_stmt op l r) a b

  -- The numbers of a row of which all are numbers.
  abbrev pub all_numbers : List (Value k) → Option (List (k.Number))
  all_numbers [] = some []
  all_numbers (number n ∷ vs) = and_then (all_numbers vs) (λ ns. some (n ∷ ns))
  all_numbers (feature b ∷ vs) = none
  all_numbers (variable i ∷ vs) = none

  -- `impl_expr_function_builtin`
  abbrev pub fold_row : BuiltIn → List (Value k) → Option (List (k.Number)) → Stmt k
  fold_row op args (some ns) = define_local_value (pick k op ns)
  fold_row op args none = function_stmt (built_in op) args

  abbrev pub fold_function : BuiltIn → List (Value k) → Stmt k
  fold_function op args = fold_row op args (all_numbers args)
