-- ===== src/Vm/Compile.antt =====
-- The compiler of scripts, `impl_execute` of crates/kubegraph/vm/lazy/src/lib.rs. The instructions
-- made so far, `local_variables`, are passed on as a state; `placeholders` is `use_placeholders`.
use open_ark.Prelude.{
  ℕ, suc, Bool, false, Option, none, some, List, [], ◌∷◌, ◌++◌, length, eqb, unwrap_or,
  if◌then◌else◌, Result, ok, err, ◌>>=◌,
}
use open_ark.Vm.{
  FunctionExpr, built_in, custom, VmError, unsupported_function, undefined_local, Kernel, Term,
  numeral, named, Expr, identity_expr, unary_expr, binary_expr, function_expr, Exprs, nil, cons,
  Assign, Filter, ensure, filter_expr, Value, number, variable, Stmt, define_local_value,
  Instruction,
}
use open_ark.Vm.Fold.{kind, from_value, to_value, fold_unary, fold_binary, fold_function}

-- Whether an instruction bears a name.
abbrev pub is_named : ℕ → Option ℕ → Bool
is_named x none = false
is_named x (some y) = eqb y x

module _ {k : Kernel} where
  -- `execute_register_instruction`
  abbrev pub register_instruction :
      Instruction k → List (Instruction k) → Value k × List (Instruction k)
  register_instruction ins code = (variable (length code), code ++ ins ∷ [])

  -- The instruction of a name without a value, of `execute_register_value`.
  abbrev pub placeholder : ℕ → Instruction k
  placeholder x = record { name = some x; stmt = define_local_value none }

  -- The `find` of `execute_get_local_value_by_name`, from the index of the first instruction.
  unfoldable pub find_local : ℕ → ℕ → List (Instruction k) → Option (Value k)
  find_local x i [] = none
  find_local x i (ins ∷ rest) =
      let later = find_local x (suc i) rest in
      if is_named x ins.name then some (unwrap_or (to_value ins.stmt) (variable i)) else later

  -- `execute_get_local_value_by_name`, on what is found, with `try_register_value`
  abbrev pub local_on :
      Bool
      → ℕ
      → List (Instruction k)
      → Option (Value k)
      → Result VmError (Value k × List (Instruction k))
  local_on placeholders x code (some v) = ok (v, code)
  local_on placeholders x code none =
      if placeholders
      then ok (register_instruction (placeholder x) code)
      else err (undefined_local x)

  -- `execute_get_local_value`
  unfoldable pub get_local_value :
      Bool → Term k → List (Instruction k) → Result VmError (Value k × List (Instruction k))
  get_local_value placeholders (numeral n) code = ok (number n, code)
  get_local_value placeholders (named x) code = local_on placeholders x code (find_local x 0 code)

  -- The end of `execute_expr`: a statement that is a value needs no instruction.
  abbrev pub register_on :
      Option (Value k) → Stmt k → List (Instruction k) → Value k × List (Instruction k)
  register_on (some v) stmt code = (v, code)
  register_on none stmt code = register_instruction (record { name = none; stmt = stmt }) code

  abbrev pub register_stmt : Stmt k → List (Instruction k) → Value k × List (Instruction k)
  register_stmt stmt code = register_on (to_value stmt) stmt code

  -- The `match` of `execute_expr_function`
  abbrev pub call_stmt : FunctionExpr → List (Value k) → Result VmError (Stmt k)
  call_stmt (built_in op) args = ok (fold_function op args)
  call_stmt (custom name) args = err (unsupported_function name)

-- `execute_expr`, with the operators of `execute_expr_unary`, `execute_expr_binary` and
-- `execute_expr_function`, and the row of arguments of a call.
unfoldable mutual
  pub execute_expr :
      {k : Kernel}
      → Bool
      → Expr k
      → List (Instruction k)
      → Result VmError (Value k × List (Instruction k))
  execute_expr p (identity_expr t) code = get_local_value p t code
  execute_expr p (unary_expr op e) code = do
    (v, code₁) ← execute_expr p e code
    stmt ← fold_unary op v
    ok (register_stmt stmt code₁)
  execute_expr {k} p (binary_expr op l r) code = do
    (v, code₁) ← execute_expr p l code
    (w, code₂) ← execute_expr p r code₁
    stmt ← fold_binary (kind k op) op v w
    ok (register_stmt stmt code₂)
  execute_expr p (function_expr op args) code = do
    (vs, code₁) ← execute_exprs p args code
    stmt ← call_stmt op vs
    ok (register_stmt stmt code₁)

  pub execute_exprs :
      {k : Kernel}
      → Bool
      → Exprs k
      → List (Instruction k)
      → Result VmError (List (Value k) × List (Instruction k))
  execute_exprs p nil code = ok ([], code)
  execute_exprs p (cons e es) code = do
    (v, code₁) ← execute_expr p e code
    (vs, code₂) ← execute_exprs p es code₁
    ok (v ∷ vs, code₂)

module _ {k : Kernel} where
  -- `execute_stmt`
  unfoldable pub execute_stmt :
      Bool → Assign k → List (Instruction k) → Result VmError (List (Instruction k))
  execute_stmt p stmt code = do
    (v, code₁) ← execute_expr p stmt.rhs code
    ok (code₁ ++ record { name = some stmt.lhs; stmt = from_value v } ∷ [])

  -- `execute_script`, on a script that is parsed
  unfoldable pub execute_script :
      Bool → List (Assign k) → List (Instruction k) → Result VmError (List (Instruction k))
  execute_script p [] code = ok code
  execute_script p (stmt ∷ stmts) code =
      execute_stmt p stmt code >>= λ next. execute_script p stmts next

  -- `execute_filter`, on a filter that is parsed
  unfoldable pub execute_filter :
      Bool → Filter k → List (Instruction k) → Result VmError (List (Instruction k))
  execute_filter p (ensure x) code = ok (code ++ placeholder x ∷ [])
  execute_filter p (filter_expr e) code = execute_expr p e code >>= λ r. ok r.1
