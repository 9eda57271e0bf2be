-- ===== src/Vm/Meaning.antt =====
-- What a script means, read from its text: each statement is evaluated over the heap that the one
-- before it leaves. This is the description that the compiler and the machine are held against.
use open_ark.Prelude.{ℕ, false, some, List, [], ◌∷◌, ◌++◌, ◌≡◌, contains, nat_eq, Result, ok, ◌>>=◌}
use open_ark.Vm.{
  VmError, Kernel, Term, numeral, named, Expr, identity_expr, unary_expr, binary_expr,
  function_expr, Exprs, nil, cons, Assign,
}
use open_ark.Vm.Call.{Heap, get_unchecked, insert_heap}
use open_ark.Vm.Variables.{Variable, a_number, execute_unary, execute_binary, execute_function}

abbrev pub term_value : {k : Kernel} → Heap k → Term k → Result VmError (Variable k)
term_value heap (numeral n) = ok (a_number (some n))
term_value heap (named x) = get_unchecked heap x

-- The value of an expression, its operands from left to right.
unfoldable mutual
  pub eval : {k : Kernel} → Heap k → Expr k → Result VmError (Variable k)
  eval heap (identity_expr t) = term_value heap t
  eval heap (unary_expr op e) = eval heap e >>= λ x. execute_unary op x
  eval heap (binary_expr op l r) = do x ← eval heap l; y ← eval heap r; execute_binary op x y
  eval heap (function_expr op args) = eval_all heap args >>= λ xs. execute_function op xs

  pub eval_all : {k : Kernel} → Heap k → Exprs k → Result VmError (List (Variable k))
  eval_all heap nil = ok []
  eval_all heap (cons e es) = do x ← eval heap e; xs ← eval_all heap es; ok (x ∷ xs)

module _ {k : Kernel} where
  -- A statement stores the value under its name, in the variables and in the frame.
  unfoldable pub assign : Heap k → Assign k → Result VmError (Heap k)
  assign heap stmt = eval heap stmt.rhs >>= λ v. insert_heap heap stmt.lhs v

  unfoldable pub interpret : List (Assign k) → Heap k → Result VmError (Heap k)
  interpret [] heap = ok heap
  interpret (stmt ∷ stmts) heap = assign heap stmt >>= λ next. interpret stmts next

-- The names that an expression mentions.
unfoldable mutual
  pub names : {k : Kernel} → Expr k → List ℕ
  names (identity_expr (numeral n)) = []
  names (identity_expr (named x)) = x ∷ []
  names (unary_expr op e) = names e
  names (binary_expr op l r) = names l ++ names r
  names (function_expr op args) = names_all args

  pub names_all : {k : Kernel} → Exprs k → List ℕ
  names_all nil = []
  names_all (cons e es) = names e ++ names_all es

-- Every call has an argument.
unfoldable mutual
  pub HasArguments : {k : Kernel} → Expr k → Type 0
  HasArguments (identity_expr t) = Unit
  HasArguments (unary_expr op e) = HasArguments e
  HasArguments (binary_expr op l r) = HasArguments l × HasArguments r
  HasArguments (function_expr op nil) = ⊥
  HasArguments (function_expr op (cons e es)) = HasArguments e × AllHaveArguments es

  pub AllHaveArguments : {k : Kernel} → Exprs k → Type 0
  AllHaveArguments nil = Unit
  AllHaveArguments (cons e es) = HasArguments e × AllHaveArguments es

-- Every name is set before it is mentioned, and once: no name is set that stands in `seen`, on its
-- own right side, or in a statement before.
abbrev pub IsSetOnce : {k : Kernel} → List ℕ → List (Assign k) → Type 0
IsSetOnce seen [] = Unit
IsSetOnce seen (stmt ∷ stmts) =
    (contains (names stmt.rhs ++ seen) stmt.lhs ≡ false)
    × IsSetOnce (stmt.lhs ∷ names stmt.rhs ++ seen) stmts
