-- ===== src/Vm/Examples.antt =====
-- Scripts over frames of numbers that are concrete, with what they compute.
use open_ark.Prelude.{
  ℕ, ◌+◌, ◌*◌, true, none, some, List, [], ◌∷◌, ◌≡◌, ◌≢◌, refl, sym, ◌∙◌, ap, eqb, ltb, leb, not,
  if◌then◌else◌, Result, ok, err, ◌>>=◌, ok-injective, All,
}
use open_ark.Vm.{
  BinaryExpr, add, mul, eq, max, built_in, VmError, frame_error, empty_arguments, Operand,
  slice_operand, number_operand, feature_operand, a_scalar, Kernel, IsFrame, numeral, named,
  identity_expr, binary_expr, function_expr, nil, Expr, Assign, filter_expr, Instruction, number,
  variable, define_local_value, binary_stmt, identity,
}
use open_ark.Vm.Compile.{
  execute_expr, execute_exprs, execute_stmt, execute_script, execute_filter, get_local_value,
  find_local,
}
use open_ark.Vm.Variables.{execute_function}
use open_ark.Vm.Call.{
  call, run_from, step_vm, stmt_value, insert_heap, get_unchecked, get_variable, try_into_filter,
  into_slice,
}
use open_ark.Vm.Fold.{fold_binary}
use open_ark.Vm.Meaning.{eval, eval_all, assign, interpret, HasArguments, IsSetOnce, names}
use open_ark.Vm.Correct.Defined.{eqb-ne}
use open_ark.Vm.Correct.Scripts.{call-execute_script, start}
use open_ark.Vm.Correct.Filters.{call-execute_filter}

-- A column is a number for each row of two.
abbrev Row : Type 0
Row = ℕ × ℕ

abbrev row_of : Operand ℕ Row → Row
row_of (slice_operand s) = s
row_of (number_operand n) = (n, n)
row_of (feature_operand b) = if b then (1, 1) else (0, 0)

abbrev cell : BinaryExpr → ℕ → ℕ → ℕ
cell add a b = a + b
cell mul a b = a * b
cell op a b = if eqb a b then 1 else 0

abbrev zip_rows : BinaryExpr → Row → Row → Row
zip_rows op r s = (cell op r.0 s.0, cell op r.1 s.1)

abbrev put : List (ℕ × Row) → ℕ → Row → Result VmError (List (ℕ × Row))
put f x s = ok ((x, s) ∷ f)

abbrev column : List (ℕ × Row) → ℕ → Result VmError Row
column [] x = err frame_error
column ((y, s) ∷ f) x = let rest = column f x in if eqb y x then ok s else rest

abbrev kernel : Kernel
kernel = record {
  Number = ℕ;
  Slice = Row;
  Frame = List (ℕ × Row);
  number_neg = λ n. n;
  number_add = λ a b. a + b;
  number_sub = λ a b. a;
  number_mul = λ a b. a * b;
  number_quot = λ a b. a;
  number_is_zero = λ n. eqb n 0;
  number_eq = eqb;
  number_ne = λ a b. not (eqb a b);
  number_ge = λ a b. leb b a;
  number_gt = λ a b. ltb b a;
  number_le = leb;
  number_lt = ltb;
  number_pick = λ op a b. if ltb a b then b else a;
  slice_unary = λ op s. s;
  slice_binary = λ op l r. zip_rows op (row_of l) (row_of r);
  slice_function = λ op xs. ok (a_scalar 0);
  get_column = column;
  insert_column = put;
  fill_column_with_feature = λ f x b. put f x (row_of (feature_operand b));
  fill_column_with_value = λ f x n. put f x (n, n);
  apply_filter = λ f s. ok f;
  feature_into_slice = λ b f. ok (row_of (feature_operand b));
  number_into_slice = λ n f. ok (n, n);
  all_rows = λ f. ok (1, 1);
}

column-put :
    (f f' : List (ℕ × Row)) (name other : ℕ) (s : Row)
    → put f name s ≡ ok f'
    → other ≢ name
    → column f' other ≡ column f other
column-put f f' name other s h ne =
    ap (λ g. column g other) (sym (ok-injective ((name, s) ∷ f) f' h))
    ∙ ap (λ b. if b then ok s else column f other) (eqb-ne name other ne)

kernel-IsFrame : IsFrame kernel
kernel-IsFrame = record {
  get-insert = column-put;
  get-fill_feature = λ f f' name other b. column-put f f' name other (row_of (feature_operand b));
  get-fill_value = λ f f' name other n. column-put f f' name other (n, n);
}

abbrev name_of : ℕ → Expr kernel
name_of x = identity_expr (named x)

abbrev literal : ℕ → Expr kernel
literal n = identity_expr (numeral n)

-- a = 1 + 2; c = a * e + 1, over a frame with a column e
abbrev script : List (Assign kernel)
script =
    record { lhs = 0; rhs = binary_expr add (literal 1) (literal 2) }
    ∷ record {
      lhs = 2;
      rhs = binary_expr add (binary_expr mul (name_of 0) (name_of 4)) (literal 1);
    }
    ∷ []

abbrev script_code : List (Instruction kernel)
script_code =
    record { name = some 0; stmt = define_local_value (some 3) }
    ∷ record { name = some 4; stmt = define_local_value none }
    ∷ record { name = none; stmt = binary_stmt mul (number 3) (variable 1) }
    ∷ record { name = none; stmt = binary_stmt add (variable 2) (number 1) }
    ∷ record { name = some 2; stmt = identity 3 }
    ∷ []

abbrev frame : List (ℕ × Row)
frame = (4, (5, 7)) ∷ []

script_compiles : execute_script true script [] ≡ ok script_code
unfolding execute_script execute_stmt execute_expr get_local_value find_local fold_binary
script_compiles = refl

script_runs : (call script_code frame none >>= λ ctx. column ctx.heap.edges 2) ≡ ok (16, 22)
unfolding call run_from step_vm stmt_value insert_heap get_unchecked get_variable
script_runs = refl

script-HasArguments : All (λ (s : Assign kernel). HasArguments s.rhs) script
unfolding HasArguments
script-HasArguments = ((tt, tt), (((tt, tt), tt), tt))

script-IsSetOnce : IsSetOnce [] script
unfolding names
script-IsSetOnce = (refl, (refl, tt))

call-execute_script_example :
    (call script_code frame none >>= λ ctx. ok ctx.heap) ≡ interpret script (start frame)
call-execute_script_example =
    call-execute_script kernel kernel-IsFrame true script script_code frame script_compiles
      script-HasArguments script-IsSetOnce

-- e = 5, a filter
abbrev a_filter : Expr kernel
a_filter = binary_expr eq (name_of 4) (literal 5)

abbrev filter_code : List (Instruction kernel)
filter_code =
    record { name = some 4; stmt = define_local_value none }
    ∷ record { name = none; stmt = binary_stmt eq (variable 0) (number 5) }
    ∷ []

filter_compiles : execute_filter true (filter_expr a_filter) [] ≡ ok filter_code
unfolding execute_filter execute_expr get_local_value find_local fold_binary
filter_compiles = refl

filter_selects : (call filter_code frame none >>= try_into_filter) ≡ ok (1, 0)
unfolding call run_from step_vm stmt_value insert_heap get_unchecked get_variable try_into_filter
filter_selects = refl

filter_HasArguments : HasArguments a_filter
unfolding HasArguments
filter_HasArguments = (tt, tt)

some_code : filter_code ≢ []
some_code h = cc

call-execute_filter_example :
    (call filter_code frame none >>= try_into_filter)
    ≡ (eval (start frame) a_filter >>= into_slice frame)
call-execute_filter_example =
    call-execute_filter kernel true a_filter filter_code frame filter_compiles filter_HasArguments
      some_code

-- 1 = 2 is false, and selects every row once it is compiled.
abbrev constant_filter : Expr kernel
constant_filter = binary_expr eq (literal 1) (literal 2)

constant_compiles : execute_filter true (filter_expr constant_filter) [] ≡ ok []
unfolding execute_filter execute_expr get_local_value fold_binary
constant_compiles = refl

constant_selects : (call {k = kernel} [] frame none >>= try_into_filter) ≡ ok (1, 1)
unfolding call run_from try_into_filter
constant_selects = refl

constant_means : (eval (start frame) constant_filter >>= into_slice frame) ≡ ok (0, 0)
unfolding eval
constant_means = refl

-- a = max() is read from the frame, and its meaning is an error.
abbrev no_arguments : List (Assign kernel)
no_arguments = record { lhs = 4; rhs = function_expr (built_in max) nil } ∷ []

no_arguments_runs :
    (execute_script true no_arguments [] >>= λ code.
    call code frame none >>= λ ctx. ok ctx.heap.edges)
    ≡ ok frame
unfolding execute_script execute_stmt execute_expr execute_exprs call run_from step_vm stmt_value
    get_unchecked get_variable
no_arguments_runs = refl

no_arguments_mean : interpret no_arguments (start frame) ≡ err empty_arguments
unfolding interpret assign eval eval_all execute_function
no_arguments_mean = refl

-- a = 1; a = 2; b = a gives b the first value of a.
abbrev set_twice : List (Assign kernel)
set_twice =
    record { lhs = 0; rhs = literal 1 }
    ∷ record { lhs = 0; rhs = literal 2 }
    ∷ record { lhs = 1; rhs = name_of 0 }
    ∷ []

set_twice_runs :
    (execute_script true set_twice [] >>= λ code.
    call code [] none >>= λ ctx. column ctx.heap.edges 1)
    ≡ ok (1, 1)
unfolding execute_script execute_stmt execute_expr get_local_value find_local call run_from step_vm
    stmt_value insert_heap
set_twice_runs = refl

set_twice_means : (interpret set_twice (start []) >>= λ heap. column heap.edges 1) ≡ ok (2, 2)
unfolding interpret assign eval insert_heap get_unchecked get_variable
set_twice_means = refl
