-- ===== src/Vm/Call.antt =====
-- The machine that runs instructions, `impl_call` of crates/kubegraph/vm/lazy/src/lib.rs.
use open_ark.Prelude.{
  ℕ, suc, Option, none, some, List, [], ◌∷◌, ◌++◌, get_elem?, last, ltb, eqb, if◌then◌else◌, Result,
  ok, err, ◌>>=◌,
}
use open_ark.Vm.{
  VmError, unexpected_value, unexpected_feature, undefined_feature, undefined_number, index_panic,
  illegal_access, Kernel, Value, feature, number, variable, Stmt, identity, define_local_feature,
  define_local_value, binary_stmt, unary_stmt, function_stmt, Instruction,
}
use open_ark.Vm.Variables.{
  Variable, a_feature, a_number, execute_binary, execute_function, execute_unary, lazy_slice,
}

-- `Heap` and `Context`; of two entries of one name the first is in force.
pub record Heap (k : Kernel) : Type 0 where
  pub edges : k.Frame
  pub variables : List (ℕ × Variable k)

pub record Context (k : Kernel) : Type 0 where
  pub heap : Heap k
  pub stack : List (Variable k)

-- The filter of a call, where there is one.
abbrev pub filter_edges : (k : Kernel) → k.Frame → Option (k.Slice) → Result VmError (k.Frame)
filter_edges k f none = ok f
filter_edges k f (some s) = k.apply_filter f s

module _ {k : Kernel} where
  -- `Heap::get_unchecked`, `Heap::get_feature` and `Heap::get_number`
  unfoldable pub get_variable : ℕ → List (ℕ × Variable k) → Option (Variable k)
  get_variable x [] = none
  get_variable x ((y, v) ∷ m) = let rest = get_variable x m in if eqb y x then some v else rest

  abbrev pub variable_or :
      Option (Variable k) → Result VmError (k.Slice) → Result VmError (Variable k)
  variable_or (some v) column = ok v
  variable_or none column = column >>= λ s. ok (lazy_slice s)

  unfoldable pub get_unchecked : Heap k → ℕ → Result VmError (Variable k)
  get_unchecked heap x = variable_or (get_variable x heap.variables) (k.get_column heap.edges x)

  abbrev pub check_feature : Variable k → Result VmError (Variable k)
  check_feature (a_number n) = err unexpected_value
  check_feature (a_feature b) = ok (a_feature b)
  check_feature (lazy_slice s) = ok (lazy_slice s)

  abbrev pub check_number : Variable k → Result VmError (Variable k)
  check_number (a_number n) = ok (a_number n)
  check_number (a_feature b) = err unexpected_feature
  check_number (lazy_slice s) = ok (lazy_slice s)

  -- `Heap::insert`
  abbrev pub insert_edges : k.Frame → ℕ → Variable k → Result VmError (k.Frame)
  insert_edges f x (lazy_slice s) = k.insert_column f x s
  insert_edges f x (a_feature (some b)) = k.fill_column_with_feature f x b
  insert_edges f x (a_feature none) = err undefined_feature
  insert_edges f x (a_number (some n)) = k.fill_column_with_value f x n
  insert_edges f x (a_number none) = err undefined_number

  unfoldable pub insert_heap : Heap k → ℕ → Variable k → Result VmError (Heap k)
  insert_heap heap x v = do
    f ← insert_edges heap.edges x v
    ok (record { edges = f; variables = (x, v) ∷ heap.variables })

  -- `Stack::get` and `Stack::fetch`
  abbrev pub stack_get : List (Variable k) → ℕ → Result VmError (Variable k)
  stack_get stack i = elim (get_elem? stack i) [ some v ↦ ok v | none ↦ err index_panic ]

  abbrev pub fetch : List (Variable k) → Value k → Result VmError (Variable k)
  fetch stack (feature b) = ok (a_feature (some b))
  fetch stack (number n) = ok (a_number (some n))
  fetch stack (variable i) = stack_get stack i

  abbrev pub fetch_all : List (Variable k) → List (Value k) → Result VmError (List (Variable k))
  fetch_all stack [] = ok []
  fetch_all stack (v ∷ vs) = do x ← fetch stack v; xs ← fetch_all stack vs; ok (x ∷ xs)

  -- "fetch from stack", of `Context::call`
  unfoldable pub stmt_value : ℕ → List (Variable k) → Stmt k → Result VmError (Variable k)
  stmt_value pc stack (identity i) =
      if ltb i pc then stack_get stack i else err (illegal_access pc i)
  stmt_value pc stack (define_local_feature b) = ok (a_feature b)
  stmt_value pc stack (define_local_value n) = ok (a_number n)
  stmt_value pc stack (binary_stmt op l r) = do
    x ← fetch stack l
    y ← fetch stack r
    execute_binary op x y
  stmt_value pc stack (unary_stmt op v) = fetch stack v >>= λ x. execute_unary op x
  stmt_value pc stack (function_stmt op args) =
      fetch_all stack args >>= λ xs. execute_function op xs

  -- "fetch from heap"
  abbrev pub bind_name : Heap k → ℕ → Variable k → Result VmError (Heap k × Variable k)
  bind_name heap x (a_feature none) = (get_unchecked heap x >>= check_feature) >>= λ v. ok (heap, v)
  bind_name heap x (a_number none) = (get_unchecked heap x >>= check_number) >>= λ v. ok (heap, v)
  bind_name heap x (a_feature (some b)) =
      insert_heap heap x (a_feature (some b)) >>= λ next. ok (next, a_feature (some b))
  bind_name heap x (a_number (some n)) =
      insert_heap heap x (a_number (some n)) >>= λ next. ok (next, a_number (some n))
  bind_name heap x (lazy_slice s) =
      insert_heap heap x (lazy_slice s) >>= λ next. ok (next, lazy_slice s)

  abbrev pub bind_option : Heap k → Option ℕ → Variable k → Result VmError (Heap k × Variable k)
  bind_option heap none v = ok (heap, v)
  bind_option heap (some x) v = bind_name heap x v

  -- The body of the loop of `Context::call`, and the loop from a counter on.
  unfoldable pub step_vm : ℕ → Instruction k → Context k → Result VmError (Context k)
  step_vm pc ins ctx = do
    v ← stmt_value pc ctx.stack ins.stmt
    (heap, w) ← bind_option ctx.heap ins.name v
    ok (record { heap = heap; stack = ctx.stack ++ w ∷ [] })

  unfoldable pub run_from : ℕ → List (Instruction k) → Context k → Result VmError (Context k)
  run_from pc [] ctx = ok ctx
  run_from pc (ins ∷ code) ctx = step_vm pc ins ctx >>= λ next. run_from (suc pc) code next

  -- `Context::call`, with the frame of `Context::try_new`
  unfoldable pub call :
      List (Instruction k) → k.Frame → Option (k.Slice) → Result VmError (Context k)
  call code edges filter = do
    f ← filter_edges k edges filter
    run_from 0 code (record { heap = record { edges = f; variables = [] }; stack = [] })

  -- `Context::try_into_filter`, with `Stack::pop_slice`
  abbrev pub into_slice : k.Frame → Variable k → Result VmError (k.Slice)
  into_slice f (lazy_slice s) = ok s
  into_slice f (a_feature (some b)) = k.feature_into_slice b f
  into_slice f (a_feature none) = err undefined_feature
  into_slice f (a_number (some n)) = k.number_into_slice n f
  into_slice f (a_number none) = err undefined_number

  unfoldable pub try_into_filter : Context k → Result VmError (k.Slice)
  try_into_filter ctx = elim (last ctx.stack) [
    | some v ↦ into_slice ctx.heap.edges v
    | none ↦ k.all_rows ctx.heap.edges
  ]
