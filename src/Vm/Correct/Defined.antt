-- ===== src/Vm/Correct/Defined.antt =====
-- What an expression gives has a value, and what a heap keeps when a name is set.
use open_ark.Prelude.{
  ℕ, Bool, false, Option, Bool-cases, inl, inr, none, some, List, [], ◌∷◌, ◌≡◌, ◌≢◌, refl, sym, ap,
  subst, ◌∙◌, eqb, eqb_iff, if◌then◌else◌, Result, ok, err, ◌>>=◌, >>=-eq-ok, ok-injective, arith,
}
use mathlib.Core.Option.{some-injective}
use open_ark.Vm.{
  UnaryExpr, neg, inv, BinaryExpr, BuiltIn, FunctionExpr, built_in, custom, VmError, SliceOrScalar,
  a_slice, a_scalar, Kernel, IsFrame, numeral, named, Expr, identity_expr, unary_expr, binary_expr,
  function_expr,
}
use open_ark.Vm.Fold.{Kind, number_number, number_number?, number_feature, feature_feature, kind}
use open_ark.Vm.Call.{Heap, get_variable, variable_or, get_unchecked, insert_edges, insert_heap}
use open_ark.Vm.Variables.{
  Variable, lazy_slice, a_feature, a_number, number_arm, feature_arm, binary_on, execute_unary,
  execute_binary, from_slice_or_scalar, to_slices_or_scalars, variable_numbers, call_numbers,
  execute_function,
}
use open_ark.Vm.Meaning.{eval, eval_all}
use open_ark.Vm.Correct.Runs.{IsDefined}

abbrev DefinedOk : {k : Kernel} → Result VmError (Variable k) → Type 0
DefinedOk (ok v) = IsDefined v
DefinedOk (err e) = Unit

-- The heap holds values only.
abbrev pub HoldsValues : {k : Kernel} → Heap k → Type 0
HoldsValues {k} heap =
    (x : ℕ) (v : Variable k) → get_variable x heap.variables ≡ some v → IsDefined v

pub eqb-ne : (x y : ℕ) → y ≢ x → eqb x y ≡ false
eqb-ne x y h = ground arith

pub ne-eqb : (y x : ℕ) → eqb y x ≡ false → y ≢ x
ne-eqb y x h = ground arith

quotient-DefinedOk :
    (k : Kernel) (r : Result VmError (k.Number))
    → DefinedOk {k = k} (r >>= λ c. ok (a_number (some c)))
quotient-DefinedOk k (ok n) = tt
quotient-DefinedOk k (err e) = tt

column-DefinedOk :
    (k : Kernel) (r : Result VmError (SliceOrScalar (k.Number) (k.Slice)))
    → DefinedOk {k = k} (r >>= λ x. ok (from_slice_or_scalar x))
column-DefinedOk k (ok (a_slice s)) = tt
column-DefinedOk k (ok (a_scalar n)) = tt
column-DefinedOk k (err e) = tt

columns-DefinedOk :
    (k : Kernel) (op : BuiltIn) (r : Result VmError (List (SliceOrScalar (k.Number) (k.Slice))))
    → DefinedOk {k = k} (r >>= λ xs. k.slice_function op xs >>= λ x. ok (from_slice_or_scalar x))
columns-DefinedOk k op (err e) = tt
columns-DefinedOk k op (ok xs) = column-DefinedOk k (k.slice_function op xs)

module _ {k : Kernel} where
  unary-DefinedOk : (op : UnaryExpr) (x : Variable k) → DefinedOk (execute_unary op x)
  unary-DefinedOk neg (lazy_slice s) = tt
  unary-DefinedOk neg (a_feature b) = tt
  unary-DefinedOk neg (a_number (some n)) = tt
  unary-DefinedOk neg (a_number none) = tt
  unary-DefinedOk inv (lazy_slice s) = tt
  unary-DefinedOk inv (a_feature (some b)) = tt
  unary-DefinedOk inv (a_feature none) = tt
  unary-DefinedOk inv (a_number n) = tt

  number_arm-DefinedOk :
      (op : BinaryExpr) (f : k.Number → k.Number → Result VmError (Variable k))
      → ((a b : k.Number) → DefinedOk (f a b))
      → (x y : Variable k) → DefinedOk (number_arm op f x y)
  number_arm-DefinedOk op f h (lazy_slice s) (lazy_slice t) = tt
  number_arm-DefinedOk op f h (lazy_slice s) (a_feature b) = tt
  number_arm-DefinedOk op f h (lazy_slice s) (a_number (some n)) = tt
  number_arm-DefinedOk op f h (lazy_slice s) (a_number none) = tt
  number_arm-DefinedOk op f h (a_feature b) y = tt
  number_arm-DefinedOk op f h (a_number (some n)) (lazy_slice t) = tt
  number_arm-DefinedOk op f h (a_number (some n)) (a_feature b) = tt
  number_arm-DefinedOk op f h (a_number (some n)) (a_number (some m)) = h n m
  number_arm-DefinedOk op f h (a_number (some n)) (a_number none) = tt
  number_arm-DefinedOk op f h (a_number none) y = tt

  feature_arm-DefinedOk :
      (op : BinaryExpr) (f : Bool → Bool → Bool) (x y : Variable k)
      → DefinedOk (feature_arm op f x y)
  feature_arm-DefinedOk op f (lazy_slice s) (lazy_slice t) = tt
  feature_arm-DefinedOk op f (lazy_slice s) (a_feature (some b)) = tt
  feature_arm-DefinedOk op f (lazy_slice s) (a_feature none) = tt
  feature_arm-DefinedOk op f (lazy_slice s) (a_number n) = tt
  feature_arm-DefinedOk op f (a_feature (some b)) (lazy_slice t) = tt
  feature_arm-DefinedOk op f (a_feature (some b)) (a_feature (some c)) = tt
  feature_arm-DefinedOk op f (a_feature (some b)) (a_feature none) = tt
  feature_arm-DefinedOk op f (a_feature (some b)) (a_number n) = tt
  feature_arm-DefinedOk op f (a_feature none) y = tt
  feature_arm-DefinedOk op f (a_number n) y = tt

  binary-DefinedOk :
      (kd : Kind k) (op : BinaryExpr) (x y : Variable k) → DefinedOk (binary_on kd op x y)
  binary-DefinedOk (number_number f) op = number_arm-DefinedOk op _ (λ a b. tt)
  binary-DefinedOk (number_number? f) op =
      number_arm-DefinedOk op _ (λ a b. quotient-DefinedOk k (f a b))
  binary-DefinedOk (number_feature f) op = number_arm-DefinedOk op _ (λ a b. tt)
  binary-DefinedOk (feature_feature f) op = feature_arm-DefinedOk op f

  numbers-DefinedOk :
      (op : BuiltIn) (o : Option (List (k.Number))) (xs : List (Variable k))
      → DefinedOk (call_numbers op o xs)
  numbers-DefinedOk op (some []) xs = tt
  numbers-DefinedOk op (some (n ∷ ns)) xs = tt
  numbers-DefinedOk op none xs = columns-DefinedOk k op (to_slices_or_scalars xs)

  function-DefinedOk :
      (op : FunctionExpr) (xs : List (Variable k)) → DefinedOk (execute_function op xs)
  unfolding execute_function
  function-DefinedOk (built_in op) xs = numbers-DefinedOk op (variable_numbers xs) xs
  function-DefinedOk (custom name) xs = tt

  ok-IsDefined :
      (r : Result VmError (Variable k)) (v : Variable k) → DefinedOk r → r ≡ ok v → IsDefined v
  ok-IsDefined r v h e = subst DefinedOk e h

  variable_or-IsDefined :
      (o : Option (Variable k)) (column : Result VmError (k.Slice)) (v : Variable k)
      → ((w : Variable k) → o ≡ some w → IsDefined w)
      → variable_or o column ≡ ok v
      → IsDefined v
  variable_or-IsDefined (some w) column v holds h =
      subst IsDefined (ok-injective w v h) (holds w refl)
  variable_or-IsDefined none column v holds h =
      let (s, e, made) = >>=-eq-ok column (λ s. ok (lazy_slice s)) v h in
      subst IsDefined (ok-injective (lazy_slice s) v made) tt

  get-IsDefined :
      (heap : Heap k) (x : ℕ) (v : Variable k)
      → HoldsValues heap
      → get_unchecked heap x ≡ ok v
      → IsDefined v
  unfolding get_unchecked
  get-IsDefined heap x v holds h =
      variable_or-IsDefined (get_variable x heap.variables) (k.get_column heap.edges x) v (holds x)
        h

  pub eval-IsDefined :
      (heap : Heap k) (e : Expr k) (v : Variable k)
      → HoldsValues heap
      → eval heap e ≡ ok v
      → IsDefined v
  unfolding eval
  eval-IsDefined heap (identity_expr (numeral n)) v holds h =
      ok-IsDefined (ok (a_number (some n))) v tt h
  eval-IsDefined heap (identity_expr (named x)) v holds h = get-IsDefined heap x v holds h
  eval-IsDefined heap (unary_expr op e) v holds h =
      let (x, h₁, h₂) = >>=-eq-ok (eval heap e) _ v h in
      ok-IsDefined (execute_unary op x) v (unary-DefinedOk op x) h₂
  eval-IsDefined heap (binary_expr op l r) v holds h =
      let (x, h₁, h₂) = >>=-eq-ok (eval heap l) _ v h in
      let (y, h₃, h₄) = >>=-eq-ok (eval heap r) _ v h₂ in
      ok-IsDefined (execute_binary op x y) v (binary-DefinedOk (kind k op) op x y) h₄
  eval-IsDefined heap (function_expr op args) v holds h =
      let (xs, h₁, h₂) = >>=-eq-ok (eval_all heap args) _ v h in
      ok-IsDefined (execute_function op xs) v (function-DefinedOk op xs) h₂

  column-insert_edges :
      (frames : IsFrame k) (f f' : k.Frame) (x y : ℕ) (v : Variable k)
      → insert_edges f x v ≡ ok f'
      → y ≢ x
      → k.get_column f' y ≡ k.get_column f y
  column-insert_edges frames f f' x y (lazy_slice s) h other = frames.get-insert f f' x y s h other
  column-insert_edges frames f f' x y (a_feature (some b)) h other =
      frames.get-fill_feature f f' x y b h other
  column-insert_edges frames f f' x y (a_feature none) h other = cc
  column-insert_edges frames f f' x y (a_number (some n)) h other =
      frames.get-fill_value f f' x y n h other
  column-insert_edges frames f f' x y (a_number none) h other = cc

  variable_here :
      (x : ℕ) (v : Variable k) (m : List (ℕ × Variable k)) → get_variable x ((x, v) ∷ m) ≡ some v
  unfolding get_variable
  variable_here x v m = ap (λ b. if b then some v else get_variable x m) ((eqb_iff x x).1 refl)

  variable_there :
      (x y : ℕ) (v : Variable k) (m : List (ℕ × Variable k))
      → y ≢ x
      → get_variable y ((x, v) ∷ m) ≡ get_variable y m
  unfolding get_variable
  variable_there x y v m other = ap (λ b. if b then some v else get_variable y m) (eqb-ne x y other)

  -- What a name has after it is set, and what the others have.
  module _ (heap next : Heap k) (x : ℕ) (v : Variable k)
      (set : insert_heap heap x v ≡ ok next) where
    set_parts :
        (f : k.Frame) × (insert_edges heap.edges x v ≡ ok f)
        × (record { edges = f; variables = (x, v) ∷ heap.variables } ≡ next)
    unfolding insert_heap
    set_parts =
        let (f, e, made) = >>=-eq-ok (insert_edges heap.edges x v) _ next set in
        (f, e, ok-injective _ _ made)

    pub get-insert_heap : get_unchecked next x ≡ ok v
    unfolding get_unchecked
    get-insert_heap =
        let (f, e, made) = set_parts in
        subst (λ (h : Heap k). get_unchecked h x ≡ ok v) made
          (ap (λ o. variable_or o (k.get_column f x)) (variable_here x v heap.variables))

    pub get-insert_heap_other :
        IsFrame k → (y : ℕ) → y ≢ x → get_unchecked next y ≡ get_unchecked heap y
    unfolding get_unchecked
    get-insert_heap_other frames y other =
        let (f, e, made) = set_parts in
        subst (λ (h : Heap k). get_unchecked h y ≡ get_unchecked heap y) made
          (ap (λ o. variable_or o (k.get_column f y)) (variable_there x y v heap.variables other)
            ∙ ap (variable_or (get_variable y heap.variables))
                (column-insert_edges frames heap.edges f x y v e other))

    pub variable-insert_heap :
        (y : ℕ) → y ≢ x → get_variable y next.variables ≡ get_variable y heap.variables
    variable-insert_heap y other =
        let (f, e, made) = set_parts in
        subst (λ (h : Heap k). get_variable y h.variables ≡ get_variable y heap.variables) made
          (variable_there x y v heap.variables other)

    value_set : get_variable x next.variables ≡ some v
    value_set =
        let (f, e, made) = set_parts in
        subst (λ (h : Heap k). get_variable x h.variables ≡ some v) made
          (variable_here x v heap.variables)

    pub insert_heap-HoldsValues : HoldsValues heap → IsDefined v → HoldsValues next
    insert_heap-HoldsValues holds fine y w h = elim (Bool-cases (eqb y x)) [
      | inl same ↦
          subst IsDefined
            (some-injective v w (
              sym (value_set)
              ∙ ap (λ n. get_variable n next.variables) (sym ((eqb_iff y x).0 same))
              ∙ h))
            fine
      | inr other ↦ holds y w (sym (variable-insert_heap y (ne-eqb y x other)) ∙ h)
    ]
