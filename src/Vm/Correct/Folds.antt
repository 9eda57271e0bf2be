-- ===== src/Vm/Correct/Folds.antt =====
-- The folding of constants agrees with the machine.
use open_ark.Prelude.{
  ℕ, Bool, not, Option, none, some, List, [], ◌∷◌, ◌≡◌, ◌≢◌, refl, sym, ap, subst, ◌∙◌, and_then,
  Result, ok, err, ◌>>=◌, >>=-eq-ok, ok-injective,
}
use open_ark.Vm.{
  BinaryExpr, UnaryExpr, neg, inv, BuiltIn, built_in, VmError, Kernel, Value, feature, number,
  variable, Stmt, define_local_feature, define_local_value, binary_stmt, unary_stmt,
}
use open_ark.Vm.Fold.{
  Kind, number_number, number_number?, number_feature, feature_feature, kind, pick_from, to_feature,
  to_number, fold_unary, fold_pair, fold_binary, all_numbers, fold_row, fold_function,
}
use open_ark.Vm.Call.{fetch, fetch_all, stmt_value}
use open_ark.Vm.Variables.{
  Variable, a_feature, a_number, binary_on, execute_unary, execute_binary, variable_numbers,
  call_numbers, execute_function,
}
use open_ark.Vm.Correct.Emits.{Emits, folded, kept}

and_then-some :
    {A B : Type 0} (o : Option A) (f : A → Option B) (b : B)
    → and_then o f ≡ some b
    → (a : A) × (o ≡ some a) × (f a ≡ some b)
and_then-some none f b h = cc
and_then-some (some a) f b h = (a, refl, h)

module _ {k : Kernel} (stack : List (Variable k)) where
  -- A statement and a value that are known by equations.
  emits_of :
      {stmt stmt' : Stmt k} {r r' : Result VmError (Variable k)}
      → stmt ≡ stmt'
      → r ≡ r'
      → Emits stack stmt r
      → Emits stack stmt' r'
  emits_of {stmt} {stmt'} {r} {r'} e e' h =
      subst (λ s. Emits stack s r') e (subst (λ q. Emits stack stmt q) e' h)

  unary_runs :
      (op : UnaryExpr) (v : Value k) (x : Variable k) (pc : ℕ)
      → fetch stack v ≡ ok x
      → stmt_value pc stack (unary_stmt op v) ≡ execute_unary op x
  unfolding stmt_value
  unary_runs op v x pc f = ap (λ r. r >>= execute_unary op) f

  binary_runs :
      (op : BinaryExpr) (v w : Value k) (x y : Variable k) (pc : ℕ)
      → fetch stack v ≡ ok x
      → fetch stack w ≡ ok y
      → stmt_value pc stack (binary_stmt op v w) ≡ execute_binary op x y
  unfolding stmt_value
  binary_runs op v w x y pc f g =
      ap (λ r. r >>= λ a. fetch stack w >>= λ b. execute_binary op a b) f
      ∙ ap (λ r. r >>= λ b. execute_binary op x b) g

  pub fold_unary-Emits :
      (op : UnaryExpr) (v : Value k) (x : Variable k) (stmt : Stmt k)
      → fold_unary op v ≡ ok stmt
      → fetch stack v ≡ ok x
      → Emits stack stmt (execute_unary op x)
  fold_unary-Emits neg (feature b) x stmt h f = cc
  fold_unary-Emits neg (number n) x stmt h f =
      emits_of (ok-injective _ _ h) (ap (execute_unary neg) (ok-injective _ _ f))
        (folded (number (k.number_neg n)) (a_number (some (k.number_neg n))) refl refl refl)
  fold_unary-Emits neg (variable i) x stmt h f =
      emits_of (ok-injective _ _ h) refl (kept refl (λ pc. unary_runs neg (variable i) x pc f))
  fold_unary-Emits inv (feature b) x stmt h f =
      emits_of (ok-injective _ _ h) (ap (execute_unary inv) (ok-injective _ _ f))
        (folded (feature (not b)) (a_feature (some (not b))) refl refl refl)
  fold_unary-Emits inv (number n) x stmt h f = cc
  fold_unary-Emits inv (variable i) x stmt h f =
      emits_of (ok-injective _ _ h) refl (kept refl (λ pc. unary_runs inv (variable i) x pc f))

  keeps :
      (op : BinaryExpr) (v w : Value k) (x y : Variable k) (stmt : Stmt k)
      → ◌≡◌ {A = Result VmError (Stmt k)} (ok (binary_stmt op v w)) (ok stmt)
      → fetch stack v ≡ ok x
      → fetch stack w ≡ ok y
      → Emits stack stmt (execute_binary op x y)
  keeps op v w x y stmt h fv fw =
      emits_of (ok-injective _ _ h) refl (kept refl (λ pc. binary_runs op v w x y pc fv fw))

  both_known :
      (op : BinaryExpr) (a b x y : Variable k) (stmt : Stmt k)
      → ◌≡◌ {A = Result VmError (Variable k)} (ok a) (ok x)
      → ◌≡◌ {A = Result VmError (Variable k)} (ok b) (ok y)
      → Emits stack stmt (execute_binary op a b)
      → Emits stack stmt (execute_binary op x y)
  both_known op a b x y stmt e e' h =
      emits_of refl
        (ap (λ q. execute_binary op q b) (ok-injective a x e)
          ∙ ap (execute_binary op x) (ok-injective b y e'))
        h

  -- An operation on numbers, by what it gives for two constants.
  module _ (op : BinaryExpr) (g : k.Number → k.Number → Result VmError (Stmt k))
      (pair : (a b : k.Number) (stmt : Stmt k)
        → g a b ≡ ok stmt
        → Emits stack stmt (execute_binary op (a_number (some a)) (a_number (some b)))) where
    numbers-Emits :
        (v w : Value k) (x y : Variable k) (stmt : Stmt k)
        → (to_number v >>= λ a. to_number w >>= λ b. fold_pair g (binary_stmt op v w) a b) ≡ ok stmt
        → fetch stack v ≡ ok x
        → fetch stack w ≡ ok y
        → Emits stack stmt (execute_binary op x y)
    numbers-Emits (feature a) w x y stmt h fv fw = cc
    numbers-Emits (number a) (feature b) x y stmt h fv fw = cc
    numbers-Emits (number a) (number b) x y stmt h fv fw =
        both_known op _ _ x y stmt fv fw (pair a b stmt h)
    numbers-Emits (number a) (variable j) x y stmt h fv fw = keeps op _ _ x y stmt h fv fw
    numbers-Emits (variable i) (feature b) x y stmt h fv fw = cc
    numbers-Emits (variable i) (number b) x y stmt h fv fw = keeps op _ _ x y stmt h fv fw
    numbers-Emits (variable i) (variable j) x y stmt h fv fw = keeps op _ _ x y stmt h fv fw

  -- An operation on features.
  module _ (op : BinaryExpr) (g : Bool → Bool → Result VmError (Stmt k))
      (pair : (a b : Bool) (stmt : Stmt k)
        → g a b ≡ ok stmt
        → Emits stack stmt (execute_binary op (a_feature (some a)) (a_feature (some b)))) where
    features-Emits :
        (v w : Value k) (x y : Variable k) (stmt : Stmt k)
        → (to_feature v >>= λ a. to_feature w >>= λ b. fold_pair g (binary_stmt op v w) a b)
          ≡ ok stmt
        → fetch stack v ≡ ok x
        → fetch stack w ≡ ok y
        → Emits stack stmt (execute_binary op x y)
    features-Emits (number a) w x y stmt h fv fw = cc
    features-Emits (feature a) (number b) x y stmt h fv fw = cc
    features-Emits (feature a) (feature b) x y stmt h fv fw =
        both_known op _ _ x y stmt fv fw (pair a b stmt h)
    features-Emits (feature a) (variable j) x y stmt h fv fw = keeps op _ _ x y stmt h fv fw
    features-Emits (variable i) (number b) x y stmt h fv fw = cc
    features-Emits (variable i) (feature b) x y stmt h fv fw = keeps op _ _ x y stmt h fv fw
    features-Emits (variable i) (variable j) x y stmt h fv fw = keeps op _ _ x y stmt h fv fw

  -- Two numbers give a number, with or without an error, or a feature.
  number_pair :
      (r : Result VmError (k.Number)) (stmt : Stmt k)
      → (r >>= λ z. ok (define_local_value (some z))) ≡ ok stmt
      → Emits stack stmt (r >>= λ c. ok (a_number (some c)))
  number_pair (ok z) stmt h =
      emits_of (ok-injective _ _ h) refl (folded (number z) (a_number (some z)) refl refl refl)
  number_pair (err e) stmt h = cc

  feature_pair :
      (b : Bool) (stmt : Stmt k)
      → ◌≡◌ {A = Result VmError (Stmt k)} (ok (define_local_feature (some b))) (ok stmt)
      → Emits stack stmt (ok (a_feature (some b)))
  feature_pair b stmt h =
      emits_of (ok-injective _ _ h) refl (folded (feature b) (a_feature (some b)) refl refl refl)

  binary_by_kind :
      (op : BinaryExpr) (kd : Kind k)
      → kind k op ≡ kd
      → (v w : Value k) (x y : Variable k) (stmt : Stmt k) → fold_binary kd op v w ≡ ok stmt
      → fetch stack v ≡ ok x
      → fetch stack w ≡ ok y
      → Emits stack stmt (execute_binary op x y)
  unfolding fold_binary
  binary_by_kind op (number_number f) e =
      numbers-Emits op (λ a b. ok (define_local_value (some (f a b))))
        (λ a b stmt h.
          emits_of refl (ap (λ q. binary_on q op (a_number (some a)) (a_number (some b))) (sym e))
            (number_pair (ok (f a b)) stmt h))
  binary_by_kind op (number_number? f) e =
      numbers-Emits op (λ a b. f a b >>= λ z. ok (define_local_value (some z)))
        (λ a b stmt h.
          emits_of refl (ap (λ q. binary_on q op (a_number (some a)) (a_number (some b))) (sym e))
            (number_pair (f a b) stmt h))
  binary_by_kind op (number_feature f) e =
      numbers-Emits op (λ a b. ok (define_local_feature (some (f a b))))
        (λ a b stmt h.
          emits_of refl (ap (λ q. binary_on q op (a_number (some a)) (a_number (some b))) (sym e))
            (feature_pair (f a b) stmt h))
  binary_by_kind op (feature_feature f) e =
      features-Emits op (λ a b. ok (define_local_feature (some (f a b))))
        (λ a b stmt h.
          emits_of refl (ap (λ q. binary_on q op (a_feature (some a)) (a_feature (some b))) (sym e))
            (feature_pair (f a b) stmt h))

  pub fold_binary-Emits :
      (op : BinaryExpr) (v w : Value k) (x y : Variable k) (stmt : Stmt k)
      → fold_binary (kind k op) op v w ≡ ok stmt
      → fetch stack v ≡ ok x
      → fetch stack w ≡ ok y
      → Emits stack stmt (execute_binary op x y)
  fold_binary-Emits op = binary_by_kind op (kind k op) refl

  -- A row of constants is fetched as it is.
  numbers_fetched :
      (vs : List (Value k)) (xs : List (Variable k)) (ns : List (k.Number))
      → all_numbers vs ≡ some ns
      → fetch_all stack vs ≡ ok xs
      → variable_numbers xs ≡ some ns
  numbers_fetched [] xs ns h f = ap variable_numbers (sym (ok-injective [] xs f)) ∙ h
  numbers_fetched (feature b ∷ vs) xs ns h f = cc
  numbers_fetched (variable i ∷ vs) xs ns h f = cc
  numbers_fetched (number n ∷ vs) xs ns h f =
      let (ms, known, made) = and_then-some (all_numbers vs) (λ ns. some (n ∷ ns)) ns h in
      let (ys, fetched, row) =
        >>=-eq-ok (fetch_all stack vs) (λ ys. ok (a_number (some n) ∷ ys)) xs f in
      ap variable_numbers (sym (ok-injective (a_number (some n) ∷ ys) xs row))
      ∙ ap (λ o. and_then o (λ ns. some (n ∷ ns))) (numbers_fetched vs ys ms known fetched)
      ∙ made

  cons_numbers : (v : Value k) (vs : List (Value k)) → all_numbers (v ∷ vs) ≢ some []
  cons_numbers (feature b) vs h = cc
  cons_numbers (variable i) vs h = cc
  cons_numbers (number n) vs h =
      let (ms, known, made) = and_then-some (all_numbers vs) (λ ns. some (n ∷ ns)) [] h in cc

  function_row :
      (op : BuiltIn) (v : Value k) (vs : List (Value k)) (xs : List (Variable k))
      (o : Option (List (k.Number)))
      → all_numbers (v ∷ vs) ≡ o
      → fetch_all stack (v ∷ vs) ≡ ok xs
      → Emits stack (fold_row op (v ∷ vs) o) (execute_function (built_in op) xs)
  unfolding execute_function stmt_value
  function_row op v vs xs none e f =
      kept refl (λ pc. ap (λ r. r >>= execute_function (built_in op)) f)
  function_row op v vs xs (some []) e f = absurd (cons_numbers v vs e)
  function_row op v vs xs (some (n ∷ ns)) e f =
      emits_of refl
        (ap (λ o. call_numbers op o xs) (sym (numbers_fetched (v ∷ vs) xs (n ∷ ns) e f)))
        (folded (number (pick_from k op n ns)) (a_number (some (pick_from k op n ns))) refl refl
          refl)

  pub fold_function-Emits :
      (op : BuiltIn) (v : Value k) (vs : List (Value k)) (xs : List (Variable k))
      → fetch_all stack (v ∷ vs) ≡ ok xs
      → Emits stack (fold_function op (v ∷ vs)) (execute_function (built_in op) xs)
  fold_function-Emits op v vs xs f = function_row op v vs xs (all_numbers (v ∷ vs)) refl f
