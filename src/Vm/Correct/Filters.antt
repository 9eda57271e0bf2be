-- ===== src/Vm/Correct/Filters.antt =====
-- A filter that is compiled and run.
use open_ark.Prelude.{
  ℕ, zero, suc, Bool, true, false, Option, none, some, List, [], ◌∷◌, length, length-append,
  get_elem?, last, ◌≡◌, ◌≢◌, refl, sym, ap, subst, ◌∙◌, Result, ok, err, ◌>>=◌, >>=-eq-ok,
  ok-injective, arith,
}
use open_ark.Vm.{
  VmError, index_panic, Kernel, numeral, named, Expr, identity_expr, unary_expr, binary_expr,
  function_expr, Exprs, nil, cons, filter_expr, Value, feature, number, variable, Stmt, Instruction,
}
use open_ark.Vm.Fold.{kind, to_value, fold_unary, fold_binary}
use open_ark.Vm.Compile.{
  find_local, get_local_value, placeholder, register_on, call_stmt, execute_expr, execute_exprs,
  execute_filter,
}
use open_ark.Vm.Call.{run_from, call, into_slice, try_into_filter}
use open_ark.Vm.Variables.{Variable}
use open_ark.Vm.Meaning.{eval, HasArguments}
use open_ark.Vm.Correct.Runs.{context, Outcome}
use open_ark.Vm.Correct.Exprs.{execute_expr-Computes}
use open_ark.Vm.Correct.Parts.{Fetches}
use open_ark.Vm.Correct.Constants.{
  AllConstant, IsConstant, IsFinal, call_stmt-IsConstant, constant-IsFinal, constant_start,
  fold_binary-IsConstant, fold_unary-IsConstant,
}
use open_ark.Vm.Correct.Scripts.{start, start-Agrees}

module _ {k : Kernel} where
  registered-IsFinal :
      (stmt : Stmt k) (code code' : List (Instruction k)) (v : Value k) (o : Option (Value k))
      → register_on o stmt code ≡ (v, code')
      → to_value stmt ≡ o
      → ((w : Value k) → to_value stmt ≡ some w → IsConstant w × (code ≡ []))
      → IsFinal v code'
  registered-IsFinal stmt code code' v none e h folded =
      subst (λ (q : Value k × List (Instruction k)). IsFinal q.0 q.1) e
        (length-append code (record { name = none; stmt = stmt } ∷ []) ∙ omega arith)
  registered-IsFinal stmt code code' v (some w) e h folded =
      let (constant, empty) = folded w h in
      subst (λ (q : Value k × List (Instruction k)). IsFinal q.0 q.1) e
        (subst (λ c. IsFinal w c) (sym empty) (constant-IsFinal w constant))

mutual
  unfolding execute_expr execute_exprs get_local_value find_local

  execute_expr-IsFinal :
      {k : Kernel} (p : Bool) (e : Expr k) (v : Value k) (code : List (Instruction k))
      → execute_expr p e [] ≡ ok (v, code)
      → IsFinal v code
  execute_expr-IsFinal {k} p (identity_expr (numeral n)) v code h =
      subst (λ (q : Value k × List (Instruction k)). IsFinal q.0 q.1)
        (ok-injective (number n, []) (v, code) h) refl
  execute_expr-IsFinal false (identity_expr (named x)) v code h = absurd (cc)
  execute_expr-IsFinal {k} true (identity_expr (named x)) v code h =
      subst (λ (q : Value k × List (Instruction k)). IsFinal q.0 q.1)
        (ok-injective (variable 0, placeholder x ∷ []) (v, code) h) refl
  execute_expr-IsFinal p (unary_expr op e) v code h =
      let ((w, code₁), h₁, h₂) = >>=-eq-ok (execute_expr p e []) _ (v, code) h in
      let (stmt, h₃, h₄) = >>=-eq-ok (fold_unary op w) _ (v, code) h₂ in
      let final = execute_expr-IsFinal p e w code₁ h₁ in
      registered-IsFinal stmt code₁ code v (to_value stmt) (ok-injective _ _ h₄) refl (λ u known.
        let (constant, made) = fold_unary-IsConstant op w u stmt h₃ known in
        (made, constant_start w code₁ final constant))
  execute_expr-IsFinal {k} p (binary_expr op l r) v code h =
      let ((a, code₁), h₁, h₂) = >>=-eq-ok (execute_expr p l []) _ (v, code) h in
      let ((b, code₂), h₃, h₄) = >>=-eq-ok (execute_expr p r code₁) _ (v, code) h₂ in
      let (stmt, h₅, h₆) = >>=-eq-ok (fold_binary (kind k op) op a b) _ (v, code) h₄ in
      registered-IsFinal stmt code₂ code v (to_value stmt) (ok-injective _ _ h₆) refl (λ u known.
        let (left, right, made) = fold_binary-IsConstant (kind k op) op a b u stmt h₅ known in
        let empty = constant_start a code₁ (execute_expr-IsFinal p l a code₁ h₁) left in
        (
          made,
          constant_start b code₂
              (execute_expr-IsFinal p r b code₂
                (subst (λ c. execute_expr p r c ≡ ok (b, code₂)) empty h₃))
              right,
        ))
  execute_expr-IsFinal p (function_expr op args) v code h =
      let ((vs, code₁), h₁, h₂) = >>=-eq-ok (execute_exprs p args []) _ (v, code) h in
      let (stmt, h₃, h₄) = >>=-eq-ok (call_stmt op vs) _ (v, code) h₂ in
      registered-IsFinal stmt code₁ code v (to_value stmt) (ok-injective _ _ h₄) refl (λ u known.
        let (constants, made) = call_stmt-IsConstant op vs u stmt h₃ known in
        (made, execute_exprs-constant p args vs code₁ h₁ constants))

  execute_exprs-constant :
      {k : Kernel} (p : Bool) (es : Exprs k) (vs : List (Value k)) (code : List (Instruction k))
      → execute_exprs p es [] ≡ ok (vs, code)
      → AllConstant vs
      → code ≡ []
  execute_exprs-constant p nil vs code h constants =
      ap (λ q. q.1) (sym (ok-injective ([], []) (vs, code) h))
  execute_exprs-constant p (cons e es) vs code h constants =
      let ((w, code₁), h₁, h₂) = >>=-eq-ok (execute_expr p e []) _ (vs, code) h in
      let ((ws, code₂), h₃, h₄) = >>=-eq-ok (execute_exprs p es code₁) _ (vs, code) h₂ in
      let same = ok-injective (w ∷ ws, code₂) (vs, code) h₄ in
      let split : AllConstant (w ∷ ws) = subst AllConstant (ap (λ q. q.0) (sym same)) constants in
      let empty = constant_start w code₁ (execute_expr-IsFinal p e w code₁ h₁) split.0 in
      sym (ap (λ q. q.1) same)
      ∙ execute_exprs-constant p es ws code₂
          (subst (λ c. execute_exprs p es c ≡ ok (ws, code₂)) empty h₃) split.1

last_get :
    {A : Type 0} (xs : List A) (i : ℕ) (x : A)
    → length xs ≡ suc i
    → get_elem? xs i ≡ some x
    → last xs ≡ some x
last_get [] i x e h = absurd (cc)
last_get (y ∷ []) zero x e h = h
last_get (y ∷ []) (suc i) x e h = absurd (cc)
last_get (y ∷ z ∷ xs) zero x e h = absurd (omega (arith, e))
last_get (y ∷ z ∷ xs) (suc i) x e h = last_get (z ∷ xs) i x (omega (arith, e)) h

module _ {k : Kernel} where
  fetched_last :
      (stack : List (Variable k)) (i : ℕ) (val : Variable k) (o : Option (Variable k))
      → length stack ≡ suc i
      → get_elem? stack i ≡ o
      → (elim o [ some v ↦ ok v | none ↦ err index_panic ]) ≡ ok val
      → last stack ≡ some val
  fetched_last stack i val none e g h = absurd (cc)
  fetched_last stack i val (some v) e g h = last_get stack i v e g ∙ ap some (ok-injective v val h)

  filter_last :
      (edges : k.Frame) (v : Value k) (code : List (Instruction k))
      → IsFinal v code
      → code ≢ []
      → (r : Result VmError (Variable k)) → Outcome (start edges) (Fetches v) [] code [] r
      → (run_from 0 code (context (start edges) []) >>= try_into_filter) ≡ (r >>= into_slice edges)
  unfolding try_into_filter
  filter_last edges v code final some_code (err e) h = ap (λ r. r >>= try_into_filter) h
  filter_last edges (feature b) code final some_code (ok val) h = absurd (some_code final)
  filter_last edges (number n) code final some_code (ok val) h = absurd (some_code final)
  filter_last edges (variable i) code final some_code (ok val) (next, ran, keeps, agrees, found) =
      ap (λ r. r >>= try_into_filter) ran
      ∙ ap (λ o. elim o [ some v ↦ into_slice edges v | none ↦ k.all_rows edges ])
          (fetched_last next i val (get_elem? next i) (agrees.sizes ∙ final) refl found)

-- A filter that compiles to some instructions selects the rows that its expression evaluates to, or
-- stops with the error of that evaluation: over any frame, if every call in it has an argument.
pub call-execute_filter :
    (k : Kernel) (placeholders : Bool) (e : Expr k) (code : List (Instruction k)) (edges : k.Frame)
    → execute_filter placeholders (filter_expr e) [] ≡ ok code
    → HasArguments e
    → code ≢ []
    → (call code edges none >>= try_into_filter) ≡ (eval (start edges) e >>= into_slice edges)
unfolding call execute_filter
call-execute_filter k placeholders e code edges h args some_code =
    let ((v, made), h₁, h₂) = >>=-eq-ok (execute_expr placeholders e []) _ code h in
    let (new, from, runs) = execute_expr-Computes placeholders e [] made v h₁ args in
    let here : new ≡ code = sym from ∙ ok-injective made code h₂ in
    filter_last edges v code
      (subst (λ c. IsFinal v c) (ok-injective made code h₂)
        (execute_expr-IsFinal placeholders e v made h₁))
      some_code (eval (start edges) e)
      (subst (λ c. Outcome (start edges) (Fetches v) [] c [] (eval (start edges) e)) here
        (runs (start edges) [] (start-Agrees edges)))
