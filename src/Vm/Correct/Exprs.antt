-- ===== src/Vm/Correct/Exprs.antt =====
-- The instructions of an expression compute its meaning.
use open_ark.Prelude.{
  Bool, List, [], ◌∷◌, append-nil, ◌≡◌, sym, ap, subst, ◌∙◌, ok, ◌>>=◌, >>=-eq-ok, ok-injective,
}
use open_ark.Vm.{
  Kernel, Expr, identity_expr, unary_expr, binary_expr, function_expr, Exprs, nil, cons, Value,
  Instruction,
}
use open_ark.Vm.Fold.{kind, fold_unary, fold_binary}
use open_ark.Vm.Compile.{call_stmt, execute_expr, execute_exprs}
use open_ark.Vm.Call.{fetch, fetch_all}
use open_ark.Vm.Variables.{Variable, execute_unary, execute_binary, execute_function}
use open_ark.Vm.Meaning.{eval, eval_all, HasArguments, AllHaveArguments}
use open_ark.Vm.Correct.Runs.{outcome_here}
use open_ark.Vm.Correct.Folds.{fold_unary-Emits, fold_binary-Emits}
use open_ark.Vm.Correct.Parts.{
  Computes, Fetches, FetchesAll, arguments_nonempty, call_emits, two_assoc, Computes-eq,
  Computes-two, register-Computes, term-Computes,
}

abbrev FetchesBoth :
    {k : Kernel} → Value k → Value k → List (Variable k) → Variable k × Variable k → Type 0
FetchesBoth v w s q = (fetch s v ≡ ok q.0) × (fetch s w ≡ ok q.1)

mutual
  unfolding execute_expr execute_exprs eval eval_all HasArguments AllHaveArguments

  pub execute_expr-Computes :
      {k : Kernel} (p : Bool) (e : Expr k) (code code' : List (Instruction k)) (v : Value k)
      → execute_expr p e code ≡ ok (v, code')
      → HasArguments e
      → Computes (Fetches v) (λ heap. eval heap e) code code'
  execute_expr-Computes p (identity_expr t) code code' v h args = term-Computes p t code code' v h
  execute_expr-Computes p (unary_expr op e) code code' v h args =
      let ((w, code₁), h₁, h₂) = >>=-eq-ok (execute_expr p e code) _ (v, code') h in
      let (stmt, h₃, h₄) = >>=-eq-ok (fold_unary op w) _ (v, code') h₂ in
      register-Computes (Fetches w) (λ heap. eval heap e) (execute_unary op) code code₁ code' v stmt
        (execute_expr-Computes p e code code₁ w h₁ args) (ok-injective _ _ h₄)
        (λ x next found. fold_unary-Emits next op w x stmt h₃ found)
  execute_expr-Computes {k} p (binary_expr op l r) code code' v h args =
      let ((a, code₁), h₁, h₂) = >>=-eq-ok (execute_expr p l code) _ (v, code') h in
      let ((b, code₂), h₃, h₄) = >>=-eq-ok (execute_expr p r code₁) _ (v, code') h₂ in
      let (stmt, h₅, h₆) = >>=-eq-ok (fold_binary (kind k op) op a b) _ (v, code') h₄ in
      Computes-eq (Fetches v) _ (λ heap. eval heap (binary_expr op l r)) code code'
        (λ heap. two_assoc (eval heap l) (eval heap r) (execute_binary op))
        (register-Computes (FetchesBoth a b)
          (λ heap. eval heap l >>= λ x. eval heap r >>= λ y. ok (x, y))
          (λ q. execute_binary op q.0 q.1) code code₂ code' v stmt
          (Computes-two (Fetches a) (Fetches b) (FetchesBoth a b) (λ x y. (x, y))
            (λ heap. eval heap l) (λ heap. eval heap r) code code₁ code₂
            (execute_expr-Computes p l code code₁ a h₁ args.0)
            (execute_expr-Computes p r code₁ code₂ b h₃ args.1)
            (λ x y s next keeps found found'. (keeps a x found, found')))
          (ok-injective _ _ h₆)
          (λ q next found. fold_binary-Emits next op a b q.0 q.1 stmt h₅ found.0 found.1))
  execute_expr-Computes p (function_expr op nil) code code' v h args = absurd args
  execute_expr-Computes p (function_expr op (cons e es)) code code' v h args =
      let ((vs, code₁), h₁, h₂) = >>=-eq-ok (execute_exprs p (cons e es) code) _ (v, code') h in
      let (stmt, h₃, h₄) = >>=-eq-ok (call_stmt op vs) _ (v, code') h₂ in
      register-Computes (FetchesAll vs) (λ heap. eval_all heap (cons e es)) (execute_function op)
        code code₁ code' v stmt (execute_exprs-Computes p (cons e es) code code₁ vs h₁ args)
        (ok-injective _ _ h₄)
        (λ xs next found.
          call_emits next op vs xs stmt h₃ (arguments_nonempty p e es code code₁ vs h₁) found)

  execute_exprs-Computes :
      {k : Kernel} (p : Bool) (es : Exprs k) (code code' : List (Instruction k))
      (vs : List (Value k))
      → execute_exprs p es code ≡ ok (vs, code')
      → AllHaveArguments es
      → Computes (FetchesAll vs) (λ heap. eval_all heap es) code code'
  execute_exprs-Computes p nil code code' vs h args =
      let same = ok-injective ([], code) (vs, code') h in
      (
        [],
        sym (ap (λ q. q.1) same) ∙ sym (append-nil code),
        λ heap stack agrees.
            outcome_here heap (FetchesAll vs) code stack [] agrees
              (ap (fetch_all stack) (sym (ap (λ q. q.0) same))),
      )
  execute_exprs-Computes p (cons e es) code code' vs h args =
      let ((w, code₁), h₁, h₂) = >>=-eq-ok (execute_expr p e code) _ (vs, code') h in
      let ((ws, code₂), h₃, h₄) = >>=-eq-ok (execute_exprs p es code₁) _ (vs, code') h₂ in
      let same = ok-injective (w ∷ ws, code₂) (vs, code') h₄ in
      subst (λ c. Computes (FetchesAll vs) (λ heap. eval_all heap (cons e es)) code c)
        (ap (λ q. q.1) same)
        (Computes-two (Fetches w) (FetchesAll ws) (FetchesAll vs) (λ x xs. x ∷ xs)
          (λ heap. eval heap e) (λ heap. eval_all heap es) code code₁ code₂
          (execute_expr-Computes p e code code₁ w h₁ args.0)
          (execute_exprs-Computes p es code₁ code₂ ws h₃ args.1)
          (λ x xs s next keeps found found'.
            ap (fetch_all next) (sym (ap (λ q. q.0) same))
            ∙ ap (λ r. r >>= λ a. fetch_all next ws >>= λ b. ok (a ∷ b)) (keeps w x found)
            ∙ ap (λ r. r >>= λ b. ok (x ∷ b)) found'))
