-- ===== src/Vm/Correct/Names.antt =====
-- The names that the compiler knows are those of the script.
use open_ark.Prelude.{
  ℕ, Bool, true, false, ◌||◌, Option, none, some, List, [], ◌∷◌, ◌++◌, ◌≡◌, refl, ap, subst, eqb,
  ok, >>=-eq-ok, ok-injective, contains, nat_eq, arith,
}
use open_ark.Vm.{
  Kernel, numeral, named, Expr, identity_expr, unary_expr, binary_expr, function_expr, Exprs, nil,
  cons, Value, number, Stmt, Instruction,
}
use open_ark.Vm.Fold.{to_value, kind, fold_unary, fold_binary}
use open_ark.Vm.Compile.{
  find_local, get_local_value, local_on, placeholder, register_on, call_stmt, execute_expr,
  execute_exprs,
}
use open_ark.Vm.Meaning.{names, names_all}
use open_ark.Vm.Correct.Emits.{find_local-other}

-- The compiler finds a name only among those seen.
abbrev pub KnowsOnly : {k : Kernel} → List ℕ → List (Instruction k) → Type 0
KnowsOnly {k} seen code = (x : ℕ) → contains seen x ≡ false → find_local x 0 code ≡ none

pub contains-append :
    (xs ys : List ℕ) (x : ℕ) → contains (xs ++ ys) x ≡ contains xs x || contains ys x
contains-append [] ys x = refl
contains-append (y ∷ xs) ys x = ground (arith, contains-append xs ys x)

pub absent_left : (xs ys : List ℕ) (x : ℕ) → contains (xs ++ ys) x ≡ false → contains xs x ≡ false
absent_left xs ys x h = ground (arith, contains-append xs ys x)

pub absent_right : (xs ys : List ℕ) (x : ℕ) → contains (xs ++ ys) x ≡ false → contains ys x ≡ false
absent_right xs ys x h = ground (arith, contains-append xs ys x)

pub absent_first : (y : ℕ) (ys : List ℕ) (x : ℕ) → contains (y ∷ ys) x ≡ false → eqb y x ≡ false
absent_first y ys x h = ground arith

pub absent_tail :
    (y : ℕ) (ys : List ℕ) (x : ℕ) → contains (y ∷ ys) x ≡ false → contains ys x ≡ false
absent_tail y ys x h = ground arith

absent_head : (x y : ℕ) → contains (x ∷ []) y ≡ false → eqb x y ≡ false
absent_head x y h = ground arith

module _ {k : Kernel} where
  register-unknown :
      (x : ℕ) (code : List (Instruction k)) (stmt : Stmt k) (o : Option (Value k))
      → find_local x 0 code ≡ none
      → find_local x 0 (register_on o stmt code).1 ≡ none
  register-unknown x code stmt (some v) h = h
  register-unknown x code stmt none h =
      find_local-other x code (record { name = none; stmt = stmt }) h refl

  local-unknown :
      (p : Bool) (x y : ℕ) (code code' : List (Instruction k)) (v : Value k) (o : Option (Value k))
      → local_on p y code o ≡ ok (v, code')
      → eqb y x ≡ false
      → find_local x 0 code ≡ none
      → find_local x 0 code' ≡ none
  local-unknown p x y code code' v (some w) h other e =
      subst (λ c. find_local x 0 c ≡ none) (ap (λ q. q.1) (ok-injective (w, code) (v, code') h)) e
  local-unknown false x y code code' v none h other e = cc
  local-unknown true x y code code' v none h other e =
      subst (λ c. find_local x 0 c ≡ none) (ap (λ q. q.1) (ok-injective _ (v, code') h))
        (find_local-other x code (placeholder y) e other)

  numeral-unknown :
      (p : Bool) (x : ℕ) (n : k.Number) (code code' : List (Instruction k)) (v : Value k)
      → get_local_value p (numeral n) code ≡ ok (v, code')
      → find_local x 0 code ≡ none
      → find_local x 0 code' ≡ none
  unfolding get_local_value
  numeral-unknown p x n code code' v h e =
      subst (λ c. find_local x 0 c ≡ none)
        (ap (λ q. q.1) (ok-injective (number n, code) (v, code') h)) e

  named-unknown :
      (p : Bool) (x y : ℕ) (code code' : List (Instruction k)) (v : Value k)
      → get_local_value p (named y) code ≡ ok (v, code')
      → eqb y x ≡ false
      → find_local x 0 code ≡ none
      → find_local x 0 code' ≡ none
  unfolding get_local_value
  named-unknown p x y code code' v h = local-unknown p x y code code' v (find_local y 0 code) h

mutual
  unfolding execute_expr execute_exprs names names_all

  pub execute_expr-unknown :
      {k : Kernel} (p : Bool) (e : Expr k) (code code' : List (Instruction k)) (v : Value k) (x : ℕ)
      → execute_expr p e code ≡ ok (v, code')
      → contains (names e) x ≡ false
      → find_local x 0 code ≡ none
      → find_local x 0 code' ≡ none
  execute_expr-unknown p (identity_expr (numeral n)) code code' v x h absent e =
      numeral-unknown p x n code code' v h e
  execute_expr-unknown p (identity_expr (named y)) code code' v x h absent e =
      named-unknown p x y code code' v h (absent_head y x absent) e
  execute_expr-unknown p (unary_expr op a) code code' v x h absent e =
      let ((w, code₁), h₁, h₂) = >>=-eq-ok (execute_expr p a code) _ (v, code') h in
      let (stmt, h₃, h₄) = >>=-eq-ok (fold_unary op w) _ (v, code') h₂ in
      subst (λ c. find_local x 0 c ≡ none) (ap (λ q. q.1) (ok-injective _ (v, code') h₄))
        (register-unknown x code₁ stmt (to_value stmt)
          (execute_expr-unknown p a code code₁ w x h₁ absent e))
  execute_expr-unknown {k} p (binary_expr op l r) code code' v x h absent e =
      let ((a, code₁), h₁, h₂) = >>=-eq-ok (execute_expr p l code) _ (v, code') h in
      let ((b, code₂), h₃, h₄) = >>=-eq-ok (execute_expr p r code₁) _ (v, code') h₂ in
      let (stmt, h₅, h₆) = >>=-eq-ok (fold_binary (kind k op) op a b) _ (v, code') h₄ in
      subst (λ c. find_local x 0 c ≡ none) (ap (λ q. q.1) (ok-injective _ (v, code') h₆))
        (register-unknown x code₂ stmt (to_value stmt) (
          execute_expr-unknown p r code₁ code₂ b x h₃ (absent_right (names l) (names r) x absent) (
            execute_expr-unknown p l code code₁ a x h₁ (absent_left (names l) (names r) x absent)
              e)))
  execute_expr-unknown p (function_expr op args) code code' v x h absent e =
      let ((vs, code₁), h₁, h₂) = >>=-eq-ok (execute_exprs p args code) _ (v, code') h in
      let (stmt, h₃, h₄) = >>=-eq-ok (call_stmt op vs) _ (v, code') h₂ in
      subst (λ c. find_local x 0 c ≡ none) (ap (λ q. q.1) (ok-injective _ (v, code') h₄))
        (register-unknown x code₁ stmt (to_value stmt)
          (execute_exprs-unknown p args code code₁ vs x h₁ absent e))

  execute_exprs-unknown :
      {k : Kernel} (p : Bool) (es : Exprs k) (code code' : List (Instruction k))
      (vs : List (Value k)) (x : ℕ)
      → execute_exprs p es code ≡ ok (vs, code')
      → contains (names_all es) x ≡ false
      → find_local x 0 code ≡ none
      → find_local x 0 code' ≡ none
  execute_exprs-unknown p nil code code' vs x h absent e =
      subst (λ c. find_local x 0 c ≡ none) (ap (λ q. q.1) (ok-injective _ (vs, code') h)) e
  execute_exprs-unknown p (cons a es) code code' vs x h absent e =
      let ((w, code₁), h₁, h₂) = >>=-eq-ok (execute_expr p a code) _ (vs, code') h in
      let ((ws, code₂), h₃, h₄) = >>=-eq-ok (execute_exprs p es code₁) _ (vs, code') h₂ in
      subst (λ c. find_local x 0 c ≡ none) (ap (λ q. q.1) (ok-injective _ (vs, code') h₄))
        (execute_exprs-unknown p es code₁ code₂ ws x h₃
          (absent_right (names a) (names_all es) x absent)
          (execute_expr-unknown p a code code₁ w x h₁
            (absent_left (names a) (names_all es) x absent) e))
