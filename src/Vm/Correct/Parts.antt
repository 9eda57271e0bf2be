-- ===== src/Vm/Correct/Parts.antt =====
-- What the instructions of a part of an expression compute.
use open_ark.Prelude.{
  ℕ, Bool, true, false, Option, none, some, List, [], ◌∷◌, ◌++◌, append_assoc, append-nil, length,
  ◌≡◌, ◌≢◌, refl, sym, ap, subst, ◌∙◌, Result, ok, err, ◌>>=◌, >>=-eq-ok, ok-injective, eqb_iff,
}
use open_ark.Vm.{
  VmError, FunctionExpr, built_in, custom, Kernel, Term, numeral, named, Expr, Exprs, cons, Value,
  number, variable, Stmt, Instruction,
}
use open_ark.Vm.Fold.{to_value}
use open_ark.Vm.Compile.{
  find_local, get_local_value, placeholder, local_on, register_stmt, call_stmt, execute_expr,
  execute_exprs,
}
use open_ark.Vm.Call.{
  check_number, Heap, get_variable, variable_or, get_unchecked, fetch, fetch_all, step_vm, run_from,
  stmt_value,
}
use open_ark.Vm.Variables.{Variable, a_number, lazy_slice, execute_function}
use open_ark.Vm.Meaning.{term_value}
use open_ark.Vm.Correct.Runs.{
  Agrees, context, Keeps, Keeps-append, Outcome, outcome_bind, outcome_here,
}
use open_ark.Vm.Correct.Emits.{
  Emits, emitted_on, register-emitted, outcome_register, push-Agrees, fetch-last,
}
use open_ark.Vm.Correct.Folds.{fold_function-Emits}

-- The instructions that a part of the compiler adds, which compute a result at every heap.
abbrev pub Computes :
    {k : Kernel} {A : Type 0}
    → (List (Variable k) → A → Type 0)
    → (Heap k → Result VmError A)
    → List (Instruction k)
    → List (Instruction k)
    → Type 0
Computes {k} Q meaning code code' =
    (new : List (Instruction k)) × (code' ≡ code ++ new)
    × ((heap : Heap k) (stack : List (Variable k))
        → Agrees heap code stack
        → Outcome heap Q code new stack (meaning heap))

abbrev pub Fetches : {k : Kernel} → Value k → List (Variable k) → Variable k → Type 0
Fetches v s x = fetch s v ≡ ok x

abbrev pub FetchesAll :
    {k : Kernel} → List (Value k) → List (Variable k) → List (Variable k) → Type 0
FetchesAll vs s xs = fetch_all s vs ≡ ok xs

module _ {k : Kernel} where
  -- What is added after a first part, for what is made of its value.
  pub Computes-bind :
      {A B : Type 0} (Q : List (Variable k) → A → Type 0) (S : List (Variable k) → B → Type 0)
      (meaning : Heap k → Result VmError A) (f : Heap k → A → Result VmError B)
      (code code₁ code₂ more : List (Instruction k))
      → Computes Q meaning code code₁
      → code₂ ≡ code₁ ++ more
      → ((heap : Heap k) (a : A) (next : List (Variable k))
          → Agrees heap code₁ next
          → Q next a
          → Outcome heap S code₁ more next (f heap a))
      → Computes S (λ heap. meaning heap >>= f heap) code code₂
  Computes-bind Q S meaning f code code₁ code₂ more (new, e, first) e₂ rest = (
    new ++ more,
    e₂ ∙ ap (λ c. c ++ more) e ∙ append_assoc code new more,
    λ heap stack agrees.
        outcome_bind heap Q S code new more stack (meaning heap) (f heap) (first heap stack agrees)
          (λ a next keeps agrees' q.
            subst (λ c. Outcome heap S c more next (f heap a)) e
              (rest heap a next (subst (λ c. Agrees heap c next) (sym e) agrees') q)),
  )

  -- A placeholder reads the column of its name.
  placeholder_outcome :
      (heap : Heap k) (code : List (Instruction k)) (stack : List (Variable k)) (x : ℕ)
      → Agrees heap code stack
      → find_local x 0 code ≡ none
      → (r : Result VmError (k.Slice)) → get_unchecked heap x ≡ (r >>= λ s. ok (lazy_slice s))
      → Outcome heap
          (Fetches (variable (length code)))
          code
          (placeholder x ∷ [])
          stack
          (r >>= λ s. ok (lazy_slice s))
  unfolding run_from step_vm stmt_value
  placeholder_outcome heap code stack x agrees e (err z) column =
      ap
        (λ (r : Result VmError (Variable k)).
          (((r >>= check_number) >>= λ v. ok (heap, v)) >>= λ (q : Heap k × Variable k).
          ok (context q.0 (stack ++ q.1 ∷ [])))
          >>= λ n. ok n)
        column
  placeholder_outcome heap code stack x agrees e (ok s) column = (
    stack ++ lazy_slice s ∷ [],
    ap
        (λ (r : Result VmError (Variable k)).
          (((r >>= check_number) >>= λ v. ok (heap, v)) >>= λ (q : Heap k × Variable k).
          ok (context q.0 (stack ++ q.1 ∷ [])))
          >>= λ n. ok n)
        column,
    Keeps-append stack (lazy_slice s ∷ []),
    push-Agrees heap heap code stack (placeholder x) (lazy_slice s) agrees
        (λ y v w found held. held) (λ y e other. agrees.unknown y e)
        (λ y e here. (
          lazy_slice s,
          fetch-last stack (length code) (lazy_slice s) agrees.sizes,
          ap (get_unchecked heap) (sym ((eqb_iff x y).0 here)) ∙ column,
        )),
    fetch-last stack (length code) (lazy_slice s) agrees.sizes,
  )

  unset_column :
      (heap : Heap k) (x : ℕ)
      → get_variable x heap.variables ≡ none
      → get_unchecked heap x ≡ (k.get_column heap.edges x >>= λ s. ok (lazy_slice s))
  unfolding get_unchecked
  unset_column heap x e = ap (λ o. variable_or o (k.get_column heap.edges x)) e

  -- A name, by what the compiler finds of it.
  named-Computes :
      (p : Bool) (x : ℕ) (code code' : List (Instruction k)) (v : Value k) (o : Option (Value k))
      → find_local x 0 code ≡ o
      → local_on p x code o ≡ ok (v, code')
      → Computes (Fetches v) (λ heap. get_unchecked heap x) code code'
  named-Computes p x code code' v (some w) e h =
      let same = ok-injective (w, code) (v, code') h in
      (
        [],
        sym (ap (λ q. q.1) same) ∙ sym (append-nil code),
        λ heap stack agrees.
            let (val, found, held) = agrees.known x w e in
            subst (λ r. Outcome heap (Fetches v) code [] stack r) (sym held)
              (outcome_here heap (Fetches v) code stack val agrees
                (subst (λ u. fetch stack u ≡ ok val) (ap (λ q. q.0) same) found)),
      )
  named-Computes false x code code' v none e h = cc
  named-Computes true x code code' v none e h =
      let same = ok-injective (variable (length code), code ++ placeholder x ∷ []) (v, code') h in
      (
        placeholder x ∷ [],
        sym (ap (λ q. q.1) same),
        λ heap stack agrees.
            let column = unset_column heap x (agrees.unknown x e) in
            subst
              (λ u. Outcome heap (Fetches u) code (placeholder x ∷ []) stack (get_unchecked heap x))
              (ap (λ q. q.0) same)
              (subst
                (λ r.
                  Outcome heap (Fetches (variable (length code))) code (placeholder x ∷ []) stack r)
                (sym column)
                (placeholder_outcome heap code stack x agrees e (k.get_column heap.edges x)
                  column)),
      )

  pub term-Computes :
      (p : Bool) (t : Term k) (code code' : List (Instruction k)) (v : Value k)
      → get_local_value p t code ≡ ok (v, code')
      → Computes (Fetches v) (λ heap. term_value heap t) code code'
  unfolding get_local_value
  term-Computes p (numeral n) code code' v h =
      let same = ok-injective (number n, code) (v, code') h in
      (
        [],
        sym (ap (λ q. q.1) same) ∙ sym (append-nil code),
        λ heap stack agrees.
            outcome_here heap (Fetches v) code stack (a_number (some n)) agrees
              (ap (fetch stack) (sym (ap (λ q. q.0) same))),
      )
  term-Computes p (named x) code code' v h =
      named-Computes p x code code' v (find_local x 0 code) refl h

  -- The end of an expression: the statement that is made of the parts.
  pub register-Computes :
      {A : Type 0} (Q : List (Variable k) → A → Type 0) (meaning : Heap k → Result VmError A)
      (f : A → Result VmError (Variable k)) (code code₁ code' : List (Instruction k)) (v : Value k)
      (stmt : Stmt k)
      → Computes Q meaning code code₁
      → register_stmt stmt code₁ ≡ (v, code')
      → ((a : A) (next : List (Variable k)) → Q next a → Emits next stmt (f a))
      → Computes (Fetches v) (λ heap. meaning heap >>= f) code code'
  register-Computes Q meaning f code code₁ code' v stmt first e emits =
      Computes-bind Q (Fetches v) meaning (λ heap. f) code code₁ code'
        (emitted_on (to_value stmt) stmt) first
        (sym (ap (λ q. q.1) e) ∙ register-emitted stmt code₁ (to_value stmt))
        (λ heap a next agrees q.
          subst (λ u. Outcome heap (Fetches u) code₁ (emitted_on (to_value stmt) stmt) next (f a))
            (ap (λ q. q.0) e)
            (outcome_register heap code₁ next stmt agrees (f a) (emits a next q) (to_value stmt)
              refl))

module _ {k : Kernel} where
  outcome_map :
      {A B : Type 0} (heap : Heap k) (Q : List (Variable k) → A → Type 0)
      (S : List (Variable k) → B → Type 0) (f : A → B) (code new : List (Instruction k))
      (stack : List (Variable k))
      → ((a : A) (next : List (Variable k)) → Keeps stack next → Q next a → S next (f a))
      → (r : Result VmError A) → Outcome heap Q code new stack r
      → Outcome heap S code new stack (r >>= λ a. ok (f a))
  outcome_map heap Q S f code new stack map (err e) h = h
  outcome_map heap Q S f code new stack map (ok a) (next, ran, keeps, agrees, q) =
      (next, ran, keeps, agrees, map a next keeps q)

  -- Two parts in a row, the first of which is still found after the second.
  pub Computes-two :
      {A B C : Type 0} (Q : List (Variable k) → A → Type 0) (R : List (Variable k) → B → Type 0)
      (S : List (Variable k) → C → Type 0) (f : A → B → C) (m : Heap k → Result VmError A)
      (m' : Heap k → Result VmError B) (code code₁ code₂ : List (Instruction k))
      → Computes Q m code code₁
      → Computes R m' code₁ code₂
      → ((a : A) (b : B) (s next : List (Variable k))
          → Keeps s next
          → Q s a
          → R next b
          → S next (f a b))
      → Computes S (λ heap. m heap >>= λ a. m' heap >>= λ b. ok (f a b)) code code₂
  Computes-two Q R S f m m' code code₁ code₂ first (more, e, second) join =
      Computes-bind Q S m (λ heap a. m' heap >>= λ b. ok (f a b)) code code₁ code₂ more first e
        (λ heap a s agrees q.
          outcome_map heap R S (f a) code₁ more s (λ b next keeps r. join a b s next keeps q r)
            (m' heap) (second heap s agrees))

  pub Computes-eq :
      {A : Type 0} (Q : List (Variable k) → A → Type 0) (m m' : Heap k → Result VmError A)
      (code code' : List (Instruction k))
      → ((heap : Heap k) → m heap ≡ m' heap)
      → Computes Q m code code'
      → Computes Q m' code code'
  Computes-eq Q m m' code code' same (new, e, runs) = (
    new,
    e,
    λ heap stack agrees.
        subst (λ r. Outcome heap Q code new stack r) (same heap) (runs heap stack agrees),
  )

cons-ne-nil : {A : Type 0} (x : A) (xs : List A) → x ∷ xs ≢ []
cons-ne-nil x xs e = cc

pub arguments_nonempty :
    {k : Kernel} (p : Bool) (e : Expr k) (es : Exprs k) (code code' : List (Instruction k))
    (vs : List (Value k))
    → execute_exprs p (cons e es) code ≡ ok (vs, code')
    → vs ≢ []
unfolding execute_exprs
arguments_nonempty p e es code code' vs h none_yet =
    let ((w, code₁), h₁, h₂) = >>=-eq-ok (execute_expr p e code) _ (vs, code') h in
    let ((ws, code₂), h₃, h₄) = >>=-eq-ok (execute_exprs p es code₁) _ (vs, code') h₂ in
    cons-ne-nil w ws (ap (λ q. q.0) (ok-injective (w ∷ ws, code₂) (vs, code') h₄) ∙ none_yet)

pub call_emits :
    {k : Kernel} (stack : List (Variable k)) (op : FunctionExpr) (vs : List (Value k))
    (xs : List (Variable k)) (stmt : Stmt k)
    → call_stmt op vs ≡ ok stmt
    → vs ≢ []
    → fetch_all stack vs ≡ ok xs
    → Emits stack stmt (execute_function op xs)
call_emits stack (custom x) vs xs stmt h some_args f = cc
call_emits stack (built_in op) [] xs stmt h some_args f = absurd (some_args refl)
call_emits stack (built_in op) (v ∷ vs) xs stmt h some_args f =
    subst (λ s. Emits stack s (execute_function (built_in op) xs)) (ok-injective _ _ h)
      (fold_function-Emits stack op v vs xs f)

pub two_assoc :
    {A B C : Type 0} (r : Result VmError A) (s : Result VmError B) (f : A → B → Result VmError C)
    → ((r >>= λ a. s >>= λ b. ok (a, b)) >>= λ (q : A × B). f q.0 q.1)
      ≡ (r >>= λ a. s >>= λ b. f a b)
two_assoc (ok a) (ok b) f = refl
two_assoc (ok a) (err e) f = refl
two_assoc (err e) s f = refl
