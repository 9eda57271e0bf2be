-- ===== src/Vm/Correct/Runs.antt =====
-- When instructions compute a result from a stack that holds what the compiler believes.
use open_ark.Prelude.{
  ℕ, suc, ◌+◌, Option, none, some, List, [], ◌∷◌, ◌++◌, append-nil, append_assoc, length,
  length-append, get_elem?, get_elem?-append_left, bind_congr, bind_assoc, ◌≡◌, refl, sym, ap,
  subst, ◌∙◌, if◌then◌else◌, unwrap_or, Result, ok, err, ◌>>=◌, arith,
}
use open_ark.Vm.{VmError, index_panic, Kernel, Value, feature, number, variable, Instruction}
use open_ark.Vm.Fold.{to_value}
use open_ark.Vm.Compile.{find_local, is_named}
use open_ark.Vm.Call.{
  Heap, Context, get_variable, get_unchecked, stack_get, fetch, step_vm, run_from,
}
use open_ark.Vm.Variables.{Variable, lazy_slice, a_feature, a_number}

-- A value that a name may have.
abbrev pub IsDefined : {k : Kernel} → Variable k → Type 0
IsDefined (lazy_slice s) = Unit
IsDefined (a_feature (some b)) = Unit
IsDefined (a_feature none) = ⊥
IsDefined (a_number (some n)) = Unit
IsDefined (a_number none) = ⊥

-- The compiler's view of a stack: every name that it finds has there the value of the heap, and a
-- name that it does not find has not been set.
pub record Agrees {k : Kernel} (heap : Heap k) (code : List (Instruction k))
    (stack : List (Variable k)) : Type 0 where
  pub sizes : length stack ≡ length code
  pub known :
      (x : ℕ) (v : Value k)
      → find_local x 0 code ≡ some v
      → (val : Variable k) × (fetch stack v ≡ ok val) × (get_unchecked heap x ≡ ok val)
  pub unknown : (x : ℕ) → find_local x 0 code ≡ none → get_variable x heap.variables ≡ none

abbrev pub context : {k : Kernel} → Heap k → List (Variable k) → Context k
context heap stack = record { heap = heap; stack = stack }

-- What is fetched from a stack is fetched from the other.
abbrev pub Keeps : {k : Kernel} → List (Variable k) → List (Variable k) → Type 0
Keeps {k} stack next =
    (v : Value k) (val : Variable k) → fetch stack v ≡ ok val → fetch next v ≡ ok val

module _ {k : Kernel} {A : Type 0} (heap : Heap k) (Q : List (Variable k) → A → Type 0) where
  -- The instructions stop with the error of the result, or leave a stack at which its value is found.
  abbrev pub Outcome :
      List (Instruction k) → List (Instruction k) → List (Variable k) → Result VmError A → Type 0
  Outcome code new stack (err e) = run_from (length code) new (context heap stack) ≡ err e
  Outcome code new stack (ok a) =
      (next : List (Variable k)) × (run_from (length code) new (context heap stack)
        ≡ ok (context heap next))
      × Keeps stack next
      × Agrees heap (code ++ new) next
      × Q next a

module _ {k : Kernel} where
  pub run_from-append :
      (pc : ℕ) (code more : List (Instruction k)) (ctx : Context k)
      → run_from pc (code ++ more) ctx
        ≡ (run_from pc code ctx >>= λ next. run_from (pc + length code) more next)
  unfolding run_from
  run_from-append pc [] more ctx = ap (λ n. run_from n more ctx) (omega arith)
  run_from-append pc (ins ∷ code) more ctx =
      bind_congr (step_vm pc ins ctx) _ _ (λ next _.
        run_from-append (suc pc) code more next
        ∙ bind_congr (run_from (suc pc) code next) _ _
            (λ last _. ap (λ n. run_from n more last) (omega arith)))
      ∙ sym (bind_assoc (step_vm pc ins ctx) _ _)

  get-append :
      (stack more : List (Variable k)) (i : ℕ) (o : Option (Variable k)) (val : Variable k)
      → get_elem? stack i ≡ o
      → (elim o [ some v ↦ ok v | none ↦ err index_panic ]) ≡ ok val
      → stack_get (stack ++ more) i ≡ ok val
  get-append stack more i none val e h = cc
  get-append stack more i (some v) val e h =
      rw (get_elem?-append_left stack more i v e, stack_get) h

  pub Keeps-append : (stack more : List (Variable k)) → Keeps stack (stack ++ more)
  Keeps-append stack more (feature b) val h = h
  Keeps-append stack more (number n) val h = h
  Keeps-append stack more (variable i) val h =
      get-append stack more i (get_elem? stack i) val refl h

  outcome_after :
      {B : Type 0} (heap : Heap k) (S : List (Variable k) → B → Type 0)
      (code one two : List (Instruction k)) (stack next : List (Variable k))
      → run_from (length code) one (context heap stack) ≡ ok (context heap next)
      → Keeps stack next
      → (b : Result VmError B) → Outcome heap S (code ++ one) two next b
      → Outcome heap S code (one ++ two) stack b
  outcome_after heap S code one two stack next ran keeps (err e) h =
      run_from-append (length code) one two (context heap stack)
      ∙ ap (λ r. r >>= λ ctx. run_from (length code + length one) two ctx) ran
      ∙ ap (λ n. run_from n two (context heap next)) (sym (length-append code one))
      ∙ h
  outcome_after heap S code one two stack next ran keeps (ok b)
        (last, ran', keeps', agrees, found) =
      (
        last,
        run_from-append (length code) one two (context heap stack)
            ∙ ap (λ r. r >>= λ ctx. run_from (length code + length one) two ctx) ran
            ∙ ap (λ n. run_from n two (context heap next)) (sym (length-append code one))
            ∙ ran',
        λ v val h. keeps' v val (keeps v val h),
        subst (λ c. Agrees heap c last) (append_assoc code one two) agrees,
        found,
      )

  -- Instructions for a result, and instructions for what is made of its value.
  pub outcome_bind :
      {A B : Type 0} (heap : Heap k) (Q : List (Variable k) → A → Type 0)
      (S : List (Variable k) → B → Type 0) (code one two : List (Instruction k))
      (stack : List (Variable k)) (r : Result VmError A) (f : A → Result VmError B)
      → Outcome heap Q code one stack r
      → ((a : A) (next : List (Variable k))
          → Keeps stack next
          → Agrees heap (code ++ one) next
          → Q next a
          → Outcome heap S (code ++ one) two next (f a))
      → Outcome heap S code (one ++ two) stack (r >>= f)
  outcome_bind heap Q S code one two stack (err e) f h rest =
      run_from-append (length code) one two (context heap stack)
      ∙ ap (λ r. r >>= λ ctx. run_from (length code + length one) two ctx) h
  outcome_bind heap Q S code one two stack (ok a) f (next, ran, keeps, agrees, found) rest =
      outcome_after heap S code one two stack next ran keeps (f a) (rest a next keeps agrees found)

  -- A result that is at hand needs no instruction.
  pub outcome_here :
      {A : Type 0} (heap : Heap k) (Q : List (Variable k) → A → Type 0)
      (code : List (Instruction k)) (stack : List (Variable k)) (a : A)
      → Agrees heap code stack
      → Q stack a
      → Outcome heap Q code [] stack (ok a)
  unfolding run_from
  outcome_here heap Q code stack a agrees found = (
    stack,
    refl,
    λ v val h. h,
    subst (λ c. Agrees heap c stack) (sym (append-nil code)) agrees,
    found,
  )

  pub find_local-old :
      (x i : ℕ) (code : List (Instruction k)) (ins : Instruction k) (v : Value k)
      → find_local x i code ≡ some v
      → find_local x i (code ++ ins ∷ []) ≡ some v
  unfolding find_local
  find_local-old x i [] ins v h = cc
  find_local-old x i (c ∷ code) ins v h = ground (arith, find_local-old x (suc i) code ins v)

  pub find_local-new :
      (x i : ℕ) (code : List (Instruction k)) (ins : Instruction k)
      → find_local x i code ≡ none
      → find_local x i (code ++ ins ∷ []) ≡ (
          if is_named x ins.name
          then some (unwrap_or (to_value ins.stmt) (variable (i + length code)))
          else none)
  unfolding find_local
  find_local-new x i [] ins h =
      ap
        (λ n.
          if is_named x ins.name then some (unwrap_or (to_value ins.stmt) (variable n)) else none)
        (omega arith)
  find_local-new x i (c ∷ code) ins h = ground (arith, find_local-new x (suc i) code ins)
