-- ===== src/Vm/Correct/Emits.antt =====
-- The one instruction that the compiler adds at a time.
use open_ark.Prelude.{
  ℕ, ◌+◌, true, false, Option, Option-cases, none, some, List, [], ◌∷◌, ◌++◌, append-nil, length,
  length-append, get_elem?-append_here, ◌≡◌, refl, sym, ap, subst, ◌∙◌, if◌then◌else◌, unwrap_or,
  Result, ok, err, ◌>>=◌, arith, Bool-cases, inl, inr, ◌≢◌,
}
use mathlib.Core.Option.{some-injective}
use open_ark.Vm.{VmError, Kernel, Value, variable, Stmt, Instruction}
use open_ark.Vm.Fold.{to_value}
use open_ark.Vm.Compile.{find_local, is_named, register_on}
use open_ark.Vm.Call.{
  Heap, get_variable, get_unchecked, stack_get, fetch, stmt_value, step_vm, run_from,
}
use open_ark.Vm.Variables.{Variable}
use open_ark.Vm.Correct.Runs.{
  Agrees, context, Outcome, Keeps-append, outcome_here, find_local-old, find_local-new,
}

pub some-ne-none : {A : Type 0} (a : A) → some a ≢ none
some-ne-none a h = cc

module _ {k : Kernel} where
  find_local-here :
      (x : ℕ) (code : List (Instruction k)) (ins : Instruction k)
      → find_local x 0 code ≡ none
      → is_named x ins.name ≡ true
      → find_local x 0 (code ++ ins ∷ [])
        ≡ some (unwrap_or (to_value ins.stmt) (variable (length code)))
  find_local-here x code ins e here =
      find_local-new x 0 code ins e
      ∙ ap
          (λ b.
            if b then some (unwrap_or (to_value ins.stmt) (variable (0 + length code))) else none)
          here
      ∙ ap (λ n. some (unwrap_or (to_value ins.stmt) (variable n))) (omega arith)

  pub find_local-other :
      (x : ℕ) (code : List (Instruction k)) (ins : Instruction k)
      → find_local x 0 code ≡ none
      → is_named x ins.name ≡ false
      → find_local x 0 (code ++ ins ∷ []) ≡ none
  find_local-other x code ins e other =
      find_local-new x 0 code ins e
      ∙ ap
          (λ b.
            if b then some (unwrap_or (to_value ins.stmt) (variable (0 + length code))) else none)
          other

  pub fetch-last :
      (stack : List (Variable k)) (n : ℕ) (val : Variable k)
      → length stack ≡ n
      → fetch (stack ++ val ∷ []) (variable n) ≡ ok val
  fetch-last stack n val e =
      subst (λ m. stack_get (stack ++ val ∷ []) m ≡ ok val) e
        (rw (get_elem?-append_here stack [] val, stack_get) refl)

  -- A value is pushed for an instruction, over a heap that keeps what the compiler knows.
  module _ (heap heap' : Heap k) (code : List (Instruction k)) (stack : List (Variable k))
      (ins : Instruction k) (val : Variable k) (agrees : Agrees heap code stack)
      (same : (y : ℕ) (v : Value k) (w : Variable k)
        → find_local y 0 code ≡ some v
        → get_unchecked heap y ≡ ok w
        → get_unchecked heap' y ≡ ok w)
      (fresh : (y : ℕ)
        → find_local y 0 code ≡ none
        → is_named y ins.name ≡ false
        → get_variable y heap'.variables ≡ none)
      (new : (y : ℕ)
        → find_local y 0 code ≡ none
        → is_named y ins.name ≡ true
        → (w : Variable k) × (fetch
              (stack ++ val ∷ [])
              (unwrap_or (to_value ins.stmt) (variable (length code)))
            ≡ ok w)
          × (get_unchecked heap' y ≡ ok w)) where
    known_push :
        (y : ℕ) (v : Value k)
        → find_local y 0 (code ++ ins ∷ []) ≡ some v
        → (w : Variable k) × (fetch (stack ++ val ∷ []) v ≡ ok w) × (get_unchecked heap' y ≡ ok w)
    known_push y v h = elim (Option-cases (find_local y 0 code)) [
      | inr (u, e) ↦
          let uv = some-injective u v (sym (find_local-old y 0 code ins u e) ∙ h) in
          let (w, found, held) = agrees.known y u e in
          (
            w,
            Keeps-append stack (val ∷ []) v w (subst (λ t. fetch stack t ≡ ok w) uv found),
            same y u w e held,
          )
      | inl e ↦ elim (Bool-cases (is_named y ins.name)) [
        | inl here ↦
            let (w, found, held) = new y e here in
            (
              w,
              subst (λ t. fetch (stack ++ val ∷ []) t ≡ ok w)
                  (some-injective _ v (sym (find_local-here y code ins e here) ∙ h)) found,
              held,
            )
        | inr other ↦ absurd (some-ne-none v (sym h ∙ find_local-other y code ins e other))
      ]
    ]

    pub push-Agrees : Agrees heap' (code ++ ins ∷ []) (stack ++ val ∷ [])
    push-Agrees = record {
      sizes =
          omega
            (arith, length-append stack (val ∷ []), length-append code (ins ∷ []), agrees.sizes);
      known = known_push;
      unknown = λ y h. elim (Option-cases (find_local y 0 code)) [
        | inr (u, e) ↦ absurd (some-ne-none u (sym (find_local-old y 0 code ins u e) ∙ h))
        | inl e ↦ elim (Bool-cases (is_named y ins.name)) [
          | inl here ↦ absurd (some-ne-none _ (sym (find_local-here y code ins e here) ∙ h))
          | inr other ↦ fresh y e other
        ]
      ];
    }

  -- What is known of a statement at a stack: it is a value, or its instruction computes the result.
  pub data Emits (stack : List (Variable k)) (stmt : Stmt k) (r : Result VmError (Variable k))
      : Type 0 where
    folded :
        (v : Value k) (val : Variable k)
        → to_value stmt ≡ some v
        → fetch stack v ≡ ok val
        → r ≡ ok val
        → Emits stack stmt r
    kept : to_value stmt ≡ none → ((pc : ℕ) → stmt_value pc stack stmt ≡ r) → Emits stack stmt r

  abbrev pub emitted_on : Option (Value k) → Stmt k → List (Instruction k)
  emitted_on (some v) stmt = []
  emitted_on none stmt = record { name = none; stmt = stmt } ∷ []

  pub register-emitted :
      (stmt : Stmt k) (code : List (Instruction k)) (o : Option (Value k))
      → (register_on o stmt code).1 ≡ code ++ emitted_on o stmt
  register-emitted stmt code none = refl
  register-emitted stmt code (some v) = sym (append-nil code)

  -- An instruction without a name pushes its result.
  pub outcome_unnamed :
      (heap : Heap k) (code : List (Instruction k)) (stack : List (Variable k)) (stmt : Stmt k)
      → Agrees heap code stack
      → (r : Result VmError (Variable k)) → stmt_value (length code) stack stmt ≡ r
      → Outcome heap
          (λ s val. fetch s (variable (length code)) ≡ ok val)
          code
          (record { name = none; stmt = stmt } ∷ [])
          stack
          r
  unfolding run_from step_vm
  outcome_unnamed heap code stack stmt agrees (err e) h =
      ap
        (λ (r : Result VmError (Variable k)).
          (r >>= λ v. ok (context heap (stack ++ v ∷ []))) >>= λ n. ok n)
        h
  outcome_unnamed heap code stack stmt agrees (ok val) h = (
    stack ++ val ∷ [],
    ap
        (λ (r : Result VmError (Variable k)).
          (r >>= λ v. ok (context heap (stack ++ v ∷ []))) >>= λ n. ok n)
        h,
    Keeps-append stack (val ∷ []),
    push-Agrees heap heap code stack (record { name = none; stmt = stmt }) val agrees
        (λ y v w found held. held) (λ y e other. agrees.unknown y e) (λ y e here. absurd (cc)),
    fetch-last stack (length code) val agrees.sizes,
  )

  pub outcome_register :
      (heap : Heap k) (code : List (Instruction k)) (stack : List (Variable k)) (stmt : Stmt k)
      → Agrees heap code stack
      → (r : Result VmError (Variable k)) → Emits stack stmt r
      → (o : Option (Value k)) → to_value stmt ≡ o
      → Outcome heap
          (λ s val. fetch s (register_on o stmt code).0 ≡ ok val)
          code
          (emitted_on o stmt)
          stack
          r
  outcome_register heap code stack stmt agrees r (kept e runs) none e' =
      outcome_unnamed heap code stack stmt agrees r (runs (length code))
  outcome_register heap code stack stmt agrees r (kept e runs) (some v) e' = absurd (cc)
  outcome_register heap code stack stmt agrees r (folded v val e found made) none e' = absurd (cc)
  outcome_register heap code stack stmt agrees r (folded v val e found made) (some w) e' =
      subst (λ q. Outcome heap (λ s x. fetch s w ≡ ok x) code [] stack q) (sym made)
        (outcome_here heap (λ s x. fetch s w ≡ ok x) code stack val agrees
          (subst (λ u. fetch stack u ≡ ok val) (some-injective v w (sym e ∙ e')) found))
