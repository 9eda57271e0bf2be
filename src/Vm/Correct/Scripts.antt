-- ===== src/Vm/Correct/Scripts.antt =====
-- A script that is compiled and run does what it means.
use open_ark.Prelude.{
  ℕ, Bool, false, none, some, List, [], ◌∷◌, ◌++◌, append_assoc, append-nil, length, ◌≡◌, refl, sym,
  ap, subst, ◌∙◌, Result, ok, err, ◌>>=◌, >>=-eq-ok, ok-injective, ◌+◌, contains, nat_eq, All,
}
use open_ark.Vm.{VmError, Kernel, IsFrame, Assign, Instruction}
use open_ark.Vm.Fold.{from_value}
use open_ark.Vm.Compile.{find_local, execute_expr, execute_stmt, execute_script}
use open_ark.Vm.Call.{Heap, Context, get_variable, run_from, call}
use open_ark.Vm.Variables.{Variable}
use open_ark.Vm.Meaning.{eval, assign, interpret, names, HasArguments, IsSetOnce}
use open_ark.Vm.Correct.Runs.{Agrees, context, run_from-append}
use open_ark.Vm.Correct.Emits.{find_local-other}
use open_ark.Vm.Correct.Defined.{HoldsValues, eval-IsDefined}
use open_ark.Vm.Correct.Names.{
  KnowsOnly, absent_left, absent_right, absent_first, absent_tail, execute_expr-unknown,
}
use open_ark.Vm.Correct.Exprs.{execute_expr-Computes}
use open_ark.Vm.Correct.Reaches.{Reaches, reach_after, value-Reaches}

module _ {k : Kernel} where
  -- What is made of code that knows only some names.
  abbrev Performs :
      List (Instruction k)
      → List (Instruction k)
      → List ℕ
      → (Heap k → Result VmError (Heap k))
      → Type 0
  Performs code code' seen meaning =
      (new : List (Instruction k)) × (code' ≡ code ++ new)
      × KnowsOnly seen code'
      × ((heap : Heap k) (stack : List (Variable k))
          → Agrees heap code stack
          → HoldsValues heap
          → Reaches code new heap stack (meaning heap))

  stmt-Performs :
      (frames : IsFrame k) (p : Bool) (stmt : Assign k) (code code' : List (Instruction k))
      (seen : List ℕ)
      → execute_stmt p stmt code ≡ ok code'
      → HasArguments stmt.rhs
      → contains (names stmt.rhs ++ seen) stmt.lhs ≡ false
      → KnowsOnly seen code
      → Performs code code' (stmt.lhs ∷ names stmt.rhs ++ seen) (λ heap. assign heap stmt)
  unfolding execute_stmt assign
  stmt-Performs frames p stmt code code' seen h args fresh knows =
      let ((v, code₁), h₁, h₂) = >>=-eq-ok (execute_expr p stmt.rhs code) _ code' h in
      let (new, e, runs) = execute_expr-Computes p stmt.rhs code code₁ v h₁ args in
      let ins : Instruction k = record { name = some stmt.lhs; stmt = from_value v } in
      let made : code₁ ++ ins ∷ [] ≡ code' = ok-injective (code₁ ++ ins ∷ []) code' h₂ in
      (
        new ++ ins ∷ [],
        sym made ∙ ap (λ c. c ++ ins ∷ []) e ∙ append_assoc code new (ins ∷ []),
        λ x absent.
            subst (λ c. find_local x 0 c ≡ none) made
              (find_local-other x code₁ ins
                (execute_expr-unknown p stmt.rhs code code₁ v x h₁
                  (absent_left (names stmt.rhs) seen x (absent_tail stmt.lhs _ x absent))
                  (knows x
                    (absent_right (names stmt.rhs) seen x (absent_tail stmt.lhs _ x absent))))
                (absent_first stmt.lhs _ x absent)),
        λ heap stack agrees holds.
            value-Reaches frames heap code new stack stmt.lhs v holds
              (subst (λ c. find_local stmt.lhs 0 c ≡ none) e
                (execute_expr-unknown p stmt.rhs code code₁ v stmt.lhs h₁
                  (absent_left (names stmt.rhs) seen stmt.lhs fresh)
                  (knows stmt.lhs (absent_right (names stmt.rhs) seen stmt.lhs fresh))))
              (eval heap stmt.rhs) (λ val. eval-IsDefined heap stmt.rhs val holds)
              (runs heap stack agrees),
      )

  reach_bind :
      (code one two : List (Instruction k)) (heap : Heap k) (stack : List (Variable k))
      (r : Result VmError (Heap k)) (f : Heap k → Result VmError (Heap k))
      → Reaches code one heap stack r
      → ((middle : Heap k) (next : List (Variable k))
          → Agrees middle (code ++ one) next
          → HoldsValues middle
          → Reaches (code ++ one) two middle next (f middle))
      → Reaches code (one ++ two) heap stack (r >>= f)
  reach_bind code one two heap stack (err z) f h rest =
      run_from-append (length code) one two (context heap stack)
      ∙ ap
          (λ (r : Result VmError (Context k)). r >>= λ c. run_from (length code + length one) two c)
          h
  reach_bind code one two heap stack (ok middle) f (next, ran, agrees, holds) rest =
      reach_after code one two heap middle stack next ran (f middle) (rest middle next agrees holds)

  script-Reaches :
      (frames : IsFrame k) (p : Bool) (stmts : List (Assign k)) (code code' : List (Instruction k))
      (seen : List ℕ)
      → execute_script p stmts code ≡ ok code'
      → All (λ (s : Assign k). HasArguments s.rhs) stmts
      → IsSetOnce seen stmts
      → KnowsOnly seen code
      → (new : List (Instruction k)) × (code' ≡ code ++ new)
        × ((heap : Heap k) (stack : List (Variable k))
            → Agrees heap code stack
            → HoldsValues heap
            → Reaches code new heap stack (interpret stmts heap))
  unfolding execute_script interpret run_from
  script-Reaches frames p [] code code' seen h args once knows = (
    [],
    sym (ok-injective code code' h) ∙ sym (append-nil code),
    λ heap stack agrees holds.
        (stack, refl, subst (λ c. Agrees heap c stack) (sym (append-nil code)) agrees, holds),
  )
  script-Reaches frames p (stmt ∷ stmts) code code' seen h args once knows =
      let (code₁, h₁, h₂) = >>=-eq-ok (execute_stmt p stmt code) _ code' h in
      let (one, e, knows', first) =
        stmt-Performs frames p stmt code code₁ seen h₁ args.0 once.0 knows in
      let (two, e', rest) =
        script-Reaches frames p stmts code₁ code' (stmt.lhs ∷ names stmt.rhs ++ seen) h₂ args.1
          once.1 knows' in
      (
        one ++ two,
        e' ∙ ap (λ c. c ++ two) e ∙ append_assoc code one two,
        λ heap stack agrees holds.
            reach_bind code one two heap stack (assign heap stmt) (interpret stmts)
              (first heap stack agrees holds)
              (λ middle next agrees' holds'.
                subst (λ c. Reaches c two middle next (interpret stmts middle)) e
                  (rest middle next (subst (λ c. Agrees middle c next) (sym e) agrees') holds')),
      )

  abbrev pub start : k.Frame → Heap k
  start edges = record { edges = edges; variables = [] }

  pub start-Agrees : (edges : k.Frame) → Agrees (start edges) [] []
  unfolding find_local get_variable
  start-Agrees edges = record { sizes = refl; known = λ x v h. absurd (cc); unknown = λ x h. refl }

  start-KnowsOnly : KnowsOnly {k = k} [] []
  unfolding find_local
  start-KnowsOnly x absent = refl

  start-HoldsValues : (edges : k.Frame) → HoldsValues (start edges)
  unfolding get_variable
  start-HoldsValues edges x v h = absurd (cc)

  reached :
      (code : List (Instruction k)) (heap : Heap k) (r : Result VmError (Heap k))
      → Reaches [] code heap [] r
      → (run_from 0 code (context heap []) >>= λ ctx. ok ctx.heap) ≡ r
  reached code heap (err z) h = ap (λ (r : Result VmError (Context k)). r >>= λ ctx. ok ctx.heap) h
  reached code heap (ok last) (next, ran, agrees, holds) =
      ap (λ (r : Result VmError (Context k)). r >>= λ ctx. ok ctx.heap) ran

-- Running the instructions of a compiled script leaves the heap that the script means, or stops with
-- the error that its meaning has: if every name is set once, before it is mentioned, every call has an
-- argument, and a column that is written leaves the others as they are.
pub call-execute_script :
    (k : Kernel) (frames : IsFrame k) (placeholders : Bool) (script : List (Assign k))
    (code : List (Instruction k)) (edges : k.Frame)
    → execute_script placeholders script [] ≡ ok code
    → All (λ (s : Assign k). HasArguments s.rhs) script
    → IsSetOnce [] script
    → (call code edges none >>= λ ctx. ok ctx.heap) ≡ interpret script (start edges)
unfolding call
call-execute_script k frames placeholders script code edges h args once =
    let (new, e, runs) =
      script-Reaches frames placeholders script [] code [] h args once start-KnowsOnly in
    subst
      (λ c.
        (run_from 0 c (context (start edges) []) >>= λ ctx. ok ctx.heap)
        ≡ interpret script (start edges))
      (sym e)
      (reached new (start edges) (interpret script (start edges))
        (runs (start edges) [] (start-Agrees edges) (start-HoldsValues edges)))
