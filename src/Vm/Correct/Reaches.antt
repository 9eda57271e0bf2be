-- ===== src/Vm/Correct/Reaches.antt =====
-- The instruction of a statement, and the result that instructions reach.
use open_ark.Prelude.{
  ℕ, false, Option, Option-cases, none, some, List, [], ◌∷◌, ◌++◌, append_assoc, length,
  length-append, ◌≡◌, ◌≢◌, refl, sym, ap, subst, ◌∙◌, inl, inr, Result, ok, err, ◌>>=◌, eqb_iff,
  get_elem?, lt-length_of_get_elem?, if_rule, ltb, ◌<◌, ◌+◌, unwrap_or, nat_eq, arith,
}
use open_ark.Vm.{
  VmError, index_panic, Kernel, IsFrame, Value, feature, number, variable, Instruction,
}
use open_ark.Vm.Fold.{from_value, to_value}
use open_ark.Vm.Compile.{find_local}
use open_ark.Vm.Call.{
  Heap, Context, get_unchecked, stack_get, insert_heap, bind_name, fetch, stmt_value, step_vm,
  run_from,
}
use open_ark.Vm.Variables.{Variable, lazy_slice, a_feature, a_number}
use open_ark.Vm.Correct.Runs.{IsDefined, Agrees, context, Outcome, run_from-append, Keeps-append}
use open_ark.Vm.Correct.Emits.{push-Agrees, some-ne-none}
use open_ark.Vm.Correct.Defined.{
  ne-eqb, HoldsValues, get-insert_heap, get-insert_heap_other, variable-insert_heap,
  insert_heap-HoldsValues,
}
use open_ark.Vm.Correct.Parts.{Fetches}

not_below : (i pc : ℕ) → i < pc → ltb i pc ≢ false
not_below i pc h e = ground arith

module _ {k : Kernel} where
  to_value-from_value : (v : Value k) → to_value (from_value v) ≡ some v
  to_value-from_value (feature b) = refl
  to_value-from_value (number n) = refl
  to_value-from_value (variable i) = refl

  out_of_range :
      (i : ℕ) (val : Variable k) (o : Option (Variable k))
      → o ≡ none
      → (elim o [ some v ↦ ok v | none ↦ err index_panic ]) ≢ ok val
  out_of_range i val none e h = cc
  out_of_range i val (some v) e h = cc

  -- A value with a name is put into the heap.
  bind_name-insert :
      (heap : Heap k) (x : ℕ) (v : Variable k)
      → IsDefined v
      → bind_name heap x v ≡ (insert_heap heap x v >>= λ next. ok (next, v))
  bind_name-insert heap x (lazy_slice s) fine = refl
  bind_name-insert heap x (a_feature (some b)) fine = refl
  bind_name-insert heap x (a_feature none) fine = absurd fine
  bind_name-insert heap x (a_number (some n)) fine = refl
  bind_name-insert heap x (a_number none) fine = absurd fine

  get_below :
      (stack : List (Variable k)) (pc i : ℕ) (val : Variable k)
      → length stack ≡ pc
      → stack_get stack i ≡ ok val
      → i < pc
  get_below stack pc i val e h = elim (Option-cases (get_elem? stack i)) [
    | inr (x, found) ↦ omega (arith, lt-length_of_get_elem? stack i found)
    | inl missing ↦ absurd (out_of_range i val (get_elem? stack i) missing h)
  ]

  from_value_fetched :
      (stack : List (Variable k)) (pc : ℕ) (v : Value k) (val : Variable k)
      → length stack ≡ pc
      → fetch stack v ≡ ok val
      → stmt_value pc stack (from_value v) ≡ ok val
  unfolding stmt_value
  from_value_fetched stack pc (feature b) val e h = h
  from_value_fetched stack pc (number n) val e h = h
  from_value_fetched stack pc (variable i) val e h =
      if_rule (λ (r : Result VmError (Variable k)). r ≡ ok val) (ltb i pc) (λ _. h)
        (λ beyond. absurd (not_below i pc (get_below stack pc i val e h) beyond))

  -- The result of statements that start at a heap and a stack.
  abbrev pub Reaches :
      List (Instruction k)
      → List (Instruction k)
      → Heap k
      → List (Variable k)
      → Result VmError (Heap k)
      → Type 0
  Reaches code new heap stack (err e) = run_from (length code) new (context heap stack) ≡ err e
  Reaches code new heap stack (ok last) =
      (next : List (Variable k)) × (run_from (length code) new (context heap stack)
        ≡ ok (context last next))
      × Agrees last (code ++ new) next
      × HoldsValues last

  found_other :
      (x y : ℕ) (code : List (Instruction k)) (w : Value k)
      → find_local x 0 code ≡ none
      → find_local y 0 code ≡ some w
      → y ≢ x
  found_other x y code w e known same =
      some-ne-none w (sym known ∙ ap (λ n. find_local n 0 code) same ∙ e)

  named_tail :
      (stack : List (Variable k)) (val : Variable k) (r : Result VmError (Heap k))
      → (((r >>= λ next. ok (next, val)) >>= λ (q : Heap k × Variable k).
            ok (context q.0 (stack ++ q.1 ∷ [])))
          >>= λ n. ok n)
        ≡ (r >>= λ next. ok (context next (stack ++ val ∷ [])))
  named_tail stack val (ok next) = refl
  named_tail stack val (err z) = refl

  named_run :
      (heap : Heap k) (code : List (Instruction k)) (stack : List (Variable k)) (x : ℕ)
      (v : Value k) (val : Variable k)
      → length stack ≡ length code
      → fetch stack v ≡ ok val
      → IsDefined val
      → run_from
          (length code)
          (record { name = some x; stmt = from_value v } ∷ [])
          (context heap stack)
        ≡ (insert_heap heap x val >>= λ next. ok (context next (stack ++ val ∷ [])))
  unfolding run_from step_vm
  named_run heap code stack x v val e found fine =
      ap
        (λ (r : Result VmError (Variable k)).
          (r >>= λ w.
          bind_name heap x w >>= λ (q : Heap k × Variable k). ok (context q.0 (stack ++ q.1 ∷ [])))
          >>= λ n. ok n)
        (from_value_fetched stack (length code) v val e found)
      ∙ ap
          (λ (r : Result VmError (Heap k × Variable k)).
            (r >>= λ (q : Heap k × Variable k). ok (context q.0 (stack ++ q.1 ∷ []))) >>= λ n. ok n)
          (bind_name-insert heap x val fine)
      ∙ named_tail stack val (insert_heap heap x val)

  named_step :
      (frames : IsFrame k) (heap : Heap k) (code : List (Instruction k)) (stack : List (Variable k))
      (x : ℕ) (v : Value k) (val : Variable k)
      → Agrees heap code stack
      → HoldsValues heap
      → find_local x 0 code ≡ none
      → fetch stack v ≡ ok val
      → IsDefined val
      → (r : Result VmError (Heap k)) → insert_heap heap x val ≡ r
      → Reaches code (record { name = some x; stmt = from_value v } ∷ []) heap stack r
  named_step frames heap code stack x v val agrees holds e found fine (err z) h =
      named_run heap code stack x v val agrees.sizes found fine
      ∙ ap (λ (r : Result VmError (Heap k)). r >>= λ next. ok (context next (stack ++ val ∷ []))) h
  named_step frames heap code stack x v val agrees holds e found fine (ok last) h = (
    stack ++ val ∷ [],
    named_run heap code stack x v val agrees.sizes found fine
        ∙ ap (λ (r : Result VmError (Heap k)). r >>= λ next. ok (context next (stack ++ val ∷ [])))
            h,
    push-Agrees heap last code stack (record { name = some x; stmt = from_value v }) val agrees
        (λ y w u known held.
          get-insert_heap_other heap last x val h frames y (found_other x y code w e known) ∙ held)
        (λ y unknown other.
          variable-insert_heap heap last x val h y (λ e. ne-eqb x y other (sym e))
          ∙ agrees.unknown y unknown)
        (λ y unknown here. (
          val,
          subst (λ (u : Value k). fetch (stack ++ val ∷ []) u ≡ ok val)
              (ap (λ o. unwrap_or o (variable (length code))) (sym (to_value-from_value v)))
              (Keeps-append stack (val ∷ []) v val found),
          ap (get_unchecked last) (sym ((eqb_iff x y).0 here)) ∙ get-insert_heap heap last x val h,
        )),
    insert_heap-HoldsValues heap last x val h holds fine,
  )

  run_on :
      (code one two : List (Instruction k)) (heap middle : Heap k) (stack next : List (Variable k))
      → run_from (length code) one (context heap stack) ≡ ok (context middle next)
      → run_from (length code) (one ++ two) (context heap stack)
        ≡ run_from (length (code ++ one)) two (context middle next)
  run_on code one two heap middle stack next ran =
      run_from-append (length code) one two (context heap stack)
      ∙ ap
          (λ (r : Result VmError (Context k)). r >>= λ c. run_from (length code + length one) two c)
          ran
      ∙ ap (λ n. run_from n two (context middle next)) (sym (length-append code one))

  pub reach_after :
      (code one two : List (Instruction k)) (heap middle : Heap k) (stack next : List (Variable k))
      → run_from (length code) one (context heap stack) ≡ ok (context middle next)
      → (r : Result VmError (Heap k)) → Reaches (code ++ one) two middle next r
      → Reaches code (one ++ two) heap stack r
  reach_after code one two heap middle stack next ran (err z) h =
      run_on code one two heap middle stack next ran ∙ h
  reach_after code one two heap middle stack next ran (ok end) (last, ran', agrees, holds) = (
    last,
    run_on code one two heap middle stack next ran ∙ ran',
    subst (λ c. Agrees end c last) (append_assoc code one two) agrees,
    holds,
  )

  pub value-Reaches :
      (frames : IsFrame k) (heap : Heap k) (code new : List (Instruction k))
      (stack : List (Variable k)) (x : ℕ) (v : Value k)
      → HoldsValues heap
      → find_local x 0 (code ++ new) ≡ none
      → (r : Result VmError (Variable k)) → ((val : Variable k) → r ≡ ok val → IsDefined val)
      → Outcome heap (Fetches v) code new stack r
      → Reaches code
          (new ++ record { name = some x; stmt = from_value v } ∷ [])
          heap
          stack
          (r >>= λ w. insert_heap heap x w)
  value-Reaches frames heap code new stack x v holds e (err z) fine h =
      let ins : Instruction k = record { name = some x; stmt = from_value v } in
      run_from-append (length code) new (ins ∷ []) (context heap stack)
      ∙ ap
          (λ (r : Result VmError (Context k)).
            r >>= λ c. run_from (length code + length new) (ins ∷ []) c)
          h
  value-Reaches frames heap code new stack x v holds e (ok val) fine
        (next, ran, keeps, agrees, found) =
      reach_after code new _ heap heap stack next ran (insert_heap heap x val) (
        named_step frames heap (code ++ new) next x v val agrees holds e found (fine val refl)
          (insert_heap heap x val) refl)
