-- ===== src/Vm/Correct/Constants.antt =====
-- A statement that is folded is made of constants.
use open_ark.Prelude.{
  suc, Bool, Option, none, some, List, [], ◌∷◌, length, ◌≡◌, inl, inr, Option-cases, not, and_then,
  refl, sym, ap, subst, ◌∙◌, Result, ok, ◌>>=◌, >>=-eq-ok, ok-injective,
}
use mathlib.Core.Option.{some-injective}
use open_ark.Vm.{
  VmError, Kernel, FunctionExpr, built_in, custom, UnaryExpr, neg, inv, BinaryExpr, Value, feature,
  number, variable, Stmt, Instruction, define_local_value, binary_stmt, BuiltIn,
}
use open_ark.Vm.Fold.{
  Kind, number_number, number_number?, number_feature, feature_feature, to_value, to_number,
  to_feature, fold_unary, fold_pair, fold_binary, fold_row, all_numbers, pick,
}
use open_ark.Vm.Compile.{call_stmt}
use open_ark.Vm.Correct.Emits.{some-ne-none}

abbrev pub IsConstant : {k : Kernel} → Value k → Type 0
IsConstant (feature b) = Unit
IsConstant (number n) = Unit
IsConstant (variable i) = ⊥

-- The value of the instructions is a constant that needs none, or what the last of them pushes.
abbrev pub IsFinal : {k : Kernel} → Value k → List (Instruction k) → Type 0
IsFinal (feature b) code = code ≡ []
IsFinal (number n) code = code ≡ []
IsFinal (variable i) code = length code ≡ suc i

abbrev pub AllConstant : {k : Kernel} → List (Value k) → Type 0
AllConstant [] = Unit
AllConstant (v ∷ vs) = IsConstant v × AllConstant vs

module _ {k : Kernel} where
  pub constant_start :
      (v : Value k) (code : List (Instruction k)) → IsFinal v code → IsConstant v → code ≡ []
  constant_start (feature b) code h c = h
  constant_start (number n) code h c = h
  constant_start (variable i) code h c = absurd c

  pub constant-IsFinal : (v : Value k) → IsConstant v → IsFinal v []
  constant-IsFinal (feature b) c = refl
  constant-IsFinal (number n) c = refl
  constant-IsFinal (variable i) c = absurd c

  -- A statement that is folded is made of constants.
  IsConstant-made :
      (made stmt : Stmt k) (c w : Value k)
      → made ≡ stmt
      → to_value made ≡ some c
      → IsConstant c
      → to_value stmt ≡ some w
      → IsConstant w
  IsConstant-made made stmt c w same e constant h =
      subst IsConstant (some-injective c w (sym e ∙ ap to_value same ∙ h)) constant

  kept_made :
      (made stmt : Stmt k) (w : Value k)
      → made ≡ stmt
      → to_value made ≡ none
      → to_value stmt ≡ some w
      → ⊥
  kept_made made stmt w same e h = some-ne-none w (sym h ∙ sym (ap to_value same) ∙ e)

  IsConstant-number : (v : Value k) (n : k.Number) → to_number v ≡ ok (some n) → IsConstant v
  IsConstant-number (feature b) n h = tt
  IsConstant-number (number m) n h = tt
  IsConstant-number (variable i) n h = some-ne-none n (sym (ok-injective none (some n) h))

  IsConstant-feature : (v : Value k) (b : Bool) → to_feature v ≡ ok (some b) → IsConstant v
  IsConstant-feature (feature c) b h = tt
  IsConstant-feature (number m) b h = tt
  IsConstant-feature (variable i) b h = some-ne-none b (sym (ok-injective none (some b) h))

  pub fold_unary-IsConstant :
      (op : UnaryExpr) (v w : Value k) (stmt : Stmt k)
      → fold_unary op v ≡ ok stmt
      → to_value stmt ≡ some w
      → IsConstant v × IsConstant w
  fold_unary-IsConstant neg (feature b) w stmt h e = absurd (cc)
  fold_unary-IsConstant neg (number n) w stmt h e =
      (tt, IsConstant-made _ stmt (number (k.number_neg n)) w (ok-injective _ stmt h) refl tt e)
  fold_unary-IsConstant neg (variable i) w stmt h e =
      absurd (kept_made _ stmt w (ok-injective _ stmt h) refl e)
  fold_unary-IsConstant inv (feature b) w stmt h e =
      (tt, IsConstant-made _ stmt (feature (not b)) w (ok-injective _ stmt h) refl tt e)
  fold_unary-IsConstant inv (number n) w stmt h e = absurd (cc)
  fold_unary-IsConstant inv (variable i) w stmt h e =
      absurd (kept_made _ stmt w (ok-injective _ stmt h) refl e)

  fold_pair-known :
      {A : Type 0} (f : A → A → Result VmError (Stmt k)) (kept stmt : Stmt k) (w : Value k)
      (a b : Option A)
      → fold_pair f kept a b ≡ ok stmt
      → to_value kept ≡ none
      → to_value stmt ≡ some w
      → (x : A) × (y : A) × (a ≡ some x) × (b ≡ some y) × (f x y ≡ ok stmt)
  fold_pair-known f kept stmt w (some x) (some y) h e known = (x, y, refl, refl, h)
  fold_pair-known f kept stmt w (some x) none h e known =
      absurd (kept_made kept stmt w (ok-injective kept stmt h) e known)
  fold_pair-known f kept stmt w none b h e known =
      absurd (kept_made kept stmt w (ok-injective kept stmt h) e known)

  pair-IsConstant :
      {A : Type 0} (to : Value k → Result VmError (Option A)) (f : A → A → Result VmError (Stmt k))
      (op : BinaryExpr) (u v w : Value k) (stmt : Stmt k)
      → ((t : Value k) (a : A) → to t ≡ ok (some a) → IsConstant t)
      → ((x y : A) → f x y ≡ ok stmt → IsConstant w)
      → (to u >>= λ a. to v >>= λ b. fold_pair f (binary_stmt op u v) a b) ≡ ok stmt
      → to_value stmt ≡ some w
      → IsConstant u × IsConstant v × IsConstant w
  pair-IsConstant to f op u v w stmt known made h e =
      let (a, h₁, h₂) = >>=-eq-ok (to u) _ stmt h in
      let (b, h₃, h₄) = >>=-eq-ok (to v) _ stmt h₂ in
      let (x, y, ax, by, fxy) = fold_pair-known f (binary_stmt op u v) stmt w a b h₄ refl e in
      (known u x (h₁ ∙ ap ok ax), known v y (h₃ ∙ ap ok by), made x y fxy)

  pub fold_binary-IsConstant :
      (kd : Kind k) (op : BinaryExpr) (u v w : Value k) (stmt : Stmt k)
      → fold_binary kd op u v ≡ ok stmt
      → to_value stmt ≡ some w
      → IsConstant u × IsConstant v × IsConstant w
  unfolding fold_binary
  fold_binary-IsConstant (number_number f) op u v w stmt h e =
      pair-IsConstant to_number _ op u v w stmt IsConstant-number
        (λ x y made. IsConstant-made _ stmt (number (f x y)) w (ok-injective _ stmt made) refl tt e)
        h e
  fold_binary-IsConstant (number_number? f) op u v w stmt h e =
      pair-IsConstant to_number _ op u v w stmt IsConstant-number
        (λ x y made.
          let (z, fz, made') = >>=-eq-ok (f x y) _ stmt made in
          IsConstant-made _ stmt (number z) w (ok-injective _ stmt made') refl tt e)
        h e
  fold_binary-IsConstant (number_feature f) op u v w stmt h e =
      pair-IsConstant to_number _ op u v w stmt IsConstant-number
        (λ x y made.
          IsConstant-made _ stmt (feature (f x y)) w (ok-injective _ stmt made) refl tt e)
        h e
  fold_binary-IsConstant (feature_feature f) op u v w stmt h e =
      pair-IsConstant to_feature _ op u v w stmt IsConstant-feature
        (λ x y made.
          IsConstant-made _ stmt (feature (f x y)) w (ok-injective _ stmt made) refl tt e)
        h e

  all_constant :
      (vs : List (Value k)) (ns : List (k.Number)) → all_numbers vs ≡ some ns → AllConstant vs
  all_constant [] ns h = tt
  all_constant (number n ∷ vs) ns h = elim (Option-cases (all_numbers vs)) [
    | inr (ms, e) ↦ (tt, all_constant vs ms e)
    | inl e ↦ absurd (some-ne-none ns (sym h ∙ ap (λ o. and_then o (λ ms. some (n ∷ ms))) e))
  ]
  all_constant (feature b ∷ vs) ns h = absurd (cc)
  all_constant (variable i ∷ vs) ns h = absurd (cc)

  picked-IsConstant :
      (o : Option (k.Number)) (w : Value k)
      → to_value {k = k} (define_local_value o) ≡ some w
      → IsConstant w
  picked-IsConstant (some n) w h = subst IsConstant (some-injective (number n) w h) tt
  picked-IsConstant none w h = absurd (cc)

  fold_row-IsConstant :
      (op : BuiltIn) (vs : List (Value k)) (o : Option (List (k.Number))) (w : Value k)
      → all_numbers vs ≡ o
      → to_value (fold_row op vs o) ≡ some w
      → AllConstant vs × IsConstant w
  fold_row-IsConstant op vs (some ns) w h e =
      (all_constant vs ns h, picked-IsConstant (pick k op ns) w e)
  fold_row-IsConstant op vs none w h e = absurd (cc)

  pub call_stmt-IsConstant :
      (op : FunctionExpr) (vs : List (Value k)) (w : Value k) (stmt : Stmt k)
      → call_stmt op vs ≡ ok stmt
      → to_value stmt ≡ some w
      → AllConstant vs × IsConstant w
  call_stmt-IsConstant (built_in op) vs w stmt h e =
      fold_row-IsConstant op vs (all_numbers vs) w refl (ap to_value (ok-injective _ stmt h) ∙ e)
  call_stmt-IsConstant (custom x) vs w stmt h e = absurd (cc)
