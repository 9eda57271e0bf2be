-- ===== src/Template/Typed/Tests.antt =====
-- The tests on values, by what they let through.
use open_ark.Prelude.{
  ℕ, ◌≤◌, Bool, true, false, Option, none, some, ◌≡◌, ◌≢◌, ◌⊎◌, inl, inr, refl, subst, eqb, ltb,
  eqb_iff, if◌then◌else◌, if_rule, nat_eq, Result, ok, err, ◌>>◌, arith,
}
use mathlib.Core.Option.{some-injective}
use open_ark.Template.{
  Ordering, less, equal, greater, Codec, StringKind, dynamic_string, static_string, range_string,
  InputError, too_long, stack_overflow, out_of_range, wrong_length,
}
use open_ark.Template.Checks.{
  is_ordered, assert_cmp, assert_bounds, assert_at_least, assert_length, assert_string,
}
use open_ark.Template.Typed.{IsBounded, HasLength}

>>-ok :
    (r s : Result InputError (Unit {0})) (u : Unit {0})
    → (r >> s) ≡ ok u
    → (r ≡ ok tt) × (s ≡ ok tt)
>>-ok (ok v) s u h = (refl, h)
>>-ok (err e) s u h = absurd (cc)

ordered_cases :
    (o : Option Ordering) (ordering : Ordering)
    → is_ordered o ordering ≡ true
    → (o ≡ some ordering) ⊎ (o ≡ some equal)
ordered_cases none ordering h = absurd (cc)
ordered_cases (some equal) ordering h = inr refl
ordered_cases (some less) less h = inl refl
ordered_cases (some less) equal h = absurd (cc)
ordered_cases (some less) greater h = absurd (cc)
ordered_cases (some greater) less h = absurd (cc)
ordered_cases (some greater) equal h = absurd (cc)
ordered_cases (some greater) greater h = inl refl

pub if_ok :
    (b : Bool) (e : InputError) (u : Unit {0}) → (if b then ok tt else err e) ≡ ok u → b ≡ true
if_ok true e u h = refl
if_ok false e u h = absurd (cc)

then_ok :
    (b : Bool) (r : Result InputError (Unit {0})) (e : InputError) (u : Unit {0})
    → (if b then r else err e) ≡ ok u
    → r ≡ ok u
then_ok true r e u h = h
then_ok false r e u h = absurd (cc)

else_ok :
    (b : Bool) (e : InputError) (u : Unit {0}) → (if b then err e else ok tt) ≡ ok u → b ≡ false
else_ok true e u h = absurd (cc)
else_ok false e u h = refl

assert_cmp-ok :
    {T : Type 0} (cmp : T → T → Option Ordering) (x : T) (o : Option T) (ordering : Ordering)
    (u : Unit {0})
    → assert_cmp cmp x o ordering ≡ ok u
    → (bound : T) → o ≡ some bound
    → (cmp x bound ≡ some ordering) ⊎ (cmp x bound ≡ some equal)
assert_cmp-ok cmp x none ordering u h bound e = absurd (cc)
assert_cmp-ok cmp x (some b) ordering u h bound e =
    subst (λ c. (cmp x c ≡ some ordering) ⊎ (cmp x c ≡ some equal)) (some-injective b bound e)
      (ordered_cases (cmp x b) ordering (if_ok (is_ordered (cmp x b) ordering) _ u h))

pub assert_bounds-IsBounded :
    {T : Type 0} (cmp : T → T → Option Ordering) (x : T) (minimum maximum : Option T) (u : Unit {0})
    → assert_bounds cmp x minimum maximum ≡ ok u
    → IsBounded cmp x minimum maximum
assert_bounds-IsBounded cmp x minimum maximum u h =
    let (low, high) =
      >>-ok (assert_cmp cmp x minimum greater) (assert_cmp cmp x maximum less) u h in
    (assert_cmp-ok cmp x minimum greater tt low, assert_cmp-ok cmp x maximum less tt high)

assert_length-HasLength :
    (len : ℕ) (kind : StringKind) (u : Unit {0})
    → assert_length len kind ≡ ok u
    → HasLength len kind
assert_length-HasLength len dynamic_string u h = tt
assert_length-HasLength len (static_string n) u h = (eqb_iff len n).0 (if_ok (eqb len n) _ u h)
assert_length-HasLength len (range_string none maximum) u h =
    let below = else_ok (ltb maximum len) _ u h in (λ least e. absurd (cc), ground arith)
assert_length-HasLength len (range_string (some low) maximum) u h =
    let (first, second) = >>-ok (assert_at_least len (some low)) _ u h in
    let above = else_ok (ltb len low) _ tt first in
    let below = else_ok (ltb maximum len) _ tt second in
    (λ least e. subst (λ n. n ≤ len) (some-injective low least e) (ground arith), ground arith)

pub assert_string-HasLength :
    (k : Codec) (t : ℕ) (kind : StringKind) (u : Unit {0})
    → assert_string k t kind ≡ ok u
    → HasLength (k.text_len t) kind
assert_string-HasLength k t kind u h =
    assert_length-HasLength (k.text_len t) kind u
      (then_ok (ltb (k.text_len t) 4294967296) (assert_length (k.text_len t) kind) too_long u h)

-- The tests fail, but never for want of a stack.
abbrev pub IsFine : Result InputError (Unit {0}) → Type 0
IsFine (ok u) = Unit
IsFine (err e) = e ≢ stack_overflow

pub if-IsFine :
    (b : Bool) (e : InputError) → e ≢ stack_overflow → IsFine (if b then ok tt else err e)
if-IsFine true e h = tt
if-IsFine false e h = h

pub >>-IsFine : (r s : Result InputError (Unit {0})) → IsFine r → IsFine s → IsFine (r >> s)
>>-IsFine (ok u) s h h' = h'
>>-IsFine (err e) s h h' = h

pub assert_cmp-IsFine :
    {T : Type 0} (cmp : T → T → Option Ordering) (x : T) (o : Option T) (ordering : Ordering)
    → IsFine (assert_cmp cmp x o ordering)
assert_cmp-IsFine cmp x none ordering = tt
assert_cmp-IsFine cmp x (some bound) ordering =
    if-IsFine (is_ordered (cmp x bound) ordering) out_of_range (λ e. cc)

assert_length-IsFine : (len : ℕ) (kind : StringKind) → IsFine (assert_length len kind)
assert_length-IsFine len dynamic_string = tt
assert_length-IsFine len (static_string n) = if-IsFine (eqb len n) wrong_length (λ e. cc)
assert_length-IsFine len (range_string minimum maximum) =
    >>-IsFine (assert_at_least len minimum) _ (at_least minimum)
      (if_rule IsFine (ltb maximum len) (λ _. λ e. cc) (λ _. tt))
  where
    at_least : (o : Option ℕ) → IsFine (assert_at_least len o)
    at_least none = tt
    at_least (some low) = if_rule IsFine (ltb len low) (λ _. λ e. cc) (λ _. tt)

pub assert_string-IsFine : (k : Codec) (t : ℕ) (kind : StringKind) → IsFine (assert_string k t kind)
assert_string-IsFine k t kind =
    if_rule IsFine (ltb (k.text_len t) 4294967296) (λ _. assert_length-IsFine (k.text_len t) kind)
      (λ _. λ e. cc)
