-- ===== src/Market/Solver/Account.antt =====
-- What the solver returns: fair transactions, that sell and buy no more than the items hold.
use mathlib.Core.List.{Memᴰ}
use mathlib.Core.Option.{some-injective}
use open_ark.Prelude.{
  ℕ, ◌≡◌, refl, sym, subst, ap, inl, inr, some, List, [], ◌∷◌, ◌++◌, All, All-imp, if_rule,
  if◌then◌else◌, eqb, Bool-cases, Option-cases, arith,
}
use open_ark.Prelude.Int.{
  ℤ, pos, pos_part, neg_part, eqb_ℤ, ◌+ℤ◌, +ℤ_comm, ◌≤ℤ◌, IsI64, +ℤ_parts, eq_of_parts, int_laws,
}
use open_ark.Market.{Direction, pub_side, sub_side, PriceItem, TransactionTemplate}
use open_ark.Sort.{total, total-sort}
use open_ark.Market.Solver.{
  Book, withdraw, template, active_pubs, active_subs, open_book, last_book, solve,
}
use open_ark.Market.Solver.Round.{
  Trades, match_rule, IsFair, IsRemnant, IsSound, Trades-IsSound, open_book-IsSound, withdraw_exact,
  traded_count_bounds,
}

-- The count that the items of one id hold.
abbrev pub held : ℕ → PriceItem → ℤ
held id item = if eqb item.id id then item.count else pos 0

-- The count that a transaction takes from the pub, or the sub, of one id.
abbrev pub sold : ℕ → TransactionTemplate → ℤ
sold id t = if eqb t.pub_id id then t.count else pos 0

abbrev pub bought : ℕ → TransactionTemplate → ℤ
bought id t = if eqb t.sub_id id then t.count else pos 0

total-append :
    {A : Type 0} (f : A → ℤ) (xs : List A) (y : A) → total f (xs ++ y ∷ []) ≡ total f xs +ℤ f y
total-append f [] y = omega int_laws
total-append f (x ∷ xs) y = rw (total-append f xs y) (omega int_laws)

total_nonneg :
    {A : Type 0} (f : A → ℤ) (xs : List A) → All (λ x. pos 0 ≤ℤ f x) xs → pos 0 ≤ℤ total f xs
total_nonneg f [] h = omega arith
total_nonneg f (x ∷ xs) h = omega (arith, +ℤ_parts (f x) (total f xs), total_nonneg f xs h.1)

solve-last_book :
    (prod_id : ℕ) (hist : List PriceItem) {txs : List TransactionTemplate}
    → solve prod_id hist ≡ some txs
    → (b : Book) × (last_book prod_id hist ≡ some b) × (b.transactions ≡ txs)
unfolding solve
solve-last_book prod_id hist h = elim (Option-cases (last_book prod_id hist)) [
  | inl e ↦ absurd (cc (rw (e, solve) at h))
  | inr (b, e) ↦ (b, e, some-injective _ _ (rw (e, solve) at h))
]

module _ (prod_id : ℕ) (hist : List PriceItem)
    (range : (x : PriceItem) → Memᴰ x hist → IsI64 x.count) where
  withdraw_account :
      (id : ℕ) (side : Direction) (x : PriceItem) (xs : List PriceItem) (c : ℤ)
      → IsRemnant hist prod_id side x
      → pos 1 ≤ℤ c
      → c ≤ℤ x.count
      → total (held id) (withdraw (x ∷ xs) c) +ℤ (if eqb x.id id then c else pos 0)
        ≡ total (held id) (x ∷ xs)
  unfolding withdraw
  withdraw_account id side x xs c r lo hi =
      if_rule
        (λ l. total (held id) l +ℤ (if eqb x.id id then c else pos 0) ≡ total (held id) (x ∷ xs))
        (eqb_ℤ x.count c)
        (λ used.
          let same : x.count ≡ c = eq_of_parts x.count c (ground arith) in
          subst
            (λ z.
              total (held id) xs +ℤ (if eqb x.id id then z else pos 0) ≡ total (held id) (x ∷ xs))
            same (+ℤ_comm (total (held id) xs) (held id x)))
        (λ more. elim (Bool-cases (eqb x.id id)) [
          | inl e ↦ rw (e, withdraw_exact hist prod_id range side x c r lo hi) (omega int_laws)
          | inr e ↦ rw e (omega int_laws)
        ])

  pub last_book-IsSound : (b : Book) → last_book prod_id hist ≡ some b → IsSound hist prod_id b
  unfolding last_book
  last_book-IsSound b h =
      (match_rule prod_id (IsSound hist prod_id) (Trades-IsSound hist prod_id range) _
        (open_book hist) h (open_book-IsSound hist prod_id)).0

  -- Every transaction that `solve` returns is for the given product, between a pub and a sub of
  -- the histogram, at the cost of the sub, which covers the cost of the pub, and its count is
  -- positive and at most the count of either; the counts of the histogram are taken to be `i64`s.
  pub solve-IsFair :
      (txs : List TransactionTemplate)
      → solve prod_id hist ≡ some txs
      → All (IsFair hist prod_id) txs
  solve-IsFair txs h =
      let (b, last, same) = solve-last_book prod_id hist h in
      subst (All (IsFair hist prod_id)) same (last_book-IsSound b last).transactions

  -- Of each id, what the transactions take and what the queues still hold adds up to what the
  -- active items of the histogram hold.
  record IsBalanced (id : ℕ) (b : Book) : Type 0 where
    sound : IsSound hist prod_id b
    pubs :
        total (held id) b.pubs +ℤ total (sold id) b.transactions
        ≡ total (held id) (active_pubs hist)
    subs :
        total (held id) b.subs +ℤ total (bought id) b.transactions
        ≡ total (held id) (active_subs hist)

  -- One side of a round: the queue gives what the transaction takes.
  side_account :
      (id : ℕ) (side : Direction) (x : PriceItem) (xs : List PriceItem) (c : ℤ)
      (f : TransactionTemplate → ℤ) (txs : List TransactionTemplate) (t : TransactionTemplate)
      (all : ℤ)
      → IsRemnant hist prod_id side x
      → pos 1 ≤ℤ c
      → c ≤ℤ x.count
      → f t ≡ (if eqb x.id id then c else pos 0)
      → total (held id) (x ∷ xs) +ℤ total f txs ≡ all
      → total (held id) (withdraw (x ∷ xs) c) +ℤ total f (txs ++ t ∷ []) ≡ all
  side_account id side x xs c f txs t all r lo hi takes before =
      let gives = withdraw_account id side x xs c r lo hi in
      let gives' =
        subst (λ z. total (held id) (withdraw (x ∷ xs) c) +ℤ z ≡ total (held id) (x ∷ xs))
          (sym takes) gives in
      rw (total-append f txs t) (
        omega (
          int_laws,
          ap pos_part gives',
          ap neg_part gives',
          ap pos_part before,
          ap neg_part before,
        ))

  Trades-IsBalanced :
      (id : ℕ) (b b' : Book) → Trades prod_id b b' → IsBalanced id b → IsBalanced id b'
  Trades-IsBalanced id b b' t h =
      let hp = subst (All (IsRemnant hist prod_id pub_side)) t.pubs h.sound.pubs in
      let hs = subst (All (IsRemnant hist prod_id sub_side)) t.subs h.sound.subs in
      let (lo, le_p, le_s, _) = traded_count_bounds t.p t.s hp.0.count_pos hs.0.count_pos in
      record {
        sound = Trades-IsSound hist prod_id range b b' t h.sound;
        pubs =
            rw (t.pubs_left, t.traded)
              (side_account id pub_side t.p t.ps _ (sold id) b.transactions
                (template prod_id t.p t.s) _ hp.0 lo le_p refl
                (subst
                  (λ l.
                    total (held id) l +ℤ total (sold id) b.transactions
                    ≡ total (held id) (active_pubs hist))
                  t.pubs h.pubs));
        subs =
            rw (t.subs_left, t.traded)
              (side_account id sub_side t.s t.ss _ (bought id) b.transactions
                (template prod_id t.p t.s) _ hs.0 lo le_s refl
                (subst
                  (λ l.
                    total (held id) l +ℤ total (bought id) b.transactions
                    ≡ total (held id) (active_subs hist))
                  t.subs h.subs));
      }

  open_book-IsBalanced : (id : ℕ) → IsBalanced id (open_book hist)
  unfolding open_book
  open_book-IsBalanced id = record {
    sound = open_book-IsSound hist prod_id;
    pubs = rw total-sort (omega int_laws);
    subs = rw total-sort (omega int_laws);
  }

  held_nonneg :
      (id : ℕ) (side : Direction) (xs : List PriceItem)
      → All (IsRemnant hist prod_id side) xs
      → pos 0 ≤ℤ total (held id) xs
  held_nonneg id side xs h =
      total_nonneg (held id) xs (All-imp (λ x r. ground (arith, r.count_pos)) xs h)

  last_balance : (id : ℕ) (b : Book) → last_book prod_id hist ≡ some b → IsBalanced id b
  unfolding last_book
  last_balance id b h =
      (match_rule prod_id (IsBalanced id) (Trades-IsBalanced id) _ (open_book hist) h
        (open_book-IsBalanced id)).0

  -- For every id, the transactions that `solve` returns take no more from the pubs of that id than
  -- the active pubs of the histogram hold together, and likewise for the subs.
  pub solve_accounts :
      (txs : List TransactionTemplate) (id : ℕ)
      → solve prod_id hist ≡ some txs
      → (total (sold id) txs ≤ℤ total (held id) (active_pubs hist))
        × (total (bought id) txs ≤ℤ total (held id) (active_subs hist))
  solve_accounts txs id h =
      let (b, last, same) = solve-last_book prod_id hist h in
      let balance = last_balance id b last in
      subst
        (λ l.
          (total (sold id) l ≤ℤ total (held id) (active_pubs hist))
          × (total (bought id) l ≤ℤ total (held id) (active_subs hist)))
        same
        (
          omega (
            int_laws,
            ap pos_part balance.pubs,
            ap neg_part balance.pubs,
            held_nonneg id pub_side b.pubs balance.sound.pubs,
          ),
          omega (
            int_laws,
            ap pos_part balance.subs,
            ap neg_part balance.subs,
            held_nonneg id sub_side b.subs balance.sound.subs,
          ),
        )
