-- ===== src/Market/Solver/Ends.antt =====
-- The solver's loop ends, and where it ends no pub that is left can meet a sub that is left.
use mathlib.Core.List.{Memᴰ}
use open_ark.Prelude.{
  ℕ, zero, suc, ◌+◌, ◌≤◌, ◌<◌, ◌≡◌, subst, inl, inr, none, some, List, [], ◌∷◌, length, All,
  All-imp, if_rule, Option-cases, arith,
}
use open_ark.Prelude.Int.{ℤ, eqb_ℤ, ◌≤ℤ◌, IsI64, canonical}
use open_ark.Market.{pub_side, sub_side, PriceItem, TransactionTemplate}
use open_ark.Sort.{IsOrdered, sort-IsOrdered}
use open_ark.Market.Solver.{
  Book, withdraw, traded_count, round_on, round, match_items, active_pubs, active_subs, open_book,
  last_book, solve, pub_le, sub_le,
}
use open_ark.Market.Solver.Round.{
  Trades, round-Trades, match_rule, traded_count_bounds, IsRemnant, IsSound, Trades-IsSound,
  open_book-IsSound,
}

-- A cheaper pub stands first, and a higher bid.
abbrev Cheaper : PriceItem → PriceItem → Type 0
Cheaper a b = a.cost ≤ℤ b.cost

abbrev Higher : PriceItem → PriceItem → Type 0
Higher a b = b.cost ≤ℤ a.cost

record IsSorted (b : Book) : Type 0 where
  pubs : IsOrdered Cheaper b.pubs
  subs : IsOrdered Higher b.subs

open_book-IsSorted : (hist : List PriceItem) → IsSorted (open_book hist)
unfolding open_book
open_book-IsSorted hist = record {
  pubs =
      sort-IsOrdered Cheaper pub_le (λ x y h. ground arith) (λ x y h. ground arith)
        (λ x y z h k. omega (arith, canonical x.cost, canonical y.cost, canonical z.cost))
        (active_pubs hist);
  subs =
      sort-IsOrdered Higher sub_le (λ x y h. ground arith) (λ x y h. ground arith)
        (λ x y z h k. omega (arith, canonical x.cost, canonical y.cost, canonical z.cost))
        (active_subs hist);
}

-- Withdrawing changes no cost.
withdraw-IsOrdered :
    (R : PriceItem → PriceItem → Type 0)
    → ((x y : PriceItem) (c : ℤ) → R x y → R (record x { count = c }) y)
    → (x : PriceItem) (xs : List PriceItem) (c : ℤ) → IsOrdered R (x ∷ xs)
    → IsOrdered R (withdraw (x ∷ xs) c)
unfolding withdraw
withdraw-IsOrdered R keep x xs c h =
    if_rule (IsOrdered R) (eqb_ℤ x.count c) (λ used. h.1)
      (λ more. (All-imp (λ y. keep x y _) xs h.0, h.1))

Trades-IsSorted : (prod_id : ℕ) (b b' : Book) → Trades prod_id b b' → IsSorted b → IsSorted b'
Trades-IsSorted prod_id b b' t h = record {
  pubs = rw t.pubs_left (
      withdraw-IsOrdered Cheaper (λ x y c k. k) t.p t.ps _
        (subst (IsOrdered Cheaper) t.pubs h.pubs));
  subs = rw t.subs_left (
      withdraw-IsOrdered Higher (λ x y c k. k) t.s t.ss _ (subst (IsOrdered Higher) t.subs h.subs));
}

-- No pub of the book can be sold to a sub of the book.
abbrev pub IsExhausted : Book → Type 0
IsExhausted b = All (λ p. All (λ (s : PriceItem). ¬ (p.cost ≤ℤ s.cost)) b.subs) b.pubs

-- A pub that no cheaper than `p` is not bought by `s`, nor by a lower bid, if `p` is not.
no_buyer :
    (p x s : PriceItem) (ss : List PriceItem)
    → ¬ (p.cost ≤ℤ s.cost)
    → p.cost ≤ℤ x.cost
    → All (Higher s) ss
    → All (λ (t : PriceItem). ¬ (x.cost ≤ℤ t.cost)) (s ∷ ss)
no_buyer p x s ss above le lower = (
  λ k. above (omega (arith, canonical x.cost)),
  All-imp (λ t high k. above (omega (arith, canonical x.cost, canonical t.cost))) ss lower,
)

exhausted_on :
    (prod_id : ℕ) (pubs subs : List PriceItem) (txs : List TransactionTemplate)
    → round_on prod_id pubs subs txs ≡ none
    → IsOrdered Cheaper pubs
    → IsOrdered Higher subs
    → All (λ p. All (λ (s : PriceItem). ¬ (p.cost ≤ℤ s.cost)) subs) pubs
unfolding round_on
exhausted_on prod_id [] subs txs h op os = tt
exhausted_on prod_id (p ∷ ps) [] txs h op os = (tt, All-imp (λ x _. tt) ps op.0)
exhausted_on prod_id (p ∷ ps) (s ∷ ss) txs h op os =
    let above : ¬ (p.cost ≤ℤ s.cost) = ground arith in
    (
      no_buyer p p s ss above (omega arith) os.0,
      All-imp (λ x k. no_buyer p x s ss above k os.0) ps op.0,
    )

-- Where the loop of `solve` ends, every pub that is left costs more than any sub that is left
-- bids, or one of the two queues is empty.
pub last_book-IsExhausted :
    (prod_id : ℕ) (hist : List PriceItem) (b : Book)
    → last_book prod_id hist ≡ some b
    → IsExhausted b
unfolding last_book round
last_book-IsExhausted prod_id hist b h =
    let (sorted, over) =
      match_rule prod_id IsSorted (Trades-IsSorted prod_id) _ (open_book hist) h
        (open_book-IsSorted hist) in
    exhausted_on prod_id b.pubs b.subs b.transactions over sorted.pubs sorted.subs

-- The items of the book.
abbrev items : Book → ℕ
items b = length b.pubs + length b.subs

withdraw-length :
    (x : PriceItem) (xs : List PriceItem) (c : ℤ) → length (withdraw (x ∷ xs) c) ≤ suc (length xs)
unfolding withdraw
withdraw-length x xs c = ground arith

withdraw-length_all :
    (x : PriceItem) (xs : List PriceItem) (c : ℤ)
    → c ≡ x.count
    → length (withdraw (x ∷ xs) c) ≡ length xs
unfolding withdraw
withdraw-length_all x xs c e = ground arith

module _ (prod_id : ℕ) (hist : List PriceItem)
    (range : (x : PriceItem) → Memᴰ x hist → IsI64 x.count) where
  -- A round uses up one of the two items.
  Trades-items : (b b' : Book) → Trades prod_id b b' → IsSound hist prod_id b → items b' < items b
  Trades-items b b' t h =
      let hp = subst (All (IsRemnant hist prod_id pub_side)) t.pubs h.pubs in
      let hs = subst (All (IsRemnant hist prod_id sub_side)) t.subs h.subs in
      let (_, _, _, one) = traded_count_bounds t.p t.s hp.0.count_pos hs.0.count_pos in
      let c = traded_count t.p t.s in
      let sizes : items b' ≡ length (withdraw (t.p ∷ t.ps) c) + length (withdraw (t.s ∷ t.ss) c) =
        rw (t.pubs_left, t.subs_left) in
      let before : items b ≡ suc (length t.ps) + suc (length t.ss) = rw (t.pubs, t.subs) in
      elim one [
        | inl e ↦ omega (arith, withdraw-length_all t.p t.ps c e, withdraw-length t.s t.ss c)
        | inr e ↦ omega (arith, withdraw-length_all t.s t.ss c e, withdraw-length t.p t.ps c)
      ]

  match_ends :
      (fuel : ℕ) (b : Book)
      → IsSound hist prod_id b
      → items b ≤ fuel
      → (last : Book) × (match_items prod_id fuel b ≡ some last)
  unfolding match_items
  match_ends zero b h le = elim (Option-cases (round prod_id b)) [
    | inl e ↦ (b, rw (e, match_items))
    | inr (b', e) ↦ absurd (omega (arith, Trades-items b b' (round-Trades prod_id b e) h))
  ]
  match_ends (suc fuel) b h le = elim (Option-cases (round prod_id b)) [
    | inl e ↦ (b, rw (e, match_items))
    | inr (b', e) ↦
        let t = round-Trades prod_id b e in
        let (last, ends) =
          match_ends fuel b' (Trades-IsSound hist prod_id range b b' t h)
            (omega (arith, Trades-items b b' t h)) in
        (last, rw (e, match_items) ends)
  ]

  -- `solve` returns, if the counts of the histogram are `i64`s.
  pub solve_ends : (txs : List TransactionTemplate) × (solve prod_id hist ≡ some txs)
  unfolding solve last_book
  solve_ends =
      let (last, ends) =
        match_ends (items (open_book hist)) (open_book hist) (open_book-IsSound hist prod_id)
          (omega arith) in
      (last.transactions, rw (ends, solve))
