-- ===== src/Market/Solver/Round.antt =====
-- One round of the solver, and what holds after every round: the two queues hold remnants of the
-- histogram's items, and each transaction is fair.
use mathlib.Core.List.{Memᴰ}
use mathlib.Core.Option.{some-injective}
use open_ark.Prelude.{
  ℕ, zero, suc, ◌≡◌, refl, sym, subst, Bool, true, ◌⊎◌, inl, inr, none, some, List, [], ◌∷◌, ◌++◌,
  All, All-append, if_rule, Option-cases, arith,
}
use open_ark.Prelude.Int.{
  ℤ, pos, eqb_ℤ, ◌-ℤ◌, ◌≤ℤ◌, IsI64, sub_i64, sub_i64-le, -ℤ_parts, canonical,
}
use open_ark.Market.{Direction, pub_side, sub_side, PriceItem, TransactionTemplate, is_pub, is_sub}
use open_ark.Sort.{filter_by, All-filter_by_and, All-sort}
use open_ark.Market.Solver.{
  Book, withdraw, traded_count, template, round_on, round, match_items, active_pubs, active_subs,
  is_active, open_book,
}

-- What a round that trades does.
pub record Trades (prod_id : ℕ) (b b' : Book) : Type 0 where
  pub p : PriceItem
  pub ps : List PriceItem
  pub s : PriceItem
  pub ss : List PriceItem
  pub pubs : b.pubs ≡ p ∷ ps
  pub subs : b.subs ≡ s ∷ ss
  pub crosses : p.cost ≤ℤ s.cost
  pub pubs_left : b'.pubs ≡ withdraw (p ∷ ps) (traded_count p s)
  pub subs_left : b'.subs ≡ withdraw (s ∷ ss) (traded_count p s)
  pub traded : b'.transactions ≡ b.transactions ++ template prod_id p s ∷ []

round_on-Trades :
    (prod_id : ℕ) (pubs subs : List PriceItem) (txs : List TransactionTemplate) {b' : Book}
    → round_on prod_id pubs subs txs ≡ some b'
    → Trades prod_id (record { pubs = pubs; subs = subs; transactions = txs }) b'
unfolding round_on
round_on-Trades prod_id [] subs txs h = absurd (cc)
round_on-Trades prod_id (p ∷ ps) [] txs h = absurd (cc)
round_on-Trades prod_id (p ∷ ps) (s ∷ ss) txs h = record {
  p = p;
  ps = ps;
  s = s;
  ss = ss;
  pubs = refl;
  subs = refl;
  crosses = ground arith;
  pubs_left = ground arith;
  subs_left = ground arith;
  traded = ground arith;
}

pub round-Trades :
    (prod_id : ℕ) (b : Book) {b' : Book} → round prod_id b ≡ some b' → Trades prod_id b b'
unfolding round
round-Trades prod_id b h = round_on-Trades prod_id b.pubs b.subs b.transactions h

-- What every round keeps holds in the book where the loop ends, and no round is left.
pub match_rule {κ} :
    (prod_id : ℕ) (P : Book → Type κ)
    → ((b b' : Book) → Trades prod_id b b' → P b → P b')
    → (fuel : ℕ) (b : Book) {last : Book} → match_items prod_id fuel b ≡ some last
    → P b
    → P last × (round prod_id last ≡ none)
unfolding match_items
match_rule prod_id P keep zero b h p = elim (Option-cases (round prod_id b)) [
  | inl e ↦
      subst (λ x. P x × (round prod_id x ≡ none)) (some-injective _ _ (rw (e, match_items) at h))
        (p, e)
  | inr (b', e) ↦ absurd (cc (rw (e, match_items) at h))
]
match_rule prod_id P keep (suc fuel) b h p = elim (Option-cases (round prod_id b)) [
  | inl e ↦
      subst (λ x. P x × (round prod_id x ≡ none)) (some-injective _ _ (rw (e, match_items) at h))
        (p, e)
  | inr (b', e) ↦
      match_rule prod_id P keep fuel b' (rw (e, match_items) at h)
        (keep b b' (round-Trades prod_id b e) p)
]

-- The count of a round lies between 1 and both counts, and uses up one of the items.
pub traded_count_bounds :
    (p s : PriceItem)
    → pos 1 ≤ℤ p.count
    → pos 1 ≤ℤ s.count
    → (pos 1 ≤ℤ traded_count p s)
      × (traded_count p s ≤ℤ p.count)
      × (traded_count p s ≤ℤ s.count)
      × ((traded_count p s ≡ p.count) ⊎ (traded_count p s ≡ s.count))
traded_count_bounds p s hp hs = ground arith

module _ (hist : List PriceItem) (prod_id : ℕ) where
  -- What is left of an item of the histogram.
  pub record IsRemnant (side : Direction) (item : PriceItem) : Type 0 where
    pub source : PriceItem
    pub listed : Memᴰ source hist
    pub source_side : source.direction ≡ side
    pub same_id : item.id ≡ source.id
    pub same_cost : item.cost ≡ source.cost
    pub cost_nonneg : pos 0 ≤ℤ item.cost
    pub count_pos : pos 1 ≤ℤ item.count
    pub count_le : item.count ≤ℤ source.count

  -- A transaction between a pub and a sub of the histogram: at the cost of the sub, which covers
  -- that of the pub, and of a positive count that both can give.
  pub record IsFair (t : TransactionTemplate) : Type 0 where
    pub seller : PriceItem
    pub buyer : PriceItem
    pub seller_listed : Memᴰ seller hist
    pub buyer_listed : Memᴰ buyer hist
    pub seller_side : seller.direction ≡ pub_side
    pub buyer_side : buyer.direction ≡ sub_side
    pub prod_eq : t.prod ≡ prod_id
    pub pub_eq : t.pub_id ≡ seller.id
    pub sub_eq : t.sub_id ≡ buyer.id
    pub cost_eq : t.cost ≡ buyer.cost
    pub cost_covers : seller.cost ≤ℤ t.cost
    pub count_pos : pos 1 ≤ℤ t.count
    pub count_le_seller : t.count ≤ℤ seller.count
    pub count_le_buyer : t.count ≤ℤ buyer.count

  pub record IsSound (b : Book) : Type 0 where
    pub pubs : All (IsRemnant pub_side) b.pubs
    pub subs : All (IsRemnant sub_side) b.subs
    pub transactions : All IsFair b.transactions

  -- The counts are those of an `i64`.
  module _ (range : (x : PriceItem) → Memᴰ x hist → IsI64 x.count) where
    -- A remnant's count can be lowered with no wrap.
    pub withdraw_exact :
        (side : Direction) (x : PriceItem) (c : ℤ)
        → IsRemnant side x
        → pos 1 ≤ℤ c
        → c ≤ℤ x.count
        → sub_i64 x.count c ≡ x.count -ℤ c
    withdraw_exact side x c r lo hi =
        let source_range = range r.source r.listed in
        sub_i64-le x.count c (omega (arith, canonical x.count)) (omega arith) hi

    withdraw-IsRemnant :
        (side : Direction) (x : PriceItem) (xs : List PriceItem) (c : ℤ)
        → pos 1 ≤ℤ c
        → c ≤ℤ x.count
        → All (IsRemnant side) (x ∷ xs)
        → All (IsRemnant side) (withdraw (x ∷ xs) c)
    unfolding withdraw
    withdraw-IsRemnant side x xs c lo hi (r, rs) =
        let exact = withdraw_exact side x c r lo hi in
        if_rule (All (IsRemnant side)) (eqb_ℤ x.count c) (λ used. rs)
          (λ more. (
            record {
              source = r.source;
              listed = r.listed;
              source_side = r.source_side;
              same_id = r.same_id;
              same_cost = r.same_cost;
              cost_nonneg = r.cost_nonneg;
              count_pos =
                  subst (λ z. pos 1 ≤ℤ z) (sym exact)
                    (ground (
                      arith,
                      -ℤ_parts x.count c,
                      canonical x.count,
                      canonical c,
                      canonical (x.count -ℤ c),
                    ));
              count_le =
                  subst (λ z. z ≤ℤ r.source.count) (sym exact)
                    (omega (arith, -ℤ_parts x.count c, r.count_le));
            },
            rs,
          ))

    template-IsFair :
        (p s : PriceItem)
        → p.cost ≤ℤ s.cost
        → IsRemnant pub_side p
        → IsRemnant sub_side s
        → IsFair (template prod_id p s)
    template-IsFair p s crosses rp rs =
        let (lo, hp, hs, _) = traded_count_bounds p s rp.count_pos rs.count_pos in
        record {
          seller = rp.source;
          buyer = rs.source;
          seller_listed = rp.listed;
          buyer_listed = rs.listed;
          seller_side = rp.source_side;
          buyer_side = rs.source_side;
          prod_eq = refl;
          pub_eq = rp.same_id;
          sub_eq = rs.same_id;
          cost_eq = rs.same_cost;
          cost_covers = subst (λ z. z ≤ℤ s.cost) rp.same_cost crosses;
          count_pos = lo;
          count_le_seller = omega (arith, rp.count_le);
          count_le_buyer = omega (arith, rs.count_le);
        }

    pub Trades-IsSound : (b b' : Book) → Trades prod_id b b' → IsSound b → IsSound b'
    Trades-IsSound b b' t h =
        let hp = subst (All (IsRemnant pub_side)) t.pubs h.pubs in
        let hs = subst (All (IsRemnant sub_side)) t.subs h.subs in
        let (lo, le_p, le_s, _) = traded_count_bounds t.p t.s hp.0.count_pos hs.0.count_pos in
        record {
          pubs = rw t.pubs_left (withdraw-IsRemnant pub_side t.p t.ps _ lo le_p hp);
          subs = rw t.subs_left (withdraw-IsRemnant sub_side t.s t.ss _ lo le_s hs);
          transactions = rw t.traded (
              All-append IsFair b.transactions _ h.transactions
                (template-IsFair t.p t.s t.crosses hp.0 hs.0, tt));
        }

  All-Memᴰ :
      (xs : List PriceItem)
      → ((x : PriceItem) → Memᴰ x xs → Memᴰ x hist)
      → All (λ x. Memᴰ x hist) xs
  All-Memᴰ [] f = tt
  All-Memᴰ (x ∷ xs) f = (f x (Memᴰ.head refl), All-Memᴰ xs (λ y m. f y (Memᴰ.tail m)))

  -- The items that pass the filters are remnants of themselves.
  active-IsRemnant :
      (side : Direction) (test : Direction → Bool)
      → ((d : Direction) → test d ≡ true → d ≡ side)
      → All (IsRemnant side) (filter_by is_active (filter_by (λ item. test item.direction) hist))
  active-IsRemnant side test decides =
      All-filter_by_and (λ x. Memᴰ x hist × (x.direction ≡ side)) (IsRemnant side) is_active _
        (λ x listed active. record {
          source = x;
          listed = listed.0;
          source_side = listed.1;
          same_id = refl;
          same_cost = refl;
          cost_nonneg = ground arith;
          count_pos = ground arith;
          count_le = omega arith;
        })
        (All-filter_by_and (λ x. Memᴰ x hist) (λ x. Memᴰ x hist × (x.direction ≡ side))
          (λ item. test item.direction) hist
          (λ x listed passed. (listed, decides x.direction passed)) (All-Memᴰ hist (λ x m. m)))

  pub open_book-IsSound : IsSound (open_book hist)
  unfolding open_book active_pubs active_subs
  open_book-IsSound = record {
    pubs = All-sort _ _ _ (active-IsRemnant pub_side is_pub (λ d e. ground arith));
    subs = All-sort _ _ _ (active-IsRemnant sub_side is_sub (λ d e. ground arith));
    transactions = tt;
  }
