-- ===== src/Market/Paging.antt =====
-- Paged listing: `create_stream` of crates/kubegraph/market/client/src/page.rs, and the
-- histogram that the client reads from the gateway with it.
use mathlib.Core.Option.{some-injective}
use open_ark.Prelude.{
  All-All, ℕ, zero, suc, ◌+◌, ◌<◌, ◌≡◌, ◌≢◌, refl, sym, ap, subst, true, false, inl, inr, Option,
  none, some, List, [], ◌∷◌, ◌++◌, length, take, last, All, All-imp, if◌then◌else◌, eqb, ltb,
  Bool-cases, ◌∙◌, length-append, arith,
}
use open_ark.Sort.{
  filter_by, IsOrdered, All-filter_by, filter_by-All, filter_by_both, filter_by-IsOrdered,
}
use open_ark.Market.Database.{Page, is_after}

-- How a stream ends: closed, by an error, or (no end of the code) by want of fuel.
pub data End : Type 0 where
  closed failed out_of_fuel : End

-- `Page::default`
abbrev pub default_page : Page
default_page = record { start = none; limit = 20 }

module _ {A : Type 0} (loader : Page → Option (List A)) (id_picker : A → ℕ) where
  -- The loop of `create_stream`: what it yields from a page on, and how it ends.
  unfoldable pub stream_from : ℕ → Page → List A × End
  stream_from zero page = ([], out_of_fuel)
  stream_from (suc fuel) page = elim (loader page) [
    | none ↦ ([], failed)
    | some items ↦
        let start : Option ℕ = elim (last items) [
          | none ↦ none
          | some item ↦ some (id_picker item)
        ] in
        let rest = stream_from fuel (record page { start = start }) in
        if eqb (length items) page.limit then (items ++ rest.0, rest.1) else (items, closed)
  ]

  unfoldable pub create_stream : ℕ → List A × End
  create_stream fuel = stream_from fuel default_page

  stream_short :
      (fuel : ℕ) (page : Page) (items : List A)
      → loader page ≡ some items
      → eqb (length items) page.limit ≡ false
      → stream_from (suc fuel) page ≡ (items, closed)
  unfolding stream_from
  stream_short fuel page items h e = rw (h, e, stream_from)

  stream_full :
      (fuel : ℕ) (page : Page) (items : List A) (y : A)
      → loader page ≡ some items
      → eqb (length items) page.limit ≡ true
      → last items ≡ some y
      → stream_from (suc fuel) page ≡ (
        items ++ (stream_from fuel (record page { start = some (id_picker y) })).0,
        (stream_from fuel (record page { start = some (id_picker y) })).1,
      )
  unfolding stream_from
  stream_full fuel page items y h e is_last = rw (h, e, is_last, stream_from)

module _ {A : Type 0} where
  last_All : (P : A → Type 0) (xs : List A) (y : A) → last xs ≡ some y → All P xs → P y
  last_All P (x ∷ []) y h k = subst P (some-injective _ _ h) k.0
  last_All P (x ∷ z ∷ zs) y h k = last_All P (z ∷ zs) y h k.1
  last_All P [] y h k = absurd (cc)

  All-take : (P : A → Type 0) (n : ℕ) (xs : List A) → All P xs → All P (take n xs)
  All-take P zero xs h = tt
  All-take P (suc n) [] h = tt
  All-take P (suc n) (x ∷ xs) h = (h.0, All-take P n xs h.1)

  -- A short page is the whole list.
  take_short : (n : ℕ) (xs : List A) → length (take n xs) ≢ n → take n xs ≡ xs
  take_short zero xs h = absurd (h refl)
  take_short (suc n) [] h = refl
  take_short (suc n) (x ∷ xs) h = ap (λ l. x ∷ l) (take_short n xs (λ e. h (omega arith)))

  module _ (id : A → ℕ) where
    abbrev pub Before : A → A → Type 0
    Before x y = id x < id y

    -- The elements whose ids are after a start.
    abbrev after : Option ℕ → List A → List A
    after start xs = filter_by (λ x. is_after start (id x)) xs

    after_head : (x : A) (xs : List A) → All (Before x) xs → after (some (id x)) (x ∷ xs) ≡ xs
    unfolding filter_by
    after_head x xs h =
        let self : ltb (id x) (id x) ≡ false = ground arith in
        rw self (filter_by-All _ xs (All-imp (λ y lt. ground arith) xs h))

    after_skip :
        (x y : A) (xs : List A)
        → id x < id y
        → after (some (id y)) (x ∷ xs) ≡ after (some (id y)) xs
    unfolding filter_by
    after_skip x y xs h = let early : ltb (id y) (id x) ≡ false = ground arith in rw early

    later_still :
        (start : Option ℕ) (a b : ℕ)
        → is_after start a ≡ true
        → ltb a b ≡ true
        → is_after start b ≡ true
    later_still none a b h k = refl
    later_still (some s) a b h k = ground arith

    -- What follows a full page is what is after its last element.
    full_page :
        (n : ℕ) (xs : List A)
        → IsOrdered Before xs
        → length (take (suc n) xs) ≡ suc n
        → (y : A) × (last (take (suc n) xs) ≡ some y)
          × (take (suc n) xs ++ after (some (id y)) xs ≡ xs)
    full_page n [] h e = absurd (omega arith)
    full_page zero (x ∷ xs) h e = (x, refl, ap (λ l. x ∷ l) (after_head x xs h.0))
    full_page (suc n) (x ∷ []) h e = absurd (omega arith)
    full_page (suc n) (x ∷ z ∷ zs) h e =
        let (y, is_last, splits) = full_page n (z ∷ zs) h.1 (omega arith) in
        let before : id x < id y =
          last_All (Before x) (take (suc n) (z ∷ zs)) y is_last
            (All-take (Before x) (suc n) (z ∷ zs) h.0) in
        (y, is_last, rw (after_skip x y (z ∷ zs) before) (ap (λ l. x ∷ l) splits))

    module _ (rows : List A) (ordered : IsOrdered Before rows) (loader : Page → Option (List A))
        (loads : (page : Page) → loader page ≡ some (take page.limit (after page.start rows))) where
      -- Past a start that the rows pass, the later start decides.
      after_after :
          (start : Option ℕ) (y : A)
          → is_after start (id y) ≡ true
          → after (some (id y)) (after start rows) ≡ after (some (id y)) rows
      after_after start y later =
          filter_by_both _ _ (λ x e. later_still start (id y) (id x) later e) rows

      stream_from-after :
          (limit fuel : ℕ) (start : Option ℕ)
          → 0 < limit
          → length (after start rows) < fuel
          → stream_from loader id fuel (record { start = start; limit = limit })
            ≡ (after start rows, closed)
      unfolding stream_from
      stream_from-after limit zero start pos_limit enough = absurd (omega arith)
      stream_from-after zero (suc fuel) start pos_limit enough = absurd (omega arith)
      stream_from-after (suc n) (suc fuel) start pos_limit enough =
          let page : Page = record { start = start; limit = suc n } in
          let items = take (suc n) (after start rows) in
          elim (Bool-cases (eqb (length items) (suc n))) [
            | inl full ↦
                let e : length items ≡ suc n = ground arith in
                let (y, is_last, splits) =
                  full_page n (after start rows) (filter_by-IsOrdered Before _ rows ordered) e in
                let later =
                  last_All (λ x. is_after start (id x) ≡ true) items y is_last
                    (All-take _ (suc n) _ (All-filter_by _ rows)) in
                let splits' : items ++ after (some (id y)) rows ≡ after start rows =
                  rw (after_after start y later) at splits in
                let size : length items + length (after (some (id y)) rows)
                    ≡ length (after start rows) =
                  sym (length-append items _) ∙ ap length splits' in
                let ih = stream_from-after (suc n) fuel (some (id y)) pos_limit (omega arith) in
                stream_full loader id fuel page items y (loads page) full is_last
                ∙ rw ih (ap (λ l. (l, closed)) splits')
            | inr short ↦
                stream_short loader id fuel page items (loads page) short
                ∙ ap (λ l. (l, closed)) (take_short (suc n) (after start rows) (λ e. ground arith))
          ]

      -- A stream yields the rows that the pages list, each once and in order, and closes, if the ids
      -- of the rows increase strictly and each page is the first `limit` rows after its start.
      pub create_stream_exact :
          (fuel : ℕ) → length rows < fuel → create_stream loader id fuel ≡ (rows, closed)
      unfolding create_stream
      create_stream_exact fuel enough =
          let everything : after none rows ≡ rows =
            filter_by-All _ rows (All-All _ (λ x. refl) rows) in
          subst (λ l. stream_from loader id fuel default_page ≡ (l, closed)) everything
            (stream_from-after 20 fuel none (omega arith) (rw everything enough))
