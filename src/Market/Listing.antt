-- ===== src/Market/Listing.antt =====
-- What the client reads of the gateway's prices, page by page: `list_price_histogram` of
-- crates/kubegraph/market/client/src/lib.rs over that of crates/kubegraph/market/gateway/src/db.rs.
use open_ark.Prelude.{
  All-both, ℕ, zero, suc, ◌≤◌, ◌<◌, ◌≡◌, ◌≢◌, refl, sym, ap, Bool, inl, inr, none, some, List, [],
  ◌∷◌, length, take, map, All, Bool-cases, arith,
}
use open_ark.Market.{PriceItem}
use open_ark.Sort.{
  filter_by, insert, sort, IsOrdered, All-insert, All-sort, sort-IsOrdered, filter_by-IsOrdered,
}
use open_ark.Market.Database.{
  Page, is_after, Price, Db, default_price, id_le, list_prices, price_item, list_price_histogram,
}
use open_ark.Market.Paging.{End, closed, create_stream, create_stream_exact}

module _ {A B : Type 0} (f : A → B) where
  take-map : (n : ℕ) (xs : List A) → take n (map f xs) ≡ map f (take n xs)
  take-map zero xs = refl
  take-map (suc n) [] = refl
  take-map (suc n) (x ∷ xs) = ap (λ l. f x ∷ l) (take-map n xs)

  filter_by-map :
      (p : B → Bool) (xs : List A) → filter_by p (map f xs) ≡ map f (filter_by (λ x. p (f x)) xs)
  unfolding filter_by
  filter_by-map p [] = refl
  filter_by-map p (x ∷ xs) = elim (Bool-cases (p (f x))) [
    | inl e ↦ rw (e, filter_by-map p xs)
    | inr e ↦ rw (e, filter_by-map p xs)
  ]

  pub All-map : (P : B → Type 0) (xs : List A) → All (λ x. P (f x)) xs → All P (map f xs)
  All-map P [] h = tt
  All-map P (x ∷ xs) h = (h.0, All-map P xs h.1)

  map-IsOrdered :
      (R : B → B → Type 0) (xs : List A)
      → IsOrdered (λ x y. R (f x) (f y)) xs
      → IsOrdered R (map f xs)
  map-IsOrdered R [] h = tt
  map-IsOrdered R (x ∷ xs) h = (All-map (R (f x)) xs h.0, map-IsOrdered R xs h.1)

module _ {A : Type 0} where
  IsOrdered-both :
      (R S T : A → A → Type 0)
      → ((x y : A) → R x y → S x y → T x y)
      → (xs : List A) → IsOrdered R xs
      → IsOrdered S xs
      → IsOrdered T xs
  IsOrdered-both R S T f [] h k = tt
  IsOrdered-both R S T f (x ∷ xs) h k =
      (All-both (R x) (S x) (T x) (f x) xs h.0 k.0, IsOrdered-both R S T f xs h.1 k.1)

  -- Sorting keeps what holds of every two elements, whichever stands first.
  module _ (R : A → A → Type 0) (R_sym : (x y : A) → R x y → R y x) (le : A → A → Bool) where
    insert_keeps :
        (x : A) (ys : List A) → All (R x) ys → IsOrdered R ys → IsOrdered R (insert le x ys)
    unfolding insert
    insert_keeps x [] a h = (tt, tt)
    insert_keeps x (y ∷ ys) a h = elim (Bool-cases (le x y)) [
      | inl e ↦ rw e (a, h)
      | inr e ↦ rw e (All-insert (R y) le x ys (R_sym x y a.0) h.0, insert_keeps x ys a.1 h.1)
    ]

    sort_keeps : (xs : List A) → IsOrdered R xs → IsOrdered R (sort le xs)
    unfolding sort
    sort_keeps [] h = tt
    sort_keeps (x ∷ xs) h =
        insert_keeps x (sort le xs) (All-sort (R x) le xs h.0) (sort_keeps xs h.1)

module _ {V : Type 0} where
  -- The ids of the rows are a key.
  abbrev pub IsKeyed : List (Price V) → Type 0
  IsKeyed rows = IsOrdered (λ a b. a.id ≢ b.id) rows

  -- The histogram as one list: every price that is not negative and has a count, by its id.
  unfoldable pub whole_histogram : Db V → List PriceItem
  whole_histogram db = map price_item (filter_by (default_price none) (sort id_le db.prices))

  pub whole_histogram-IsOrdered :
      (db : Db V) → IsKeyed db.prices → IsOrdered (λ a b. a.id < b.id) (whole_histogram db)
  unfolding whole_histogram
  whole_histogram-IsOrdered db keyed =
      map-IsOrdered price_item (λ a b. a.id < b.id) _
        (filter_by-IsOrdered _ (default_price none) _ (
          IsOrdered-both (λ a b. a.id ≤ b.id) (λ a b. a.id ≢ b.id) _ (λ a b h k. omega arith)
            (sort id_le db.prices)
            (sort-IsOrdered (λ a b. a.id ≤ b.id) id_le (λ x y h. ground arith)
              (λ x y h. ground arith) (λ x y z h k. omega arith) db.prices)
            (sort_keeps (λ a b. a.id ≢ b.id) (λ x y h e. h (sym e)) id_le db.prices keyed)))

  list_price_histogram-page :
      (prod_id : ℕ) (page : Page) (db : Db V)
      → list_price_histogram prod_id page db
        ≡ take page.limit (filter_by (λ x. is_after page.start x.id) (whole_histogram db))
  unfolding list_price_histogram list_prices whole_histogram
  list_price_histogram-page prod_id page db = rw (filter_by-map price_item, take-map price_item)

  -- The client's listing of the prices of a product.
  unfoldable pub client_histogram : ℕ → ℕ → Db V → List PriceItem × End
  client_histogram fuel prod_id db =
      create_stream (λ page. some (list_price_histogram prod_id page db)) (λ item. item.id) fuel

  -- The client's listing closes and yields each price that is not negative and has a count once, by
  -- increasing id, if the ids of the table are a key: the prices of every product, whichever
  -- product is asked for.
  pub client_histogram_exact :
      (fuel prod_id : ℕ) (db : Db V)
      → IsKeyed db.prices
      → length (whole_histogram db) < fuel
      → client_histogram fuel prod_id db ≡ (whole_histogram db, closed)
  unfolding client_histogram
  client_histogram_exact fuel prod_id db keyed enough =
      create_stream_exact (λ item. item.id) (whole_histogram db)
        (whole_histogram-IsOrdered db keyed) _
        (λ page. ap (λ l. some l) (list_price_histogram-page prod_id page db)) fuel enough
