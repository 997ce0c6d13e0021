-- ===== src/Db/Tally.antt =====
-- Two tables of which one caches, in a column, how many rows of the other belong to each of its rows:
-- posts and their likes, posts and their comments, comments and their likes.
use kyjness_community_be.Prelude.{
  ℕ, ◌+◌, ◌-◌, ◌≤◌, ◌≡◌, inr, Bool, true, false, ◌&&◌, some, List, [], ◌∷◌, ◌++◌, count_if,
  count_if-append, any_of, All, All-map, to_ℕ, arith, ◌==◌,
}
use kyjness_community_be.Db.Sql.{update_where, one_or_none, count_if-update_where, All-snoc}
use kyjness_community_be.Db.Counters.{IsCounted, All-counted_up, All-counted_down, All-counted_same}
use kyjness_community_be.Db.Found.{one_or_none-All, one_or_none_found}

module _ {Row Link : Type 0} (id_of count_of : Row → ℕ) (is_live : Row → Bool)
    (belongs : ℕ → Link → Bool) where
  abbrev pub tally : List Link → ℕ → ℕ
  tally links i = count_if (belongs i) links

  abbrev pub has_id : ℕ → Row → Bool
  has_id i r = id_of r == i

  -- The ids are unique, the column of each live row is right, and an id that no row has owns nothing.
  pub record IsTallied (rows : List Row) (links : List Link) : Type 0 where
    pub unique : (i : ℕ) → count_if (has_id i) rows ≤ 1
    pub counted : All (IsCounted id_of count_of is_live (tally links)) rows
    pub known : (i : ℕ) → count_if (has_id i) rows ≡ 0 → tally links i ≡ 0

  -- an UPDATE that leaves the ids alone, beside any change of the other table
  pub IsTallied-update :
      (rows : List Row) (links links' : List Link) (p : Row → Bool) (f : Row → Row)
      → ((r : Row) → id_of (f r) ≡ id_of r)
      → ((r : Row)
          → p r ≡ true
          → IsCounted id_of count_of is_live (tally links) r
          → IsCounted id_of count_of is_live (tally links') (f r))
      → ((r : Row)
          → p r ≡ false
          → IsCounted id_of count_of is_live (tally links) r
          → IsCounted id_of count_of is_live (tally links') r)
      → ((i : ℕ) → tally links i ≡ 0 → tally links' i ≡ 0)
      → IsTallied rows links
      → IsTallied (update_where p f rows) links'
  IsTallied-update rows links links' p f same hit miss empty h =
      let ids : (i : ℕ) → count_if (has_id i) (update_where p f rows) ≡ count_if (has_id i) rows =
        λ i. count_if-update_where (has_id i) p f (λ r. ground (arith, same r)) rows in
      record {
        unique = λ i. ground (arith, ids i, h.unique i);
        counted =
            All-counted_same id_of count_of is_live (tally links) (tally links') p f hit miss rows
              h.counted;
        known = λ i e. empty i (h.known i (ground (arith, ids i)));
      }

  -- an UPDATE of other columns
  pub IsTallied-touch :
      (rows : List Row) (links : List Link) (p : Row → Bool) (f : Row → Row)
      → ((r : Row)
          → (id_of (f r) ≡ id_of r) × (count_of (f r) ≡ count_of r) × (is_live (f r) ≡ is_live r))
      → IsTallied rows links
      → IsTallied (update_where p f rows) links
  IsTallied-touch rows links p f same h =
      IsTallied-update rows links links p f (λ r. (same r).0) (λ r e k. ground (arith, same r))
        (λ r e k. k) (λ i e. e) h

  -- a change of the other table that leaves each number as it is
  pub IsTallied-links :
      (rows : List Row) (links links' : List Link)
      → ((i : ℕ) → tally links' i ≡ tally links i)
      → IsTallied rows links
      → IsTallied rows links'
  IsTallied-links rows links links' same h = record {
    unique = h.unique;
    counted = All-map (λ r k. ground (arith, same (id_of r))) rows h.counted;
    known = λ i e. ground (arith, same i, h.known i);
  }

  -- a new row, with an id that was not in use and a column of 0
  pub IsTallied-insert :
      (rows : List Row) (links : List Link) (r : Row)
      → count_if (has_id (id_of r)) rows ≡ 0
      → count_of r ≡ 0
      → IsTallied rows links
      → IsTallied (rows ++ r ∷ []) links
  IsTallied-insert rows links r fresh zero_count h = record {
    unique = λ i. ground (arith, count_if-append (has_id i) rows (r ∷ []), h.unique i);
    counted =
        All-snoc (IsCounted id_of count_of is_live (tally links)) rows r h.counted
          (inr (ground (arith, h.known (id_of r) fresh)));
    known = λ i e. h.known i (ground (arith, count_if-append (has_id i) rows (r ∷ [])));
  }

  module _ (rows : List Row) (links links' : List Link) (target : ℕ) (f : Row → Row) where
    -- the column of a row that is there goes up with the number of its links
    pub IsTallied-up :
        1 ≤ count_if (has_id target) rows
        → ((i : ℕ) → tally links' i ≡ tally links i + to_ℕ (i == target))
        → ((r : Row)
            → (count_of (f r) ≡ count_of r + 1)
              × (id_of (f r) ≡ id_of r)
              × (is_live (f r) ≡ is_live r))
        → IsTallied rows links
        → IsTallied (update_where (has_id target) f rows) links'
    IsTallied-up there grows step h =
        let ids : (i : ℕ)
            → count_if (has_id i) (update_where (has_id target) f rows) ≡ count_if (has_id i) rows =
          λ i.
            count_if-update_where (has_id i) (has_id target) f (λ r. ground (arith, step r)) rows in
        record {
          unique = λ i. ground (arith, ids i, h.unique i);
          counted =
              All-counted_up id_of count_of is_live (tally links) (tally links') target f grows step
                rows h.counted;
          known = λ i e. ground (arith, ids i, grows i, h.known i);
        }

    -- and down with it
    pub IsTallied-down :
        ((i : ℕ) → tally links' i + to_ℕ (i == target) ≡ tally links i)
        → ((r : Row)
            → (count_of (f r) ≡ count_of r - 1)
              × (id_of (f r) ≡ id_of r)
              × (is_live (f r) ≡ is_live r))
        → IsTallied rows links
        → IsTallied (update_where (has_id target) f rows) links'
    IsTallied-down falls step h =
        let ids : (i : ℕ)
            → count_if (has_id i) (update_where (has_id target) f rows) ≡ count_if (has_id i) rows =
          λ i.
            count_if-update_where (has_id i) (has_id target) f (λ r. ground (arith, step r)) rows in
        record {
          unique = λ i. ground (arith, ids i, h.unique i);
          counted =
              All-counted_down id_of count_of is_live (tally links) (tally links') target f falls
                step rows h.counted;
          known = λ i e. ground (arith, ids i, falls i, h.known i);
        }

  -- What a query finds in a live row of a sound table is the number of links.
  pub column_is_tally :
      (rows : List Row) (links : List Link) (target : ℕ) (q : Row → Bool)
      → ((r : Row) → q r ≡ true → is_live r ≡ true)
      → any_of (λ r. has_id target r && q r) rows ≡ true
      → IsTallied rows links
      → (r : Row) × (one_or_none (has_id target) rows ≡ some r)
        × (q r ≡ true)
        × (count_of r ≡ tally links target)
  column_is_tally rows links target q live there h =
      let (r, found, is_target, qr) =
        one_or_none_found (has_id target) q rows (h.unique target) there in
      let (right, _) =
        one_or_none-All (IsCounted id_of count_of is_live (tally links)) (has_id target) rows r
          h.counted found in
      (r, found, qr, ground (arith, live r qr))
