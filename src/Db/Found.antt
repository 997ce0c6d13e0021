-- ===== src/Db/Found.antt =====
-- Rows that a key finds: with a key that one row has at most, a test finds the row it is true of.
use kyjness_community_be.Prelude.{
  ◌≤◌, ◌≡◌, refl, sym, ap, ◌∙◌, Bool, true, false, ◌&&◌, none, some, List, [], ◌∷◌, count_if,
  if◌then◌else◌, head?, keep, any_of, All, arith, Bool-split,
}
use kyjness_community_be.Db.Sql.{update_where, one_or_none}

module _ {Row : Type 0} where
  pub any_of-count_if :
      (p : Row → Bool) (rows : List Row) → any_of p rows ≡ true → 1 ≤ count_if p rows
  any_of-count_if p [] e = ground arith
  any_of-count_if p (r ∷ rows) e = ground (arith, any_of-count_if p rows)

  pub count_if-any_of :
      (p : Row → Bool) (rows : List Row) → any_of p rows ≡ false → count_if p rows ≡ 0
  count_if-any_of p [] e = refl
  count_if-any_of p (r ∷ rows) e = ground (arith, count_if-any_of p rows)

  pub count_if-both :
      (p q : Row → Bool) (rows : List Row) → count_if (λ r. p r && q r) rows ≤ count_if p rows
  count_if-both p q [] = omega arith
  count_if-both p q (r ∷ rows) = ground (arith, count_if-both p q rows)

  pub any_of_both :
      (p q : Row → Bool) (rows : List Row)
      → any_of (λ r. p r && q r) rows ≡ true
      → 1 ≤ count_if p rows
  any_of_both p q rows e =
      ground (arith, any_of-count_if (λ r. p r && q r) rows e, count_if-both p q rows)

  pub not_any :
      (p q : Row → Bool) (rows : List Row)
      → count_if p rows ≡ 0
      → any_of (λ r. p r && q r) rows ≡ false
  not_any p q [] e = refl
  not_any p q (r ∷ rows) e = ground (arith, not_any p q rows)

  pub one_or_none_there :
      (p : Row → Bool) (rows : List Row)
      → any_of p rows ≡ true
      → (r : Row) × (one_or_none p rows ≡ some r) × (p r ≡ true)
  unfolding one_or_none
  one_or_none_there p [] e = ground arith
  one_or_none_there p (x ∷ rows) e =
      Bool-split (p x) (λ px. (x, ground arith, px))
        (λ px.
          let (r, found, pr) = one_or_none_there p rows (ground arith) in (r, ground arith, pr))

  pub one_or_none_absent :
      (p : Row → Bool) (rows : List Row) → any_of p rows ≡ false → one_or_none p rows ≡ none
  unfolding one_or_none
  one_or_none_absent p [] e = refl
  one_or_none_absent p (x ∷ rows) e = ground (arith, one_or_none_absent p rows)

  pub one_or_none-test :
      (p : Row → Bool) (rows : List Row) (r : Row) → one_or_none p rows ≡ some r → p r ≡ true
  unfolding one_or_none
  one_or_none-test p [] r e = ground arith
  one_or_none-test p (x ∷ rows) r e =
      Bool-split (p x) (λ px. same (ground arith) px)
        (λ px. one_or_none-test p rows r (ground arith))
    where
      same : x ≡ r → p x ≡ true → p r ≡ true
      same e px = ap p (sym e) ∙ px

  pub one_or_none-any_of :
      (p q : Row → Bool) (rows : List Row) (r : Row)
      → one_or_none p rows ≡ some r
      → q r ≡ true
      → any_of q rows ≡ true
  unfolding one_or_none
  one_or_none-any_of p q [] r e k = ground arith
  one_or_none-any_of p q (x ∷ rows) r e k =
      Bool-split (p x) (λ px. first (ground arith))
        (λ px. later (one_or_none-any_of p q rows r (ground arith) k))
    where
      first : x ≡ r → any_of q (x ∷ rows) ≡ true
      first same = ground (arith, ap q same)

      later : any_of q rows ≡ true → any_of q (x ∷ rows) ≡ true
      later e = ground arith

  pub one_or_none-All :
      (P : Row → Type 0) (p : Row → Bool) (rows : List Row) (r : Row)
      → All P rows
      → one_or_none p rows ≡ some r
      → P r × (p r ≡ true)
  unfolding one_or_none
  one_or_none-All P p [] r h e = ground arith
  one_or_none-All P p (x ∷ rows) r h e =
      Bool-split (p x) (λ px. same (ground arith) px)
        (λ px. one_or_none-All P p rows r h.1 (ground arith))
    where
      same : x ≡ r → p x ≡ true → P r × (p r ≡ true)
      same e px = rw (sym e) (h.0, px)

  -- the row that satisfies both tests is the one row of the first
  pub one_or_none_found :
      (p q : Row → Bool) (rows : List Row)
      → count_if p rows ≤ 1
      → any_of (λ r. p r && q r) rows ≡ true
      → (r : Row) × (one_or_none p rows ≡ some r) × (p r ≡ true) × (q r ≡ true)
  unfolding one_or_none
  one_or_none_found p q [] u e = ground arith
  one_or_none_found p q (x ∷ rows) u e =
      Bool-split (p x)
        (λ px. (
          x,
          ground arith,
          px,
          ground (arith, any_of-count_if (λ r. p r && q r) rows, count_if-both p q rows),
        ))
        (λ px.
          let (r, found, pr, qr) = one_or_none_found p q rows (ground arith) (ground arith) in
          (r, ground arith, pr, qr))

  -- an UPDATE that leaves a test alone leaves the row that the test finds, but for its own change
  pub one_or_none-update_where :
      (q p : Row → Bool) (f : Row → Row)
      → ((r : Row) → q (f r) ≡ q r)
      → (rows : List Row) (r : Row) → one_or_none q rows ≡ some r
      → one_or_none q (update_where p f rows) ≡ some (if p r then f r else r)
  unfolding one_or_none update_where
  one_or_none-update_where q p f same [] r e = ground arith
  one_or_none-update_where q p f same (x ∷ rows) r e =
      Bool-split (q x) (λ qx. first (ground arith) qx)
        (λ qx.
          let rest = one_or_none-update_where q p f same rows r (ground arith) in
          ground (arith, same x))
    where
      changed : Row → Row
      changed r = if p r then f r else r

      changed_test : q (changed x) ≡ q x
      changed_test = ground (arith, same x)

      first :
          x ≡ r → q x ≡ true → head? (keep q (changed x ∷ update_where p f rows)) ≡ some (changed r)
      first e qx = ground (arith, changed_test, ap changed e)
