-- ===== src/Db/Counters.antt =====
-- A column that caches a count (`like_count`, `comment_count`): it stays right if the column and what
-- it counts move together.
use kyjness_community_be.Prelude.{
  ℕ, ◌+◌, ◌-◌, ◌≡◌, ◌⊎◌, refl, Bool, true, false, List, [], ◌∷◌, if◌then◌else◌, All, to_ℕ, ◌==◌,
  arith,
}
use kyjness_community_be.Db.Sql.{update_where}

module _ {Row : Type 0} (id_of count_of : Row → ℕ) (is_live : Row → Bool) where
  -- A live row's column is the number that `tally` counts for its id.
  abbrev pub IsCounted : (ℕ → ℕ) → Row → Type 0
  IsCounted tally r = (is_live r ≡ false) ⊎ (count_of r ≡ tally (id_of r))

  module _ (tally tally' : ℕ → ℕ) (target : ℕ) (f : Row → Row) where
    -- The rows of the target go up by one with the tally of the target.
    pub All-counted_up :
        ((i : ℕ) → tally' i ≡ tally i + to_ℕ (i == target))
        → ((r : Row)
            → (count_of (f r) ≡ count_of r + 1)
              × (id_of (f r) ≡ id_of r)
              × (is_live (f r) ≡ is_live r))
        → (rows : List Row) → All (IsCounted tally) rows
        → All (IsCounted tally') (update_where (λ r. id_of r == target) f rows)
    unfolding update_where
    All-counted_up grows step [] h = tt
    All-counted_up grows step (r ∷ rows) h =
        (ground (arith, grows (id_of r), step r), All-counted_up grows step rows h.1)

    -- They go down by one with it; SQL's `greatest(n - 1, 0)` never has to cut.
    pub All-counted_down :
        ((i : ℕ) → tally' i + to_ℕ (i == target) ≡ tally i)
        → ((r : Row)
            → (count_of (f r) ≡ count_of r - 1)
              × (id_of (f r) ≡ id_of r)
              × (is_live (f r) ≡ is_live r))
        → (rows : List Row) → All (IsCounted tally) rows
        → All (IsCounted tally') (update_where (λ r. id_of r == target) f rows)
    unfolding update_where
    All-counted_down falls step [] h = tt
    All-counted_down falls step (r ∷ rows) h =
        (ground (arith, falls (id_of r), step r), All-counted_down falls step rows h.1)

  -- An UPDATE of other columns, or one that hides rows, keeps the column right.
  pub All-counted_same :
      (tally tally' : ℕ → ℕ) (p : Row → Bool) (f : Row → Row)
      → ((r : Row) → p r ≡ true → IsCounted tally r → IsCounted tally' (f r))
      → ((r : Row) → p r ≡ false → IsCounted tally r → IsCounted tally' r)
      → (rows : List Row) → All (IsCounted tally) rows
      → All (IsCounted tally') (update_where p f rows)
  unfolding update_where
  All-counted_same tally tally' p f hit miss [] h = tt
  All-counted_same tally tally' p f hit miss (r ∷ rows) h =
      (one (p r) refl, All-counted_same tally tally' p f hit miss rows h.1)
    where
      one : (b : Bool) → p r ≡ b → IsCounted tally' (if b then f r else r)
      one true e = hit r e h.0
      one false e = miss r e h.0
