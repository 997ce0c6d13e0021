-- ===== src/Text.antt =====
-- Python texts as lists of code points, and the methods of `str` that the code calls on them.
use Prim.Native.Char.{code}
use Prim.Native.String.{String}
use kyjness_community_be.Prelude.{
  ℕ, ◌+◌, ◌≡◌, refl, Bool, true, false, ◌||◌, ◌&&◌, List, [], ◌∷◌, ◌++◌, reverse, All, leb, ◌==◌,
  if◌then◌else◌, arith,
}
use mathlib.Core.List.{reverse-reverse, reverse-cons}

abbrev pub Text : Type 0
Text = List ℕ

abbrev pub codes : String → Text
codes String.[] = []
codes (String.◌∷◌ c s) = code c ∷ codes s

-- `ch.isspace()`: the code points that `str.strip()` and `str.split()` treat as white space.
unfoldable pub is_space : ℕ → Bool
is_space c =
    (leb 9 c && leb c 13)
    || (leb 28 c && leb c 32)
    || c == 133
    || c == 160
    || c == 5760
    || (leb 8192 c && leb c 8202)
    || c == 8232
    || c == 8233
    || c == 8239
    || c == 8287
    || c == 12288

-- `s.lstrip(...)` for the characters that satisfy a test
unfoldable pub drop_while : (ℕ → Bool) → Text → Text
drop_while p [] = []
drop_while p (c ∷ s) = let rest = drop_while p s in if p c then rest else c ∷ s

unfoldable pub lstrip_if : (ℕ → Bool) → Text → Text
unfolding drop_while
lstrip_if p s = drop_while p s

unfoldable pub rstrip_if : (ℕ → Bool) → Text → Text
unfolding drop_while
rstrip_if p s = reverse (drop_while p (reverse s))

-- `s.strip()`
unfoldable pub strip : Text → Text
unfolding lstrip_if rstrip_if is_space
strip s = rstrip_if is_space (lstrip_if is_space s)

drop_while_none : (p : ℕ → Bool) (s : Text) → All (λ c. p c ≡ false) s → drop_while p s ≡ s
unfolding drop_while
drop_while_none p [] h = refl
drop_while_none p (c ∷ s) h = ground (arith, h.0)

All-append : (P : ℕ → Type 0) (s t : Text) → All P s → All P t → All P (s ++ t)
All-append P [] t hs ht = ht
All-append P (c ∷ s) t hs ht = (hs.0, All-append P s t hs.1 ht)

pub All-reverse : (P : ℕ → Type 0) (s : Text) → All P s → All P (reverse s)
All-reverse P [] h = tt
All-reverse P (c ∷ s) h =
    rw (reverse-cons c s) (All-append P (reverse s) (c ∷ []) (All-reverse P s h.1) (h.0, tt))

-- A text without white space is its own `strip()`.
pub strip_none : (s : Text) → All (λ c. is_space c ≡ false) s → strip s ≡ s
unfolding strip
strip_none s h =
    rw
      (
        drop_while_none is_space s h,
        drop_while_none is_space (reverse s) (All-reverse (λ c. is_space c ≡ false) s h),
      )
      (reverse-reverse s)

-- `s == t`
unfoldable pub text_eq : Text → Text → Bool
text_eq [] [] = true
text_eq [] (d ∷ t) = false
text_eq (c ∷ s) [] = false
text_eq (c ∷ s) (d ∷ t) = c == d && text_eq s t

pub text_eq_refl : (s : Text) → text_eq s s ≡ true
unfolding text_eq
text_eq_refl [] = refl
text_eq_refl (c ∷ s) = ground (arith, text_eq_refl s)

pub text_eq→≡ : (s t : Text) → text_eq s t ≡ true → s ≡ t
unfolding text_eq
text_eq→≡ [] [] e = refl
text_eq→≡ [] (d ∷ t) e = ground arith
text_eq→≡ (c ∷ s) [] e = ground arith
text_eq→≡ (c ∷ s) (d ∷ t) e = ground (arith, text_eq→≡ s t)

-- `str.lower()` of one code point, as far as a later test for ASCII or Hangul characters can tell:
-- apart from A to Z only the Kelvin sign and the dotted capital I have a lower case with an ASCII
-- letter.
unfoldable pub lower : ℕ → Text
lower c =
    if leb 65 c && leb c 90
    then (c + 32) ∷ []
    else if c == 8490
    then 107 ∷ []
    else if c == 304
    then 105 ∷ 775 ∷ []
    else c ∷ []

unfoldable pub lower_all : Text → Text
lower_all [] = []
lower_all (c ∷ s) = lower c ++ lower_all s
