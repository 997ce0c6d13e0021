-- ===== src/Ids/RoundTrip.antt =====
-- app/core/ids.py: what a public id says survives its text.
use kyjness_community_be.Ids.{
  IdError, empty_sub, public_id_empty, ok, char_at, base62_index, digits, digit_fuel,
  uuid_to_base62, decode, decode_stripped, base62_to_uuid, parse_public_id_value, jwt_sub_to_uuid,
  id_of_stripped,
}
use kyjness_community_be.Prelude.{
  ℕ, zero, suc, ◌+◌, ◌*◌, ◌/◌, ◌%◌, ◌^◌, ◌≤◌, ◌<◌, ◌≡◌, ◌≢◌, ◌↔◌, refl, inl, inr, ap, ◌∙◌, Bool,
  true, false, ◌&&◌, Option, none, some, [], ◌∷◌, ◌++◌, reverse, length, All, ◌==◌, if◌then◌else◌,
  arith, Bool-cases, Option-cases, length-append,
}
use kyjness_community_be.Text.{Text, is_space, strip, strip_none, All-reverse}
use mathlib.Core.List.{reverse-cons}
use native.Mathlib.Nat.{pow-suc}

-- The value of the digits read from the left after a number, with no bound.
unfoldable pub value : ℕ → Text → Option ℕ
value n [] = some n
value n (ch ∷ s) = elim (base62_index ch) [ none ↦ none | some idx ↦ value (n * 62 + idx) s ]

value-ge : (n : ℕ) (s : Text) (m : ℕ) → value n s ≡ some m → n ≤ m
unfolding value
value-ge n [] m h = ground arith
value-ge n (ch ∷ s) m h = elim (Option-cases (base62_index ch)) [
  | inl e ↦ absurd (ground (arith, e, h))
  | inr (idx, e) ↦ omega (arith, value-ge (n * 62 + idx) s m (ground (arith, e, h)))
]

decode-ok :
    (n : ℕ) (s : Text) (m : ℕ)
    → n < 2 ^ 128
    → decode n s ≡ ok m
    → (value n s ≡ some m) × (m < 2 ^ 128)
unfolding decode value
decode-ok n [] m b h = ground arith
decode-ok n (ch ∷ s) m b h = elim (Option-cases (base62_index ch)) [
  | inl e ↦ ground (arith, e)
  | inr (idx, e) ↦ ground (arith, e, decode-ok (n * 62 + idx) s m)
]

decode_of_value : (n : ℕ) (s : Text) (m : ℕ) → value n s ≡ some m → m < 2 ^ 128 → decode n s ≡ ok m
unfolding decode value
decode_of_value n [] m h b = ground arith
decode_of_value n (ch ∷ s) m h b = elim (Option-cases (base62_index ch)) [
  | inl e ↦ ground (arith, e)
  | inr (idx, e) ↦
      ground (arith, e, decode_of_value (n * 62 + idx) s m, value-ge (n * 62 + idx) s m)
]

-- Checking the bound after every digit refuses the same texts as checking it once at the end.
pub decode_iff :
    (n : ℕ) (s : Text) (m : ℕ)
    → n < 2 ^ 128
    → (decode n s ≡ ok m) ↔ ((value n s ≡ some m) × (m < 2 ^ 128))
decode_iff n s m h = (decode-ok n s m h, λ p. decode_of_value n s m p.0 p.1)

checked_below : ℕ → (ℕ → Bool) → Bool
checked_below zero p = true
checked_below (suc n) p = p n && checked_below n p

checked_below_sound : (n : ℕ) (p : ℕ → Bool) (x : ℕ) → checked_below n p ≡ true → x < n → p x ≡ true
unfolding checked_below
checked_below_sound zero p x h lt = absurd (omega arith)
checked_below_sound (suc n) p x h lt = ground (arith, checked_below_sound n p x)

is_index : ℕ → Bool
is_index r = elim (base62_index (char_at r)) [ none ↦ false | some i ↦ i == r ]

index_table : checked_below 62 is_index ≡ true
unfolding checked_below is_index base62_index char_at
index_table = refl

index-char_at : (r : ℕ) → r < 62 → base62_index (char_at r) ≡ some r
unfolding is_index
index-char_at r h = ground (arith, checked_below_sound 62 is_index r index_table h)

visible_table : checked_below 62 (λ r. if is_space (char_at r) then false else true) ≡ true
unfolding checked_below is_space char_at
visible_table = refl

char_at_visible : (r : ℕ) → r < 62 → is_space (char_at r) ≡ false
char_at_visible r h = ground (
  arith,
  checked_below_sound 62 (λ r. if is_space (char_at r) then false else true) r visible_table h,
)

decode-append : (n : ℕ) (s t : Text) (k : ℕ) → decode n s ≡ ok k → decode n (s ++ t) ≡ decode k t
unfolding decode
decode-append n [] t k h = ground arith
decode-append n (ch ∷ s) t k h = elim (Option-cases (base62_index ch)) [
  | inl e ↦ ground (arith, e)
  | inr (idx, e) ↦ ground (arith, e, decode-append (n * 62 + idx) s t k)
]

decode_digit :
    (q r n : ℕ) → r < 62 → n < 2 ^ 128 → q * 62 + r ≡ n → decode q (char_at r ∷ []) ≡ ok n
unfolding decode
decode_digit q r n hr hn e = ground (arith, index-char_at r hr)

decode-nil : (n m : ℕ) → n ≡ m → decode n [] ≡ ok m
unfolding decode
decode-nil n m e = ap ok e

lt-pow_of_div : (fuel n : ℕ) → n < 62 ^ suc fuel → n / 62 < 62 ^ fuel
lt-pow_of_div fuel n h = let h' : n < 62 ^ fuel * 62 = rw pow-suc at h in omega arith

decode-digits :
    (fuel n : ℕ) → n < 2 ^ 128 → n < 62 ^ fuel → decode 0 (reverse (digits fuel n)) ≡ ok n
unfolding digits
decode-digits zero n b h = decode-nil 0 n (omega arith)
decode-digits (suc fuel) n b h = elim (Bool-cases (n == 0)) [
  | inl e ↦ rw e (decode-nil 0 n (ground arith))
  | inr e ↦
      rw (e, reverse-cons)
        (decode-append 0 (reverse (digits fuel (n / 62))) (char_at (n % 62) ∷ []) (n / 62)
            (decode-digits fuel (n / 62) (omega arith) (lt-pow_of_div fuel n h))
          ∙ decode_digit (n / 62) (n % 62) n (omega arith) b (omega arith))
]

digits_visible : (fuel n : ℕ) → All (λ c. is_space c ≡ false) (digits fuel n)
unfolding digits
digits_visible zero n = tt
digits_visible (suc fuel) n = elim (Bool-cases (n == 0)) [
  | inl e ↦ rw e tt
  | inr e ↦ rw e (char_at_visible (n % 62) (omega arith), digits_visible fuel (n / 62))
]

encode_visible : (u : ℕ) → All (λ c. is_space c ≡ false) (uuid_to_base62 u)
unfolding uuid_to_base62
encode_visible u = elim (Bool-cases (u == 0)) [
  | inl e ↦ rw e (char_at_visible 0 (omega arith), tt)
  | inr e ↦
      rw e
        (All-reverse (λ c. is_space c ≡ false) (digits digit_fuel u) (digits_visible digit_fuel u))
]

decode-encode : (u : ℕ) → u < 2 ^ 128 → decode 0 (uuid_to_base62 u) ≡ ok u
unfolding uuid_to_base62
decode-encode u h = elim (Bool-cases (u == 0)) [
  | inl e ↦ rw e (decode_digit 0 0 u (omega arith) h (ground arith))
  | inr e ↦ rw e (decode-digits digit_fuel u h (omega arith))
]

decode_stripped_lem : (s : Text) (u : ℕ) → s ≢ [] → decode 0 s ≡ ok u → decode_stripped s ≡ ok u
unfolding decode_stripped
decode_stripped_lem [] u ne h = absurd (ne refl)
decode_stripped_lem (c ∷ s) u ne h = h

encode-ne-nil : (u : ℕ) → u < 2 ^ 128 → uuid_to_base62 u ≢ []
unfolding uuid_to_base62 decode
encode-ne-nil u h = elim (Bool-cases (u == 0)) [
  | inl e ↦ rw e (λ p. cc)
  | inr e ↦ rw e (λ p.
      let q : decode 0 [] ≡ ok u = rw p at (decode-digits digit_fuel u h (omega arith)) in
      ground arith)
]

strip-encode : (u : ℕ) → strip (uuid_to_base62 u) ≡ uuid_to_base62 u
strip-encode u = strip_none (uuid_to_base62 u) (encode_visible u)

-- Every UUID is read back from its public id.
pub base62_to_uuid-uuid_to_base62 : (u : ℕ) → u < 2 ^ 128 → base62_to_uuid (uuid_to_base62 u) ≡ ok u
unfolding base62_to_uuid
base62_to_uuid-uuid_to_base62 u h =
    rw (strip-encode u)
      (decode_stripped_lem (uuid_to_base62 u) u (encode-ne-nil u h) (decode-encode u h))

length-digits-le : (fuel n : ℕ) → length (digits fuel n) ≤ fuel
unfolding digits
length-digits-le zero n = omega arith
length-digits-le (suc fuel) n = ground (arith, length-digits-le fuel (n / 62))

length-reverse : (s : Text) → length (reverse s) ≡ length s
length-reverse [] = refl
length-reverse (c ∷ s) =
    rw (reverse-cons c s, length-append (reverse s) (c ∷ []), length-reverse s) (omega arith)

length-encode-le : (u : ℕ) → length (uuid_to_base62 u) ≤ 22
unfolding uuid_to_base62
length-encode-le u =
    ground (arith, length-reverse (digits digit_fuel u), length-digits-le digit_fuel u)

module _ (parse_uuid : Text → Option ℕ)
    (short : (s : Text) → length s < 32 → parse_uuid s ≡ none) where
  id_of_stripped_lem :
      (e : IdError) (s : Text) (u : ℕ)
      → s ≢ []
      → length s < 32
      → base62_to_uuid s ≡ ok u
      → id_of_stripped parse_uuid e s ≡ ok u
  unfolding id_of_stripped
  id_of_stripped_lem e [] u ne lt h = absurd (ne refl)
  id_of_stripped_lem e (c ∷ s) u ne lt h = rw (short (c ∷ s) lt, id_of_stripped) h

  -- A public id is read back as its UUID by the validator of requests and by the one of JWT subjects,
  -- if the `uuid` module refuses every text of fewer than its 32 digits.
  pub parse-encode :
      (u : ℕ)
      → u < 2 ^ 128
      → (parse_public_id_value parse_uuid (uuid_to_base62 u) ≡ ok u)
        × (jwt_sub_to_uuid parse_uuid (uuid_to_base62 u) ≡ ok u)
  unfolding parse_public_id_value jwt_sub_to_uuid
  parse-encode u h =
      let lt : length (uuid_to_base62 u) < 32 = omega (arith, length-encode-le u) in
      let ne = encode-ne-nil u h in
      let back = base62_to_uuid-uuid_to_base62 u h in
      (
        rw (strip-encode u) (id_of_stripped_lem public_id_empty (uuid_to_base62 u) u ne lt back),
        rw (strip-encode u) (id_of_stripped_lem empty_sub (uuid_to_base62 u) u ne lt back),
      )
