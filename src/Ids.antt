-- ===== src/Ids.antt =====
-- app/core/ids.py: public ids. A UUID is the number that it stands for, below 2 ^ 128; a text is a
-- list of code points. The parser of the `uuid` module is a parameter.
pub mod RoundTrip
mod Tests
use kyjness_community_be.Prelude.{
  ℕ, zero, suc, ◌+◌, ◌*◌, ◌/◌, ◌%◌, ◌^◌, Option, none, some, List, [], ◌∷◌, reverse, get_elem?, leb,
  ◌==◌, if◌then◌else◌,
}
use kyjness_community_be.Text.{Text, codes, strip}

-- The `ValueError` of each refusal.
pub data IdError : Type 0 where
  empty_base62 invalid_base62_char base62_overflow empty_sub public_id_empty : IdError

pub data IdResult : Type 0 where
  ok : ℕ → IdResult
  err : IdError → IdResult

-- `_BASE62`
abbrev pub alphabet : Text
alphabet = codes "0123456789ABCDEFGHIJKLMNOPQRSTUVWXYZabcdefghijklmnopqrstuvwxyz"

unfoldable pub char_at : ℕ → ℕ
char_at r = elim (get_elem? alphabet r) [ some c ↦ c | none ↦ 0 ]

index_from : ℕ → ℕ → Text → Option ℕ
index_from i ch [] = none
index_from i ch (c ∷ cs) = let rest = index_from (i + 1) ch cs in if c == ch then some i else rest

-- `_BASE62_INDEX.get(ch)`
unfoldable pub base62_index : ℕ → Option ℕ
unfolding index_from
base62_index ch = index_from 0 ch alphabet

-- `while n: n, r = divmod(n, 62); out.append(_BASE62[r])`, on fuel. 128 bits take 22 rounds.
unfoldable pub digits : ℕ → ℕ → Text
unfolding char_at
digits zero n = []
digits (suc fuel) n =
    let more = char_at (n % 62) ∷ digits fuel (n / 62) in if n == 0 then [] else more

abbrev pub digit_fuel : ℕ
digit_fuel = 22

unfoldable pub uuid_to_base62 : ℕ → Text
uuid_to_base62 u = if u == 0 then char_at 0 ∷ [] else reverse (digits digit_fuel u)

-- The loop over the characters, with `n` so far. `n.bit_length() > 128` is `2 ^ 128 <= n`.
unfoldable pub decode : ℕ → Text → IdResult
decode n [] = ok n
decode n (ch ∷ s) = elim (base62_index ch) [
  | none ↦ IdResult.err invalid_base62_char
  | some idx ↦
      let n' = n * 62 + idx in
      let rest = decode n' s in if leb (2 ^ 128) n' then IdResult.err base62_overflow else rest
]

unfoldable pub decode_stripped : Text → IdResult
unfolding decode
decode_stripped [] = IdResult.err empty_base62
decode_stripped (c ∷ s) = decode 0 (c ∷ s)

unfoldable pub base62_to_uuid : Text → IdResult
unfolding decode_stripped strip
base62_to_uuid s = decode_stripped (strip s)

-- `UUID(s)`: the number, or none for its `ValueError`.
module _ (parse_uuid : Text → Option ℕ) where
  unfoldable pub id_of_stripped : IdError → Text → IdResult
  id_of_stripped e [] = IdResult.err e
  id_of_stripped e (c ∷ s) = elim (parse_uuid (c ∷ s)) [
    | some u ↦ ok u
    | none ↦ base62_to_uuid (c ∷ s)
  ]

  unfoldable pub jwt_sub_to_uuid : Text → IdResult
  unfolding id_of_stripped
  jwt_sub_to_uuid sub = id_of_stripped empty_sub (strip sub)

  -- `parse_public_id_value` of a text
  unfoldable pub parse_public_id_value : Text → IdResult
  unfolding id_of_stripped
  parse_public_id_value v = id_of_stripped public_id_empty (strip v)
