-- ===== src/Ids/Tests.antt =====
-- The theorems on public ids at the UUID of the number 12345, whose public id is "3D7".
use kyjness_community_be.Prelude.{
  ℕ, ◌<◌, ◌≡◌, Option, none, some, length, if◌then◌else◌, ltb, arith,
}
use kyjness_community_be.Text.{Text}
use kyjness_community_be.Ids.{ok, uuid_to_base62, parse_public_id_value, jwt_sub_to_uuid}
use kyjness_community_be.Ids.RoundTrip.{parse-encode}

-- a parser of UUIDs that knows no short text
abbrev parse_uuid : Text → Option ℕ
parse_uuid s = if ltb (length s) 32 then none else some 7

short : (s : Text) → length s < 32 → parse_uuid s ≡ none
short s lt = ground arith

parse-encode_example :
    (parse_public_id_value parse_uuid (uuid_to_base62 12345) ≡ ok 12345)
    × (jwt_sub_to_uuid parse_uuid (uuid_to_base62 12345) ≡ ok 12345)
parse-encode_example = parse-encode parse_uuid short 12345 (ground arith)
