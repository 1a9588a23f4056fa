-- ===== src/Integrity.antt =====
-- Hashes and the clock (src/integrity.rs).
pub mod Hex
pub mod Clock
pub mod Collision
use Prim.Native.Char.{Char}
use dmlpact.Base.{ℕ, String, Option, none, some, true, false, [], ◌∷◌, ◌/◌, ◌%◌, ltb, if◌then◌else◌}
use dmlpact.Base.{◌^◌}
use dmlpact.Base.Text.{Bytes, as_bytes}
use dmlpact.Error.{AppResult, ok, err, app_error, io, contract}
use dmlpact.System.{System, Effect}
use dmlpact.System.Monad.{M, ask_or, ◌>>=◌, refuse_if, ◌>>◌, pure}

-- `HEX[n]`.
unfoldable pub hex_digit : ℕ → Char
hex_digit n =
    if ltb n 8
    then (if ltb n 4
        then (if ltb n 2 then (if ltb n 1 then "0" else "1") else (if ltb n 3 then "2" else "3"))
        else (if ltb n 6 then (if ltb n 5 then "4" else "5") else (if ltb n 7 then "6" else "7")))
    else (if ltb n 12
        then (if ltb n 10 then (if ltb n 9 then "8" else "9") else (if ltb n 11 then "a" else "b"))
        else (if ltb n 14
            then (if ltb n 13 then "c" else "d")
            else (if ltb n 15 then "e" else "f")))

-- The loop over the digest: two digits for each byte.
unfoldable pub encode_hex : Bytes → String
unfolding hex_digit
encode_hex [] = ""
encode_hex (byte ∷ bytes) =
    String.◌∷◌ (hex_digit (byte / 16)) (String.◌∷◌ (hex_digit (byte % 16)) (encode_hex bytes))

module _ (S : System) where
  unfoldable pub sha256_bytes : Bytes → String
  unfolding encode_hex
  sha256_bytes bytes = encode_hex (S.digest bytes)

  -- The value is given by its serialisation.
  unfoldable pub sha256_json : Option String → AppResult String
  unfolding sha256_bytes as_bytes
  sha256_json none =
      err (app_error contract "json_serialization_failed" "could not serialize a contract document")
  sha256_json (some text) = ok (sha256_bytes (as_bytes text))

  unfoldable pub unix_ms : M ℕ
  unix_ms = do
    millis ←
        ask_or Effect.read_clock S.now
          (app_error io "clock_before_epoch" "the system clock is before the Unix epoch")
    refuse_if (if ltb millis (2 ^ 64) then false else true)
        (app_error io "clock_out_of_range" "the system clock is outside the supported range")
    pure millis
