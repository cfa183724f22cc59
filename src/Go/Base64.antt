-- ===== src/Go/Base64.antt =====
-- `base64.StdEncoding.EncodeToString([]byte(s))`.
use Prim.Native.String.{slice}
use cluster_api_provider_lat.Base.{ℕ, ◌+◌, ◌*◌, ◌/◌, ◌%◌, code, String, ◌<>◌, List, [], ◌∷◌, ◌++◌}
use cluster_api_provider_lat.Base.{ltb, if◌then◌else◌}

-- The UTF-8 of one code point.
unfoldable pub utf8_of_code : ℕ → List ℕ
utf8_of_code c =
    if ltb c 0x80
    then c ∷ []
    else if ltb c 0x800
    then (0xc0 + c / 64) ∷ (0x80 + c % 64) ∷ []
    else if ltb c 0x10000
    then (0xe0 + c / 4096) ∷ (0x80 + (c / 64) % 64) ∷ (0x80 + c % 64) ∷ []
    else (0xf0 + c / 262144)
      ∷ (0x80 + (c / 4096) % 64)
      ∷ (0x80 + (c / 64) % 64)
      ∷ (0x80 + c % 64)
      ∷ []

-- `[]byte(s)`
unfoldable pub bytes : String → List ℕ
unfolding utf8_of_code
bytes String.[] = []
bytes (String.◌∷◌ c s) = utf8_of_code (code c) ++ bytes s

unfoldable pub sextet : ℕ → String
sextet i = slice "ABCDEFGHIJKLMNOPQRSTUVWXYZabcdefghijklmnopqrstuvwxyz0123456789+/" i (i + 1)

-- Three bytes are four letters; one or two left over are padded with `=`.
unfoldable pub base64 : List ℕ → String
unfolding sextet
base64 [] = ""
base64 (a ∷ []) = sextet (a / 4) <> (sextet ((a % 4) * 16) <> "==")
base64 (a ∷ b ∷ []) =
    sextet (a / 4) <> (sextet ((a % 4) * 16 + b / 16) <> (sextet ((b % 16) * 4) <> "="))
base64 (a ∷ b ∷ c ∷ rest) =
    sextet (a / 4)
    <> (sextet ((a % 4) * 16 + b / 16)
        <> (sextet ((b % 16) * 4 + c / 64) <> (sextet (c % 64) <> base64 rest)))

unfoldable pub encode_to_string : String → String
unfolding base64 bytes
encode_to_string s = base64 (bytes s)
