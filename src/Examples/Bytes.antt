-- ===== src/Examples/Bytes.antt =====
-- Numbers and a string as the exporters put them out.
use trace.Prelude.{ℕ, ◌<◌, ◌≤◌, ◌≡◌, some, List, [], ◌∷◌, ◌++◌, length, arith, All}
use trace.Json.{push_string}
use trace.Json.Strings.{plain, read_text, push_string-read}
use trace.Varint.{varint, read_varint, varint-read}

-- A quote, a letter, a control character and a line feed, and then a comma behind the string.
push_string-read_example :
    (body : List ℕ) × (push_string (34 ∷ 97 ∷ 1 ∷ 10 ∷ []) ++ 44 ∷ [] ≡ 34 ∷ body)
    × (read_text plain body ≡ some (34 ∷ 97 ∷ 1 ∷ 10 ∷ [], 44 ∷ []))
push_string-read_example = push_string-read (34 ∷ 97 ∷ 1 ∷ 10 ∷ []) (44 ∷ [])

varint-read_example :
    (bytes : List ℕ) × (varint 300 ≡ some bytes)
    × (read_varint (bytes ++ 7 ∷ []) ≡ some (300, 7 ∷ []))
    × All (λ b. b < 256) bytes
    × (length bytes ≤ 10)
varint-read_example = varint-read 300 (7 ∷ []) (omega arith)
