-- ===== src/Json/Strings.antt =====
-- The strings of crates/json/src/lib.rs, and a reader of them by the rules of JSON.
use trace.Prelude.{
  ℕ, suc, zero, ◌+◌, ◌-◌, ◌*◌, ◌/◌, ◌%◌, ◌<◌, ◌≡◌, refl, List, [], ◌∷◌, ◌++◌, Option, some, none,
  arith, Bool-cases, inl, inr, ◌==◌, leb, ltb, ◌&&◌, if◌then◌else◌, tests, append_assoc, ap, ◌∙◌,
}
use trace.Json.{hex, escape, escapes, push_string}
use trace.Prelude.{true, false, ◌≢◌, ℕ_discrete}

-- Where a reader is: between characters, behind a backslash, or before so many hexadecimal digits of
-- a character, with the value of those read.
pub data Mode : Type 0 where
  plain escaped : Mode
  unicode : ℕ → ℕ → Mode

-- What a letter behind a backslash stands for.
abbrev pub unescape : ℕ → Option ℕ
unescape c =
    if c == 34
    then some 34
    else if c == 92
    then some 92
    else if c == 47
    then some 47
    else if c == 98
    then some 8
    else if c == 102
    then some 12
    else if c == 110
    then some 10
    else if c == 114
    then some 13
    else if c == 116
    then some 9
    else none

abbrev pub unhex : ℕ → Option ℕ
unhex c =
    if leb 48 c && leb c 57
    then some (c - 48)
    else if leb 97 c && leb c 102
    then some (c - 87)
    else if leb 65 c && leb c 70
    then some (c - 55)
    else none

abbrev pub prepend : ℕ → Option (List ℕ × List ℕ) → Option (List ℕ × List ℕ)
prepend b none = none
prepend b (some (text, rest)) = some (b ∷ text, rest)

-- The text up to the closing quote, and the bytes behind it. Characters above ASCII are refused where
-- they are escaped, and pass as their bytes where they are not.
unfoldable pub read_text : Mode → List ℕ → Option (List ℕ × List ℕ)
read_text mode [] = none
read_text plain (c ∷ bytes) =
    let again = prepend c (read_text plain bytes) in
    let other = read_text escaped bytes in
    if c == 34
    then some ([], bytes)
    else if c == 92
    then other
    else if ltb c 32
    then none
    else again
read_text escaped (c ∷ bytes) =
    let again = read_text plain bytes in
    let other = read_text (unicode 4 0) bytes in
    if c == 117 then other else elim (unescape c) [ none ↦ none | some b ↦ prepend b again ]
read_text (unicode zero value) (c ∷ bytes) = none
read_text (unicode (suc left) value) (c ∷ bytes) = elim (unhex c) [
  | none ↦ none
  | some d ↦
      let more = read_text (unicode left (value * 16 + d)) bytes in
      let done = prepend (value * 16 + d) (read_text plain bytes) in
      if left == 0 then (if ltb (value * 16 + d) 128 then done else none) else more
]

unhex-hex : (d : ℕ) → d < 16 → unhex (hex d) ≡ some d
unhex-hex d h = ground arith

control_lem :
    (b : ℕ) (more : List ℕ)
    → b < 32
    → read_text plain (92 ∷ 117 ∷ 48 ∷ 48 ∷ hex (b / 16) ∷ hex (b % 16) ∷ more)
      ≡ prepend b (read_text plain more)
unfolding read_text
control_lem b more h =
    let high = unhex-hex (b / 16) (omega arith) in
    let low = unhex-hex (b % 16) (omega arith) in
    let e : (0 + b / 16) * 16 + b % 16 ≡ b = omega arith in
    let small : ltb b 128 ≡ true = ground arith in rw (high, low, e, small)

-- What `escape` does where no letter stands for the byte.
rest_lem :
    (b : ℕ) (more : List ℕ)
    → (b == 34) ≡ false
    → (b == 92) ≡ false
    → read_text plain (
        (if ltb b 32 then 92 ∷ 117 ∷ 48 ∷ 48 ∷ hex (b / 16) ∷ hex (b % 16) ∷ [] else b ∷ [])
        ++ more)
      ≡ prepend b (read_text plain more)
unfolding read_text
rest_lem b more quote backslash = elim (Bool-cases (ltb b 32)) [
  | inl control ↦ rw control (control_lem b more (omega tests))
  | inr visible ↦ rw (visible, quote, backslash, visible)
]

is_not : (a b : ℕ) → a ≢ b → (a == b) ≡ false
is_not a b h = ground arith

escape_lem :
    (b : ℕ) (more : List ℕ) → read_text plain (escape b ++ more) ≡ prepend b (read_text plain more)
unfolding read_text escape
escape_lem b more = elim (ℕ_discrete b 34) [
  | yes e ↦ rw e refl
  | no n34 ↦ elim (ℕ_discrete b 92) [
    | yes e ↦ rw e refl
    | no n92 ↦ elim (ℕ_discrete b 8) [
      | yes e ↦ rw e refl
      | no n8 ↦ elim (ℕ_discrete b 9) [
        | yes e ↦ rw e refl
        | no n9 ↦ elim (ℕ_discrete b 10) [
          | yes e ↦ rw e refl
          | no n10 ↦ elim (ℕ_discrete b 12) [
            | yes e ↦ rw e refl
            | no n12 ↦ elim (ℕ_discrete b 13) [
              | yes e ↦ rw e refl
              | no n13 ↦
                  let quote = is_not b 34 n34 in
                  let backslash = is_not b 92 n92 in
                  rw
                    (
                      escape,
                      quote,
                      backslash,
                      is_not b 8 n8,
                      is_not b 9 n9,
                      is_not b 10 n10,
                      is_not b 12 n12,
                      is_not b 13 n13,
                    )
                    (rest_lem b more quote backslash)
            ]
          ]
        ]
      ]
    ]
  ]
]

escapes_lem : (s rest : List ℕ) → read_text plain (escapes s ++ 34 ∷ rest) ≡ some (s, rest)
unfolding read_text escapes
escapes_lem [] rest = refl
escapes_lem (b ∷ s) rest =
    ap (read_text plain) (append_assoc (escape b) (escapes s) (34 ∷ rest))
    ∙ escape_lem b (escapes s ++ 34 ∷ rest)
    ∙ ap (prepend b) (escapes_lem s rest)

-- A string is put out between quotes, and a reader that follows the rules of JSON reads exactly its
-- bytes up to the closing quote, and stops there.
pub push_string-read :
    (s rest : List ℕ)
    → (body : List ℕ) × (push_string s ++ rest ≡ 34 ∷ body)
      × (read_text plain body ≡ some (s, rest))
unfolding push_string
push_string-read s rest = (
  escapes s ++ 34 ∷ rest,
  ap (◌∷◌ 34) (append_assoc (escapes s) (34 ∷ []) rest),
  escapes_lem s rest,
)
