-- ===== src/Recording/Names.antt =====
-- `DirSink::open` of crates/py/src/recording.rs: the file of a dump. A text is a list of the numbers of
-- its characters.
use trace.Prelude.{
  All, All-append, Bool, Bool-cases, List, Option, [], arith, if◌then◌else◌, inl, inr, leb, map,
  none, refl, some, suc, true, zero, ℕ, ◌%◌, ◌&&◌, ◌++◌, ◌+◌, ◌-◌, ◌/◌, ◌==◌, ◌^◌, ◌||◌, ◌∷◌, ◌≡◌,
}
use trace.Format.{Format}
use trace.Format.{Format, json, protobuf, pprof}
use trace.Prelude.{false, ℕ_discrete, ◌<◌, ◌≤◌}

-- `is_ascii_alphanumeric`
abbrev pub is_alphanumeric : ℕ → Bool
is_alphanumeric c = (leb 48 c && leb c 57) || (leb 65 c && leb c 90) || (leb 97 c && leb c 122)

-- `.`, `_` and `-` are 46, 95 and 45.
abbrev pub is_safe : ℕ → Bool
is_safe c = is_alphanumeric c || c == 46 || c == 95 || c == 45

unfoldable pub safe : List ℕ → List ℕ
safe reason = map (λ c. if is_safe c then c else 45) reason

-- The digits of a number, which has no more of them than the fuel.
unfoldable pub digits : ℕ → ℕ → List ℕ
digits zero n = []
digits (suc fuel) n =
    let front = digits fuel (n / 10) in (if n / 10 == 0 then [] else front) ++ (48 + n % 10) ∷ []

unfoldable pub decimal : ℕ → List ℕ
decimal n = digits (suc n) n

unfoldable pub ext : Format → List ℕ
ext json = 106 ∷ 115 ∷ 111 ∷ 110 ∷ []
ext protobuf = 112 ∷ 98 ∷ []
ext pprof = 112 ∷ 112 ∷ 114 ∷ 111 ∷ 102 ∷ []

-- The tag of a serial number, empty for the first.
unfoldable pub tag : ℕ → List ℕ
unfolding decimal
tag serial = if serial == 1 then [] else 45 ∷ decimal serial

unfoldable pub file_name : ℕ → List ℕ → Format → ℕ → ℕ → List ℕ
unfolding safe tag ext decimal
file_name stamp reason format pid serial =
    decimal stamp
    ++ 45 ∷ safe reason
    ++ tag serial
    ++ (if pid == 0 then [] else 46 ∷ decimal pid)
    ++ 46 ∷ ext format

-- What the file system and the exporters do. `opens` is `Format::open`.
pub record Files (PathBuf E : Type 0) : Type 0 where
  pub join : List ℕ → PathBuf
  pub exists : PathBuf → Bool
  pub to_str : PathBuf → Option (List ℕ)
  pub opens : List ℕ → ℕ → Option E

-- How `open` ends; `exhausted` is its `unreachable!`.
pub data Opened (E : Type 0) : Type 0 where
  file : List ℕ → E → Opened E
  failed : Opened E
  exhausted : Opened E

module _ {PathBuf E : Type 0} (files : Files PathBuf E) where
  open files use {join, exists, to_str, opens}

  abbrev pub made : List ℕ → Option E → Opened E
  made path none = failed
  made path (some e) = file path e

  abbrev pub opened_at : ℕ → Option (List ℕ) → Opened E
  opened_at pid none = failed
  opened_at pid (some path) = made path (opens path pid)

  -- The loop over the serial numbers, so many of them from one on.
  unfoldable pub first_free : ℕ → ℕ → ℕ → List ℕ → Format → ℕ → Opened E
  unfolding file_name
  first_free zero serial stamp reason format pid = exhausted
  first_free (suc left) serial stamp reason format pid =
      let path = join (file_name stamp reason format pid serial) in
      let later = first_free left (serial + 1) stamp reason format pid in
      if exists path then later else opened_at pid (to_str path)

  -- `open`, at a time in milliseconds, which the clock may fail to give.
  unfoldable pub open_dump : Option ℕ → List ℕ → Format → ℕ → Opened E
  unfolding first_free
  open_dump none reason format pid = failed
  open_dump (some stamp) reason format pid = first_free (2 ^ 32 - 1) 1 stamp reason format pid

-- Letters, digits, `.`, `_` and `-`.
abbrev pub IsPlain : List ℕ → Type 0
IsPlain text = All (λ c. is_safe c ≡ true) text

safe-IsPlain : (reason : List ℕ) → IsPlain (safe reason)
unfolding safe
safe-IsPlain [] = tt
safe-IsPlain (c ∷ reason) = (
  elim (Bool-cases (is_safe c)) [ inl kept ↦ rw kept kept | inr other ↦ rw other refl ],
  safe-IsPlain reason,
)

digits-IsPlain : (fuel n : ℕ) → IsPlain (digits fuel n)
unfolding digits
digits-IsPlain zero n = tt
digits-IsPlain (suc fuel) n = shown (digits-IsPlain fuel (n / 10))
  where
    shown :
        IsPlain (digits fuel (n / 10))
        → IsPlain ((if n / 10 == 0 then [] else digits fuel (n / 10)) ++ (48 + n % 10) ∷ [])
    shown h =
        All-append _ (if n / 10 == 0 then [] else digits fuel (n / 10)) _
          (elim (Bool-cases (n / 10 == 0)) [ inl small ↦ rw small tt | inr more ↦ rw more h ])
          (ground arith, tt)

tag-IsPlain : (serial : ℕ) → IsPlain (tag serial)
unfolding tag decimal
tag-IsPlain serial = elim (Bool-cases (serial == 1)) [
  | inl first ↦ rw first tt
  | inr later ↦ rw later (refl, digits-IsPlain (suc serial) serial)
]

pid-IsPlain : (pid : ℕ) → IsPlain (if pid == 0 then [] else 46 ∷ decimal pid)
unfolding decimal
pid-IsPlain pid = elim (Bool-cases (pid == 0)) [
  | inl parent ↦ rw parent tt
  | inr child ↦ rw child (refl, digits-IsPlain (suc pid) pid)
]

ext-IsPlain : (format : Format) → IsPlain (ext format)
unfolding ext
ext-IsPlain json = (refl, (refl, (refl, (refl, tt))))
ext-IsPlain protobuf = (refl, (refl, tt))
ext-IsPlain pprof = (refl, (refl, (refl, (refl, (refl, tt)))))

both : (xs ys : List ℕ) → IsPlain xs → IsPlain ys → IsPlain (xs ++ ys)
both xs ys h k = All-append _ xs ys h k

file_name-IsPlain :
    (stamp : ℕ) (reason : List ℕ) (format : Format) (pid serial : ℕ)
    → IsPlain (file_name stamp reason format pid serial)
unfolding file_name decimal
file_name-IsPlain stamp reason format pid serial =
    let front : List ℕ = decimal stamp ++ 45 ∷ safe reason in
    let tagged : List ℕ = front ++ tag serial in
    let shown : List ℕ = if pid == 0 then [] else 46 ∷ decimal pid in
    both (tagged ++ shown) (46 ∷ ext format)
      (both tagged shown
        (both front (tag serial)
          (both (decimal stamp) (45 ∷ safe reason) (digits-IsPlain (suc stamp) stamp)
            (refl, safe-IsPlain reason))
          (tag-IsPlain serial))
        (pid-IsPlain pid))
      (refl, ext-IsPlain format)

module _ {PathBuf E : Type 0} (files : Files PathBuf E) (stamp : ℕ) (reason : List ℕ)
    (format : Format) (pid : ℕ) where
  abbrev pub path_of : ℕ → PathBuf
  path_of serial = files.join (file_name stamp reason format pid serial)

  -- The serial number is the first, from `serial` on, whose file does not exist.
  abbrev pub IsFirst : ℕ → ℕ → Type 0
  IsFirst serial found =
      (serial ≤ found)
      × (files.exists (path_of found) ≡ false)
      × ((k : ℕ) → serial ≤ k → k < found → files.exists (path_of k) ≡ true)

  first_free-IsFirst :
      (left serial free : ℕ)
      → serial ≤ free
      → free < serial + left
      → files.exists (path_of free) ≡ false
      → (found : ℕ) × IsFirst serial found
        × (found ≤ free)
        × (first_free files left serial stamp reason format pid
            ≡ opened_at files pid (files.to_str (path_of found)))
  unfolding first_free
  first_free-IsFirst zero serial free h k e = absurd (omega arith)
  first_free-IsFirst (suc left) serial free h k e =
      elim (Bool-cases (files.exists (path_of serial))) [
        | inr absent ↦ (
          serial,
          (omega arith, absent, λ j a b. absurd (omega arith)),
          h,
          rw (first_free, absent) refl,
        )
        | inl taken ↦
            let more : serial + 1 ≤ free = elim (ℕ_discrete serial free) [
              | yes same ↦ let there : files.exists (path_of serial) ≡ false = rw same e in cc
              | no apart ↦ omega arith
            ] in
            let (found, (from, absent, before), below, run) =
              first_free-IsFirst left (serial + 1) free more (omega arith) e in
            (
              found,
              (
                omega (arith, from),
                absent,
                λ j a b. elim (ℕ_discrete serial j) [
                  | yes same ↦ rw⁻¹ same taken
                  | no apart ↦ before j (omega arith) b
                ],
              ),
              below,
              rw (first_free, taken) run,
            )
      ]

  -- If some serial number that fits a `u32` has no file yet, then a dump at a given time goes to the
  -- first of them, and its name has letters, digits, `.`, `_` and `-` only, so that it stays in the
  -- directory whatever the reason is: no file that exists is written over.
  pub open_dump-IsFirst :
      (free : ℕ)
      → 1 ≤ free
      → free < 2 ^ 32
      → files.exists (path_of free) ≡ false
      → (found : ℕ) × IsFirst 1 found
        × (found ≤ free)
        × IsPlain (file_name stamp reason format pid found)
        × (open_dump files (some stamp) reason format pid
            ≡ opened_at files pid (files.to_str (path_of found)))
  unfolding open_dump
  open_dump-IsFirst free h k e =
      let (found, first, below, run) = first_free-IsFirst (2 ^ 32 - 1) 1 free h (omega arith) e in
      (found, first, below, file_name-IsPlain stamp reason format pid found, run)
