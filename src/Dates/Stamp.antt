-- ===== src/Dates/Stamp.antt =====
-- `time.Parse` with the layouts "2006-01-02T15:04:05" and RFC 3339, on code points. Each takes a
-- fraction of a second that its layout does not name.
use cobalt_dingo.Prelude.{
  ℕ, suc, ◌+◌, ◌*◌, ◌/◌, ◌^◌, Bool, ◌&&◌, ◌||◌, Option, none, some, List, [], ◌∷◌, ltb, leb, ◌==◌,
  if◌then◌else◌, Result, ok, err, ◌>>=◌,
}
use cobalt_dingo.Prelude.Int.{ℤ, pos, negsuc, ◌+ℤ◌, ◌-ℤ◌}
use cobalt_dingo.Dates.{Instant, digit, digits_two, parse_codes}

abbrev pub Parsed : Type 0 → Type 0
Parsed A = Result (Unit {0}) A

abbrev pub parsed : {A : Type 0} → Option A → Parsed A
parsed none = err tt
parsed (some a) = ok a

-- An hour has one digit or two.
abbrev read_hour : List ℕ → Parsed (ℕ × List ℕ)
read_hour (a ∷ b ∷ rest) = parsed (digit a) >>= λ x. elim (digit b) [
  | none ↦ ok (x, b ∷ rest)
  | some y ↦ ok (10 * x + y, rest)
]
read_hour other = err tt

-- The minutes and the seconds: the seconds of the day, and what follows.
abbrev read_minutes : ℕ → List ℕ → Parsed (ℕ × List ℕ)
read_minutes hour (c1 ∷ m1 ∷ m2 ∷ c2 ∷ s1 ∷ s2 ∷ rest) = parsed (digits_two m1 m2) >>= λ minute.
    parsed (digits_two s1 s2) >>= λ second.
    if c1 == b':' && c2 == b':' && ltb hour 24 && ltb minute 60 && ltb second 60
    then ok (3600 * hour + 60 * minute + second, rest)
    else err tt
read_minutes hour other = err tt

-- Digits of a fraction, the first of which counts `scale` nanoseconds.
unfoldable pub read_digits : ℕ → List ℕ → ℕ × List ℕ
read_digits scale [] = (0, [])
read_digits scale (c ∷ cs) =
    let (ns, rest) = read_digits (scale / 10) cs in
    elim (digit c) [ none ↦ (0, c ∷ cs) | some d ↦ (scale * d + ns, rest) ]

abbrev read_fraction : List ℕ → ℕ × List ℕ
read_fraction (p ∷ c ∷ cs) = elim (digit c) [
  | none ↦ (0, p ∷ c ∷ cs)
  | some d ↦ if p == b'.' || p == b',' then read_digits (10 ^ 8) (c ∷ cs) else (0, p ∷ c ∷ cs)
]
read_fraction other = (0, other)

-- The seconds that the zone is ahead of UTC.
abbrev read_offset : ℕ → ℕ → Parsed ℤ
read_offset sign ahead =
    if sign == b'+'
    then ok (pos ahead)
    else if sign == b'-'
    then ok (pos 0 -ℤ pos ahead)
    else err tt

abbrev read_zone : List ℕ → Parsed ℤ
read_zone (c ∷ []) = if c == b'Z' then ok (pos 0) else err tt
read_zone (sign ∷ h1 ∷ h2 ∷ c ∷ m1 ∷ m2 ∷ []) = parsed (digits_two h1 h2) >>= λ hour.
    parsed (digits_two m1 m2) >>= λ minute.
    if c == b':' && leb hour 24 && leb minute 60
    then read_offset sign (3600 * hour + 60 * minute)
    else err tt
read_zone other = err tt

abbrev no_zone : List ℕ → Parsed ℤ
no_zone [] = ok (pos 0)
no_zone (c ∷ cs) = err tt

abbrev nanoseconds : ℕ → ℕ
nanoseconds seconds = 10 ^ 9 * seconds

abbrev scale_ℤ : ℤ → ℤ
scale_ℤ (pos n) = pos (nanoseconds n)
scale_ℤ (negsuc n) = pos 0 -ℤ pos (nanoseconds (suc n))

abbrev at_clock : Bool → Instant → List ℕ → Parsed Instant
at_clock zoned day text = read_hour text >>= λ (hour, rest).
    read_minutes hour rest >>= λ (seconds, rest1).
    let (ns, rest2) = read_fraction rest1 in
    (if zoned then read_zone rest2 else no_zone rest2) >>= λ ahead.
    ok ((day +ℤ pos (nanoseconds seconds + ns)) -ℤ scale_ℤ ahead)

-- `time.Parse`, with the zone of RFC 3339 or with none.
unfoldable pub parse_stamp : Bool → List ℕ → Parsed Instant
parse_stamp zoned (y1 ∷ y2 ∷ y3 ∷ y4 ∷ s1 ∷ m1 ∷ m2 ∷ s2 ∷ d1 ∷ d2 ∷ t ∷ text) =
    parsed (parse_codes (y1 ∷ y2 ∷ y3 ∷ y4 ∷ s1 ∷ m1 ∷ m2 ∷ s2 ∷ d1 ∷ d2 ∷ [])) >>= λ day.
    if t == b'T' then at_clock zoned day text else err tt
parse_stamp zoned other = err tt
