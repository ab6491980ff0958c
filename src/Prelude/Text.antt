-- ===== src/Prelude/Text.antt =====
-- What the program uses of Go's packages strings and strconv.
pub mod Parts
use Prim.Native.Nat.{ℕ, zero, suc, ◌+◌, ◌-◌, ◌*◌, ◌^◌, ◌/◌, ◌%◌}
use Prim.Native.Char.{Char, code}
use Prim.Native.String.{String, count}
pub use Prim.Native.String.{◌++◌ as ◌⊕◌}
use mathlib.Core.Path.{◌≡◌, refl}
use mathlib.Core.Bool.{Bool, true, false, ◌&&◌, ◌||◌}
use mathlib.Core.Option.{Option, none, some}
use mathlib.Core.List.{List, [], ◌∷◌}
use text.Mathlib.Text.{starts_with}
use container_egress_service.Prelude.Tests.{ltb, leb, nat_eq, if◌then◌else◌}
use container_egress_service.Prelude.Int.{ℤ, pos, negate}

-- One step of `split`: a separator begins a new part, any other character extends the first.
abbrev pub split_step : Bool → Char → List String → List String
split_step true c parts = "" ∷ parts
split_step false c [] = (String.◌∷◌ c "") ∷ []
split_step false c (part ∷ parts) = (String.◌∷◌ c part) ∷ parts

-- strings.Split(s, sep) for a separator of one character, given by its code
unfoldable pub split : ℕ → String → List String
split sep String.[] = "" ∷ []
split sep (String.◌∷◌ c s) = split_step (nat_eq (code c) sep) c (split sep s)

-- strings.Contains(s, t)
unfoldable pub contains : String → String → Bool
contains String.[] t = starts_with "" t
contains (String.◌∷◌ c s) t = starts_with (String.◌∷◌ c s) t || contains s t

-- `skip` characters are still part of the last match
replace_from : String → String → ℕ → String → String
replace_from old new skip String.[] = ""
replace_from old new (suc skip) (String.◌∷◌ c s) = replace_from old new skip s
replace_from old new zero (String.◌∷◌ c s) =
    let hit = starts_with (String.◌∷◌ c s) old in
    (if hit then new else String.◌∷◌ c "")
    ⊕ replace_from old new (if hit then count old - 1 else 0) s

-- strings.ReplaceAll(s, old, new), for an `old` that is not empty
unfoldable pub replace_all : String → String → String → String
unfolding replace_from
replace_all s old new = replace_from old new 0 s

abbrev translate : String → String → Char → Char
translate (String.◌∷◌ u us) (String.◌∷◌ l ls) c =
    if nat_eq (code c) (code u) then l else translate us ls c
translate _ _ c = c

-- strings.ToLower(s), for ASCII letters; other characters stay as they are
unfoldable pub to_lower : String → String
to_lower String.[] = ""
to_lower (String.◌∷◌ c s) =
    String.◌∷◌ (translate "ABCDEFGHIJKLMNOPQRSTUVWXYZ" "abcdefghijklmnopqrstuvwxyz" c) (to_lower s)

-- unicode.IsSpace
is_space : ℕ → Bool
is_space c =
    (leb 9 c && leb c 13)
    || nat_eq c 32
    || nat_eq c 0x85
    || nat_eq c 0xA0
    || nat_eq c 0x1680
    || (leb 0x2000 c && leb c 0x200a)
    || nat_eq c 0x2028
    || nat_eq c 0x2029
    || nat_eq c 0x202f
    || nat_eq c 0x205f
    || nat_eq c 0x3000

-- strings.TrimSpace(s) == ""
unfoldable pub is_blank : String → Bool
unfolding is_space
is_blank String.[] = true
is_blank (String.◌∷◌ c s) = is_space (code c) && is_blank s

-- strings.Join(parts, sep)
unfoldable pub join : String → List String → String
join sep [] = ""
join sep (part ∷ []) = part
join sep (part ∷ next ∷ parts) = part ⊕ (sep ⊕ join sep (next ∷ parts))

parse_digits : ℕ → String → Option ℕ
parse_digits n String.[] = some n
parse_digits n (String.◌∷◌ c s) =
    let rest = parse_digits (n * 10 + (code c - 48)) s in
    if leb 48 (code c) && leb (code c) 57 then rest else none

-- at least one digit
parse_number : String → Option ℕ
unfolding parse_digits
parse_number String.[] = none
parse_number (String.◌∷◌ c s) = parse_digits 0 (String.◌∷◌ c s)

abbrev below : ℕ → (ℕ → ℤ) → Option ℕ → Option ℤ
below bound f none = none
below bound f (some n) = if ltb n bound then some (f n) else none

-- strconv.Atoi on a 64-bit machine: `none` is the error
unfoldable pub atoi : String → Option ℤ
unfolding parse_number
atoi String.[] = none
atoi (String.◌∷◌ c s) =
    if nat_eq (code c) b'-'
    then below (2 ^ 63 + 1) negate (parse_number s)
    else if nat_eq (code c) b'+'
    then below (2 ^ 63) pos (parse_number s)
    else below (2 ^ 63) pos (parse_number (String.◌∷◌ c s))

char_at : ℕ → String → String
char_at n String.[] = ""
char_at zero (String.◌∷◌ c s) = String.◌∷◌ c ""
char_at (suc n) (String.◌∷◌ c s) = char_at n s

digit : ℕ → String
unfolding char_at
digit n = char_at n "0123456789"

-- a number has no more digits than `suc n`
decimal_from : ℕ → ℕ → String
unfolding digit
decimal_from zero n = ""
decimal_from (suc fuel) n =
    let higher = decimal_from fuel (n / 10) in if ltb n 10 then digit n else higher ⊕ digit (n % 10)

-- the verb %d of fmt.Sprintf, for a number that is not negative
unfoldable pub decimal : ℕ → String
unfolding decimal_from
decimal n = decimal_from (suc n) n

decimal_120 : decimal 120 ≡ "120"
unfolding decimal
decimal_120 = refl

split_path : split b'/' "/Common/Shared/a" ≡ "" ∷ "Common" ∷ "Shared" ∷ "a" ∷ []
unfolding split
split_path = refl

contains_middle : contains "abcd" "bc" ≡ true
unfolding contains
contains_middle = refl

replace_cluster : replace_all "k8s_a_k8s" "k8s" "m" ≡ "m_a_m"
unfolding replace_all
replace_cluster = refl

lower_tcp : to_lower "TcP6" ≡ "tcp6"
unfolding to_lower
lower_tcp = refl

atoi_port : atoi "514" ≡ some (pos 514)
unfolding atoi
atoi_port = refl

atoi_bad : atoi "5x" ≡ none
unfolding atoi
atoi_bad = refl
