-- ===== src/Base/Words.antt =====
-- More of Go's packages strings and strconv, over code points: searching, replacing, splitting and
-- joining. On ASCII texts a code point is a byte.
use Prim.Native.Nat.{ℕ, zero, suc, ◌-◌, ◌/◌, ◌%◌}
use Prim.Native.Char.{code}
use Prim.Native.String.{String, [], ◌∷◌, ◌++◌, char_at}
use mathlib.Core.Path.{◌≡◌, refl}
use mathlib.Core.Bool.{Bool, true, false}
use mathlib.Core.List.{List, [] as nil, ◌∷◌ as ◌▸◌}
use metawsm.Base.Tests.{leb, ◌==◌, nat_eq, if◌then◌else◌}

abbrev pub text_length : String → ℕ
text_length [] = 0
text_length (_ ∷ s) = suc (text_length s)

-- `strings.HasPrefix(s, start)`
unfoldable pub has_prefix : String → String → Bool
has_prefix [] s = true
has_prefix (p ∷ start) [] = false
has_prefix (p ∷ start) (c ∷ s) =
    let rest = has_prefix start s in if code p == code c then rest else false

-- `strings.Contains(s, part)`
unfoldable pub contains : String → String → Bool
unfolding has_prefix
contains part [] = has_prefix part []
contains part (c ∷ s) = let rest = contains part s in if has_prefix part (c ∷ s) then true else rest

-- `s[n:]`
unfoldable pub drop_text : ℕ → String → String
drop_text zero s = s
drop_text (suc n) [] = []
drop_text (suc n) (_ ∷ s) = drop_text n s

-- The number is that of the letters of a match that are still to be passed over.
replace_from : ℕ → String → String → String → String
unfolding has_prefix
replace_from n old new [] = []
replace_from (suc n) old new (c ∷ s) = replace_from n old new s
replace_from zero old new (c ∷ s) =
    let matched = replace_from (text_length old - 1) old new s in
    let unmatched = replace_from 0 old new s in
    if has_prefix old (c ∷ s) then new ++ matched else c ∷ unmatched

-- `strings.ReplaceAll(s, old, new)` for a text `old` that is not empty
unfoldable pub replace_all : String → String → String → String
unfolding replace_from
replace_all old new s = replace_from 0 old new s

-- `strings.Replace(s, old, new, 1)` for a text `old` that is not empty
unfoldable pub replace_first : String → String → String → String
unfolding has_prefix drop_text
replace_first old new [] = []
replace_first old new (c ∷ s) =
    let rest = replace_first old new s in
    if has_prefix old (c ∷ s) then new ++ drop_text (text_length old) (c ∷ s) else c ∷ rest

-- `strings.TrimPrefix(s, start)`
unfoldable pub trim_prefix : String → String → String
unfolding has_prefix drop_text
trim_prefix start s = if has_prefix start s then drop_text (text_length start) s else s

trim_dashes_left : String → String
trim_dashes_left [] = []
trim_dashes_left (c ∷ s) = let rest = trim_dashes_left s in if code c == 45 then rest else c ∷ s

abbrev keep_unless_dash : ℕ → String → String → String
keep_unless_dash c start [] = if c == 45 then [] else start
keep_unless_dash c start (d ∷ s) = start ++ d ∷ s

trim_dashes_right : String → String
trim_dashes_right [] = []
trim_dashes_right (c ∷ s) = keep_unless_dash (code c) (c ∷ []) (trim_dashes_right s)

-- `strings.Trim(s, "-")`
unfoldable pub trim_dashes : String → String
unfolding trim_dashes_left trim_dashes_right
trim_dashes s = trim_dashes_right (trim_dashes_left s)

-- `for strings.Contains(s, "--") { s = strings.ReplaceAll(s, "--", "-") }`: each round shortens
-- the text.
squeeze_dashes : ℕ → String → String
unfolding contains replace_all
squeeze_dashes zero s = s
squeeze_dashes (suc n) s =
    let rest = squeeze_dashes n (replace_all "--" "-" s) in if contains "--" s then rest else s

unfoldable pub single_dashes : String → String
unfolding squeeze_dashes
single_dashes s = squeeze_dashes (text_length s) s

-- `strings.Join(parts, between)`
unfoldable pub join : String → List String → String
join between nil = []
join between (s ▸ nil) = s
join between (s ▸ t ▸ rest) = s ++ between ++ join between (t ▸ rest)

abbrev push_char : String → List String → List String
push_char c nil = c ▸ nil
push_char c (s ▸ rest) = (c ++ s) ▸ rest

-- `strings.Split(s, ",")`
unfoldable pub split_commas : String → List String
split_commas [] = [] ▸ nil
split_commas (c ∷ s) =
    let rest = split_commas s in if code c == 44 then [] ▸ rest else push_char (c ∷ []) rest

digits : ℕ → ℕ → String
digits zero n = []
digits (suc fuel) n =
    let more = digits fuel (n / 10) in
    let last = char_at "0123456789" (n % 10) ∷ [] in if leb n 9 then last else more ++ last

-- `strconv.Itoa`: a number has no more digits than itself and one.
unfoldable pub decimal : ℕ → String
unfolding digits
decimal n = digits (suc n) n

replace_test : replace_all "--" "-" "a----b-c" ≡ "a--b-c"
unfolding replace_all
replace_test = refl

single_test : trim_dashes (single_dashes "--a----b-c--") ≡ "a-b-c"
unfolding single_dashes trim_dashes
single_test = refl

split_test : join "|" (split_commas "a,,b") ≡ "a||b"
unfolding join split_commas
split_test = refl

decimal_test : decimal 1204 ≡ "1204"
unfolding decimal
decimal_test = refl
