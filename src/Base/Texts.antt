-- ===== src/Base/Texts.antt =====
-- What the program does with texts: `split`, `" ".join`, `strip`, `len` and slices from the front.
use Prim.Native.Nat.{ℕ, zero, suc}
use Prim.Native.Char.{Char, code}
use Prim.Native.String.{String}
use mathlib.Core.Bool.{Bool, false, not, ◌&&◌, ◌||◌}
use mathlib.Core.Option.{some}
use mathlib.Core.List.{List, [], ◌∷◌}
use fleet_lm.Base.Tests.{leb, ◌==◌, if◌then◌else◌, non_empty, same_text}

-- `str.isspace` of one character.
unfoldable pub is_space : ℕ → Bool
is_space c =
    (leb 9 c && leb c 13)
    || (leb 28 c && leb c 32)
    || c == 0x85
    || c == 0xa0
    || c == 0x1680
    || (leb 0x2000 c && leb c 0x200a)
    || c == 0x2028
    || c == 0x2029
    || c == 0x202f
    || c == 0x205f
    || c == 0x3000

-- `a + b`
unfoldable pub concat : String → String → String
concat String.[] t = t
concat (String.◌∷◌ c s) t = String.◌∷◌ c (concat s t)

-- `len(s)`, in characters.
unfoldable pub len : String → ℕ
len String.[] = 0
len (String.◌∷◌ c s) = suc (len s)

-- `s[:n]`
unfoldable pub prefix : ℕ → String → String
prefix zero s = String.[]
prefix (suc n) String.[] = String.[]
prefix (suc n) (String.◌∷◌ c s) = String.◌∷◌ c (prefix n s)

-- Puts a word in front of others, unless it is empty.
unfoldable pub add_word : String → List String → List String
unfolding non_empty
add_word w ws = if non_empty w then w ∷ ws else ws

-- One character of the scan below: a space ends the word that follows it.
unfoldable pub scan_char : Char → String × List String → String × List String
unfolding is_space add_word
scan_char c (w, ws) = if is_space (code c) then (String.[], add_word w ws) else (String.◌∷◌ c w, ws)

-- The characters up to the first space, and the words behind it.
unfoldable pub scan : String → String × List String
unfolding scan_char
scan String.[] = (String.[], [])
scan (String.◌∷◌ c s) = scan_char c (scan s)

-- `s.split()`
unfoldable pub split : String → List String
unfolding scan add_word
split s = let (w, ws) = scan s in add_word w ws

-- `" ".join(words)`
unfoldable pub join : List String → String
unfolding concat
join [] = String.[]
join (w ∷ []) = w
join (w ∷ v ∷ ws) = concat w (concat " " (join (v ∷ ws)))

-- `" ".join(s.split())`
unfoldable pub normalise : String → String
unfolding split join
normalise s = join (split s)

lstrip : String → String
unfolding is_space
lstrip String.[] = String.[]
lstrip (String.◌∷◌ c s) = let rest = lstrip s in if is_space (code c) then rest else String.◌∷◌ c s

rstrip : String → String
unfolding is_space non_empty
rstrip String.[] = String.[]
rstrip (String.◌∷◌ c s) =
    let rest = rstrip s in
    if is_space (code c)
    then if non_empty rest then String.◌∷◌ c rest else String.[]
    else String.◌∷◌ c rest

-- `s.strip()`
unfoldable pub strip : String → String
unfolding lstrip rstrip
strip s = rstrip (lstrip s)

-- `s.rstrip("/")`
unfoldable pub rstrip_slash : String → String
unfolding non_empty
rstrip_slash String.[] = String.[]
rstrip_slash (String.◌∷◌ c s) =
    let rest = rstrip_slash s in
    if non_empty rest || not (code c == 47) then String.◌∷◌ c rest else String.[]

-- `s.endswith(suffix)`
unfoldable pub ends_with : String → String → Bool
ends_with suffix String.[] = same_text (some String.[]) (some suffix)
ends_with suffix (String.◌∷◌ c s) =
    same_text (some (String.◌∷◌ c s)) (some suffix) || ends_with suffix s

slash_first : String → Bool
slash_first String.[] = false
slash_first (String.◌∷◌ c s) = code c == 47

-- `"//" in s`
unfoldable pub has_slashes : String → Bool
unfolding slash_first
has_slashes String.[] = false
has_slashes (String.◌∷◌ c s) = (code c == 47 && slash_first s) || has_slashes s
