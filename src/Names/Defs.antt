-- ===== src/Names/Defs.antt =====
-- `slugify` and `normalize_participant` of src/betmaxxing/domain/ids.py, with what they call of
-- Python's `str`, `unicodedata` and `datetime` as parameters.
use Prim.Native.Char.{Char, char, code}
use Prim.Native.String.{[] as empty_text, ◌∷◌ as text_cons, ◌++◌ as text_append}
use betmaxxing.Prelude.{
  ℕ, String, Bool, true, false, ◌&&◌, ◌||◌, not, List, [], ◌∷◌, map, str_eq, leb, ◌==◌,
  if◌then◌else◌,
}
use betmaxxing.Table.{select}

-- `unicodedata.normalize("NFKD", s)`, `unicodedata.combining`, `str.lower`, `str.strip`,
-- `str.casefold`, `datetime.isoformat`, `str` of an `int`
pub record Python : Type 0 where
  pub nfkd : String → String
  pub combining : Char → Bool
  pub lower : String → String
  pub strip : String → String
  pub casefold : String → String
  pub isoformat : ℕ → String
  pub str_of : ℕ → String

abbrev pub chars : String → List Char
chars empty_text = []
chars (text_cons c s) = c ∷ chars s

abbrev pub of_chars : List Char → String
of_chars [] = ""
of_chars (c ∷ cs) = text_cons c (of_chars cs)

abbrev pub dash : Char
dash = char 45 tt

-- `[a-z0-9]`
abbrev pub is_alnum : Char → Bool
is_alnum c = leb 97 (code c) && leb (code c) 122 || leb 48 (code c) && leb (code c) 57

-- `_NON_ALNUM.sub("-", ...)`: one dash for each run; `in_run` while a run is open
unfoldable pub sub_non_alnum : Bool → List Char → List Char
sub_non_alnum in_run [] = if in_run then dash ∷ [] else []
sub_non_alnum in_run (c ∷ cs) =
    let word = sub_non_alnum false cs in
    let gap = sub_non_alnum true cs in
    if is_alnum c then (if in_run then dash ∷ c ∷ word else c ∷ word) else gap

abbrev pub is_dash : Char → Bool
is_dash c = code c == 45

-- `.strip("-")`, from the left and from the right
unfoldable pub strip_left : List Char → List Char
strip_left [] = []
strip_left (c ∷ cs) = let rest = strip_left cs in if is_dash c then rest else c ∷ cs

abbrev pub cons_unless_dash : Char → List Char → List Char
cons_unless_dash c [] = if is_dash c then [] else c ∷ []
cons_unless_dash c (d ∷ ds) = c ∷ d ∷ ds

unfoldable pub strip_right : List Char → List Char
strip_right [] = []
strip_right (c ∷ cs) = cons_unless_dash c (strip_right cs)

unfoldable pub slugify : Python → String → List Char
unfolding sub_non_alnum strip_left strip_right
slugify python value =
    let ascii_only = select (λ c. not (python.combining c)) (chars (python.nfkd value)) in
    strip_right (strip_left (sub_non_alnum false (chars (python.lower (of_chars ascii_only)))))

abbrev pub cons_first : Char → List (List Char) → List (List Char)
cons_first c [] = (c ∷ []) ∷ []
cons_first c (t ∷ ts) = (c ∷ t) ∷ ts

-- `.split("-")`
unfoldable pub split_dash : List Char → List (List Char)
split_dash [] = [] ∷ []
split_dash (c ∷ cs) = let rest = split_dash cs in if is_dash c then [] ∷ rest else cons_first c rest

abbrev pub is_word : List Char → Bool
is_word [] = false
is_word (c ∷ cs) = true

abbrev pub is_among : String → List String → Bool
is_among s [] = false
is_among s (x ∷ xs) = str_eq x s || is_among s xs

abbrev pub noise_tokens : List String
noise_tokens =
    "fc" ∷ "cf" ∷ "sc" ∷ "ac" ∷ "afc" ∷ "cd" ∷ "ud" ∷ "us" ∷ "sv" ∷ "vfl" ∷ "vfb" ∷ "bsc" ∷ "club"
    ∷ "de" ∷ "the" ∷ []

-- `"-".join`
unfoldable pub join_dash : List String → String
join_dash [] = ""
join_dash (t ∷ []) = t
join_dash (t ∷ u ∷ ts) = text_append t (text_append "-" (join_dash (u ∷ ts)))

-- `meaningful or tokens`
abbrev pub or_else : List String → List String → List String
or_else [] tokens = tokens
or_else (t ∷ ts) tokens = t ∷ ts

unfoldable pub normalize_participant : Python → String → String
unfolding slugify split_dash join_dash
normalize_participant python name =
    let tokens = map of_chars (select is_word (split_dash (slugify python name))) in
    join_dash (or_else (select (λ t. not (is_among t noise_tokens)) tokens) tokens)
