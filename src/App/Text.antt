-- ===== src/App/Text.antt =====
-- src/app/include/clyman_utils.h: `split` and `split_from_index`
mod Tests
use Prim.Native.Char.{Char, code}
use Prim.Native.String.{[] as empty_text, ◌∷◌ as text_cons}
use clyman.Prelude.{ℕ, zero, suc, ◌-◌, String, ◌==◌, nat_eq, List, [], ◌∷◌, if◌then◌else◌}

size : String → ℕ
size empty_text = 0
size (text_cons c s) = suc (size s)

first_chars : ℕ → String → String
first_chars zero s = empty_text
first_chars (suc n) empty_text = empty_text
first_chars (suc n) (text_cons c s) = text_cons c (first_chars n s)

-- `input.substr(start, count)` for a start of 0 or 1, as `split` uses it.
substr : ℕ → ℕ → String → String
unfolding first_chars
substr zero count s = first_chars count s
substr (suc start) count empty_text = empty_text
substr (suc start) count (text_cons c s) = substr start count s

onto_first : Char → List String → List String
onto_first c [] = text_cons c empty_text ∷ []
onto_first c (item ∷ items) = text_cons c item ∷ items

-- The items that `std::getline` gives until the stream is at its end: there is none behind a
-- delimiter that ends the text.
getlines : Char → String → List String
unfolding onto_first
getlines delim empty_text = []
getlines delim (text_cons c s) =
    let rest = getlines delim s in
    if code c == code delim then empty_text ∷ rest else onto_first c rest

-- The count is one less than the size, also from the start of the text.
unfoldable pub split_from_index : String → Char → ℕ → List String
unfolding getlines substr size
split_from_index input delim start = getlines delim (substr start (size input - 1) input)

unfoldable pub split : String → Char → List String
unfolding split_from_index
split empty_text delim = split_from_index empty_text delim 0
split (text_cons c s) delim =
    if code c == b'/'
    then split_from_index (text_cons c s) delim 1
    else split_from_index (text_cons c s) delim 0
