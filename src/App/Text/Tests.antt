-- ===== src/App/Text/Tests.antt =====
-- Tests of `split`.
use clyman.Prelude.{◌≡◌, refl, [], ◌∷◌}
use clyman.App.Text.{split}

split_path : split "/v1/object/key" "/" ≡ "v1" ∷ "object" ∷ "key" ∷ []
unfolding split
split_path = refl

-- Without a slash in front, the last character is lost.
split_words : split "one two" " " ≡ "one" ∷ "tw" ∷ []
unfolding split
split_words = refl
