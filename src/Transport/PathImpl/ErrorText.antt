-- ===== src/Transport/PathImpl/ErrorText.antt =====
-- internal/transport/path.go: how a path classifies an error, which it does by the words in the
-- error's text.
use kwik.Prelude.{ℕ, List, [], ◌∷◌, Bool, true, false, ◌||◌, ◌&&◌, ◌==◌, codes}

-- strings.HasPrefix(text, word)
unfoldable pub has_prefix : List ℕ → List ℕ → Bool
has_prefix text [] = true
has_prefix [] (w ∷ word) = false
has_prefix (c ∷ text) (w ∷ word) = (c == w) && has_prefix text word

-- strings.Contains(text, word)
unfoldable pub contains : List ℕ → List ℕ → Bool
contains [] word = has_prefix [] word
contains (c ∷ text) word = has_prefix (c ∷ text) word || contains text word

abbrev pub contains_any : List ℕ → List (List ℕ) → Bool
contains_any text [] = false
contains_any text (word ∷ words) = contains text word || contains_any text words

abbrev pub fatal_words : List (List ℕ)
fatal_words =
    codes "path closed"
    ∷ codes "Application error"
    ∷ codes "connection closed"
    ∷ codes "NO_ERROR"
    ∷ codes "INTERNAL_ERROR"
    ∷ codes "CONNECTION_REFUSED"
    ∷ codes "PROTOCOL_VIOLATION"
    ∷ []

abbrev pub recoverable_words : List (List ℕ)
recoverable_words =
    codes "timeout" ∷ codes "deadline exceeded" ∷ codes "stream reset" ∷ codes "stream closed" ∷ []

unfoldable pub is_fatal_connection_error : List ℕ → Bool
is_fatal_connection_error text = contains_any text fatal_words

unfoldable pub is_recoverable_stream_error : List ℕ → Bool
is_recoverable_stream_error text = contains_any text recoverable_words
