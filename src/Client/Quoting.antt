-- ===== src/Client/Quoting.antt =====
-- The helpers of src/ut/main.cpp that make texts for other programs.
use undying_terminal.Prelude.{ℕ, zero, suc, ◌||◌, List, [], ◌∷◌, ◌++◌, ◌==◌, if◌then◌else◌, Bytes}
use undying_terminal.Text.{is_empty, codes, contains, ends_in}

-- `GenerateRandom`, and `gen_random` of the terminal: the letters that the distribution picks.
unfoldable pub letter : ℕ → Bytes → ℕ
letter n [] = 0
letter zero (c ∷ s) = c
letter (suc n) (c ∷ s) = letter n s

abbrev pub letters : Bytes
letters = codes "0123456789ABCDEFGHIJKLMNOPQRSTUVWXYZabcdefghijklmnopqrstuvwxyz"

unfoldable pub generate_random : List ℕ → Bytes
generate_random [] = []
generate_random (n ∷ ns) = letter n letters ∷ generate_random ns

-- `NormalizeCommand`
unfoldable pub normalize_command : Bytes → Bytes
normalize_command command =
    if is_empty command
    then command
    else if ends_in 10 command || ends_in 13 command
    then command
    else command ++ 13 ∷ 10 ∷ []

-- `EscapeForDoubleQuotes`
unfoldable pub escape_for_double_quotes : Bytes → Bytes
escape_for_double_quotes [] = []
escape_for_double_quotes (c ∷ s) =
    let rest = c ∷ escape_for_double_quotes s in
    if (c == b'\\') || (c == b'"') then b'\\' ∷ rest else rest

-- `WrapWithTmux`
unfoldable pub wrap_with_tmux : Bytes → Bytes → Bytes
wrap_with_tmux command session_name =
    codes "tmux new-session -A -s '"
    ++ (session_name ++ (codes "' \"" ++ (escape_for_double_quotes command ++ codes "\"")))

-- The loop of `QuoteWindowsArg`
unfoldable pub quoted : Bytes → Bytes
quoted [] = []
quoted (c ∷ s) = let rest = c ∷ quoted s in if c == b'"' then b'\\' ∷ rest else rest

unfoldable pub quote_windows_arg : Bytes → Bytes
quote_windows_arg value =
    if contains 32 value || contains 9 value || contains b'"' value
    then b'"' ∷ (quoted value ++ b'"' ∷ [])
    else value
