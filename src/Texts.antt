-- ===== src/Texts.antt =====
-- Declarative texts as lists of Unicode scalar values: what `str::trim`, `char::is_control` and
-- `str::len` say of them (crates/aeon_agent_runtime/src/agent.rs and action.rs).
use genesis_runtime.Common.{
  Bool, List, Result, [], all, any, if◌then◌else◌, invalid_input, leb, list_eq, ltb, nat_eq,
  option_eq, refuse_if, ℕ, ◌&&◌, ◌+◌, ◌==◌, ◌>>◌, ◌||◌, ◌∷◌,
}

-- The length in UTF-8 of one character.
abbrev pub utf8_width : ℕ → ℕ
utf8_width c = if ltb c 128 then 1 else if ltb c 2048 then 2 else if ltb c 65536 then 3 else 4

-- `str::len`
unfoldable pub utf8_length : List ℕ → ℕ
utf8_length [] = 0
utf8_length (c ∷ cs) = utf8_width c + utf8_length cs

-- `char::is_control`: the general category Cc.
abbrev pub is_control : ℕ → Bool
is_control c = ltb c 32 || (leb 127 c && ltb c 160)

-- `char::is_whitespace`: the property White_Space.
abbrev pub is_whitespace : ℕ → Bool
is_whitespace c =
    (leb 9 c && leb c 13)
    || c == 32
    || c == 133
    || c == 160
    || c == 5760
    || (leb 8192 c && leb c 8202)
    || c == 8232
    || c == 8233
    || c == 8239
    || c == 8287
    || c == 12288

-- `trim().is_empty()`
unfoldable pub is_blank : List ℕ → Bool
is_blank text = all is_whitespace text

-- The common part of `validate_declarative_text` and `ActionTarget::new`.
unfoldable pub validate_text : ℕ → List ℕ → Result (Unit {0})
unfolding is_blank
validate_text max_bytes text = do
  refuse_if (is_blank text || ltb max_bytes (utf8_length text)) invalid_input
  refuse_if (any is_control text) invalid_input
