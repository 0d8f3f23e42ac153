-- ===== src/Tags/Scanner.antt =====
-- ParserContext of src/blob/persistence/QueryInterpreter/QueryParser.ts. Its state is what is left
-- of the query from tokenPosition on; the position itself stands in error messages only.
use azurite.Prelude.{
  ℕ, ◌+◌, Bool, false, not, ◌&&◌, ◌||◌, Option, none, some, List, [], ◌∷◌, if◌then◌else◌, leb, ◌==◌,
}
use azurite.Conditions.Model.{Text}
use azurite.Tags.Model.{
  Operator, equals, greater_than_equal, less_than_equal, not_equals, greater_than, less_than,
}

-- `!c.trim()`: white space and line terminators of ECMAScript.
unfoldable pub is_space : ℕ → Bool
is_space c =
    (leb 9 c && leb c 13)
    || c == 32
    || c == 160
    || c == 5760
    || (leb 8192 c && leb c 8202)
    || c == 8232
    || c == 8233
    || c == 8239
    || c == 8287
    || c == 12288
    || c == 65279

unfoldable pub skip_whitespace : Text → Text
skip_whitespace [] = []
skip_whitespace (c ∷ cs) = if is_space c then skip_whitespace cs else c ∷ cs

-- `peek() === c`
unfoldable pub peek_is : ℕ → Text → Bool
peek_is c [] = false
peek_is c (d ∷ ds) = d == c

-- `toLowerCase` as far as the comparison with a lower-case word of ASCII letters sees it: no
-- character other than an ASCII letter becomes one of the letters of "or" and "and".
unfoldable pub to_lower : ℕ → ℕ
to_lower c = if leb 65 c && leb c 90 then c + 32 else c

-- `consume` of a word in lower case with ignoreCase; a sequence that has no letters is the same in
-- either case. `none` is false.
unfoldable pub consume : Text → Text → Option Text
unfolding to_lower
consume [] rest = some rest
consume (c ∷ cs) [] = none
consume (c ∷ cs) (d ∷ ds) = if to_lower d == c then consume cs ds else none

abbrev pub symbol : Operator → Text
symbol equals = b'=' ∷ []
symbol greater_than_equal = b'>' ∷ b'=' ∷ []
symbol less_than_equal = b'<' ∷ b'=' ∷ []
symbol not_equals = b'<' ∷ b'>' ∷ []
symbol greater_than = b'>' ∷ []
symbol less_than = b'<' ∷ []

unfoldable pub consume_one_of : List Operator → Text → Option (Operator × Text)
consume_one_of [] rest = none
consume_one_of (o ∷ os) rest = elim (consume (symbol o) rest) [
  | some left ↦ some (o, left)
  | none ↦ consume_one_of os rest
]

abbrev pub operators : List Operator
operators =
    equals ∷ greater_than_equal ∷ less_than_equal ∷ not_equals ∷ greater_than ∷ less_than ∷ []

-- `take` with a predicate on the character: what was taken, and what is left.
unfoldable pub take_while : (ℕ → Bool) → Text → Text × Text
take_while test [] = ([], [])
take_while test (c ∷ cs) =
    let (taken, rest) = take_while test cs in if test c then (c ∷ taken, rest) else ([], c ∷ cs)

-- `take` with the state machine of visitString; the flag is the state "escaping".
unfoldable pub take_string : ℕ → Bool → Text → Text × Text
unfolding peek_is
take_string quote escaping [] = ([], [])
take_string quote escaping (c ∷ cs) =
    let closing = not escaping && c == quote in
    let (taken, rest) = take_string quote (closing && peek_is quote cs) cs in
    if closing && not (peek_is quote cs) then ([], c ∷ cs) else (c ∷ taken, rest)

-- `content.replace(/''/g, "'")`, with the opening character in place of the quote.
unfoldable pub undouble : ℕ → Text → Text
undouble quote [] = []
undouble quote (c ∷ []) = c ∷ []
undouble quote (c ∷ d ∷ cs) =
    let pair = undouble quote cs in
    let single = undouble quote (d ∷ cs) in
    if c == quote && d == quote then quote ∷ pair else c ∷ single
