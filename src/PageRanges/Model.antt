-- ===== src/PageRanges/Model.antt =====
-- PersistencyPageRange of src/blob/persistence/IBlobMetadataStore.ts: bytes start to end (both
-- inclusive) of a page blob, and where in which extent they are kept. Offsets are natural numbers:
-- the handlers parse them from headers, and never build a negative one.
use azurite.Prelude.{ℕ, ◌+◌, Bool, ◌&&◌, String, Option, none, some, List, ◌++◌, leb, take, drop}

pub record Persistency : Type 0 where
  pub id : String
  pub offset : ℕ
  pub count : ℕ

pub record PageRange : Type 0 where
  pub start : ℕ
  pub end : ℕ
  pub persistency : Persistency

-- ZERO_EXTENT_ID
abbrev pub zero_extent_id : String
zero_extent_id = "*ZERO*"

-- positionInRange
abbrev pub position_in_range : PageRange → ℕ → Bool
position_in_range r p = leb r.start p && leb p r.end

-- `xs.splice(i, n, ...new)`; `none` is Infinity, which stands for the end.
unfoldable pub splice {ℓ} : {A : Type ℓ} → Option ℕ → ℕ → List A → List A → List A
splice none n new xs = xs ++ new
splice (some i) n new xs = take i xs ++ (new ++ drop (i + n) xs)
