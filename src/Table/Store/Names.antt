-- ===== src/Table/Store/Names.antt =====
-- Names of collections in src/table/persistence/LokiTableMetadataStore.ts. toLowerCase of JavaScript
-- stands here for the ASCII letters only.
use Prim.Native.Char.{Char, code}
use azurite.Prelude.{String, str_append, if◌then◌else◌, ◌==◌}

unfoldable pub get_table_collection_name : String → String → String
get_table_collection_name account table = str_append (str_append account "$") table

unfoldable pub lower_char : Char → String → String → Char
lower_char c (String.◌∷◌ u us) (String.◌∷◌ l ls) =
    let rest = lower_char c us ls in if code c == code u then l else rest
lower_char c us ls = c

unfoldable pub to_lower_case : String → String
unfolding lower_char
to_lower_case String.[] = ""
to_lower_case (String.◌∷◌ c s) =
    String.◌∷◌ (lower_char c "ABCDEFGHIJKLMNOPQRSTUVWXYZ" "abcdefghijklmnopqrstuvwxyz")
      (to_lower_case s)
