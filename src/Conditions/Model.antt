-- ===== src/Conditions/Model.antt =====
-- src/blob/conditions/ConditionalHeadersAdapter.ts, ConditionResourceAdapter.ts and the interfaces:
-- headers and resources in the form that the validators read. A text is its list of UTF-16 codes.
use azurite.Prelude.{
  ℕ, Bool, true, false, not, Option, none, some, List, [], ◌∷◌, if◌then◌else◌, ◌==◌, ltb, length,
  ◌&&◌, ◌||◌,
}
use azurite.Dates.{Date, invalid_date, to_second}
use azurite.Errors.{Result, ok, plain_error, ◌>>◌, throw_if}

abbrev pub Text : Type 0
Text = List ℕ

unfoldable pub text_eq : Text → Text → Bool
text_eq [] [] = true
text_eq (x ∷ xs) (y ∷ ys) = x == y && text_eq xs ys
text_eq _ _ = false

-- `etags.includes(etag)`
unfoldable pub includes : List Text → Text → Bool
includes [] t = false
includes (x ∷ xs) t = text_eq x t || includes xs t

abbrev pub is_quote : ℕ → Bool
is_quote c = c == b'"'

snoc : Text → ℕ → Text
snoc [] d = d ∷ []
snoc (x ∷ xs) d = x ∷ snoc xs d

-- `split(",")`: the piece under way comes first.
split_from : Text → Text → List Text
split_from piece [] = piece ∷ []
split_from piece (c ∷ cs) =
    let closed = split_from [] cs in
    let longer = split_from (snoc piece c) cs in if c == b',' then piece ∷ closed else longer

unfoldable pub split_comma : Text → List Text
unfolding split_from snoc
split_comma t = split_from [] t

ends_with_quote : Text → Bool
ends_with_quote [] = false
ends_with_quote (c ∷ []) = is_quote c
ends_with_quote (c ∷ cs) = ends_with_quote cs

drop_last : Text → Text
drop_last [] = []
drop_last (c ∷ []) = []
drop_last (c ∷ cs) = c ∷ drop_last cs

-- `startsWith('"') && endsWith('"') ? etag.substring(1, etag.length - 1) : etag`; of one quote alone
-- `substring(1, 0)` is `substring(0, 1)`, the quote.
unfoldable pub strip_quotes : Text → Text
unfolding ends_with_quote drop_last
strip_quotes [] = []
strip_quotes (c ∷ []) = c ∷ []
strip_quotes (c ∷ d ∷ cs) =
    if is_quote c && ends_with_quote (d ∷ cs) then drop_last (d ∷ cs) else c ∷ d ∷ cs

strip_all : List Text → List Text
strip_all [] = []
strip_all (t ∷ ts) = strip_quotes t ∷ strip_all ts

-- generated/artifacts/models.ts: the headers as they came. An empty text counts as absent.
pub record ModifiedAccessConditions : Type 0 where
  pub if_match : Option Text
  pub if_none_match : Option Text
  pub if_modified_since : Option Date
  pub if_unmodified_since : Option Date
  pub if_tags : Option Text

pub record ConditionalHeaders : Type 0 where
  pub if_modified_since : Option Date
  pub if_unmodified_since : Option Date
  pub if_match : Option (List Text)
  pub if_none_match : Option (List Text)
  pub if_tags : Option Text

etags_of : Option Text → Option (List Text)
unfolding split_comma strip_quotes strip_all
etags_of none = none
etags_of (some []) = none
etags_of (some (c ∷ cs)) = some (strip_all (split_comma (c ∷ cs)))

abbrev to_second? : Option Date → Option Date
to_second? none = none
to_second? (some d) = some (to_second d)

-- The constructor of ConditionalHeadersAdapter; the default for absent conditions is `{}`.
unfoldable pub conditional_headers : ModifiedAccessConditions → ConditionalHeaders
unfolding etags_of
conditional_headers c = record {
  if_modified_since = to_second? c.if_modified_since;
  if_unmodified_since = to_second? c.if_unmodified_since;
  if_match = etags_of c.if_match;
  if_none_match = etags_of c.if_none_match;
  if_tags = c.if_tags;
}

-- What the adapter reads of a blob or of a container (which has no isCommitted field: `true`).
pub record Resource : Type 0 where
  pub is_committed : Bool
  pub etag : Text
  pub last_modified : Date

pub record ConditionResource : Type 0 where
  pub exist : Bool
  pub etag : Text
  pub last_modified : Date

-- `undefined as any` for a date that is never read.
abbrev nonexistent : ConditionResource
nonexistent = record { exist = false; etag = []; last_modified = invalid_date }

existing : Resource → Result ConditionResource
existing r = do
  throw_if (ltb (length r.etag) 3) plain_error
  ok (record {
    exist = true;
    etag = strip_quotes r.etag;
    last_modified = to_second r.last_modified;
  })

-- The constructor of ConditionResourceAdapter. The etag "NONEXISTENT_RESOURCE_ETAG" is not read.
unfoldable pub condition_resource : Option Resource → Result ConditionResource
unfolding existing
condition_resource none = ok nonexistent
condition_resource (some r) = if not r.is_committed then ok nonexistent else existing r
