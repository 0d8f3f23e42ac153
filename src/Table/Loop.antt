-- ===== src/Table/Loop.antt =====
-- src/table/batch/TableBatchOrchestrator.ts: the requests of a batch one after the other.
use mathlib.Core.Path.{subst}
use azurite.Prelude.{
  ℕ, ◌+◌, ◌≡◌, refl, sym, ap, ◌∙◌, Bool, true, false, Bool-cases, inl, inr, ◌||◌, String, Option,
  none, some, List, [], ◌∷◌, ◌++◌, str_eq,
}
use azurite.Errors.{Result, ok, err}
use azurite.Table.Entities.{Entity}
use azurite.Table.Database.{Loki, LokiLaws, Rows}
use azurite.Table.Batch.{
  Request, Answer, Response, failed, Session, Verb, post, put, delete, get_entity, patch, merge,
  or_not_found, handle_batch_query, dispatch, route, submit_loop, in_store,
}
use azurite.Table.BatchRecorded.{has_seen, IsQuiet, IsOwn}
use azurite.Table.BatchSpec.{Seen, Outcome, query_outcome, outcome, write_outcome, as_found, serve}
use azurite.Table.Claims.{IsAddressed, outcome-IsOwn}
use azurite.Table.Operations
use azurite.Table.Position.{At}
use azurite.Table.Recorded.{Recorded, same-Recorded, change-Recorded}
use azurite.Table.Routes
use azurite.Table.Routes.{Serves}
use azurite.Table.Spec.{
  Change, same, added, removed, tracked, replaced, rows_after, rollback_after, delete_after,
}
use azurite.Table.Store.{Store, query_table_entity}

quiet-Recorded :
    {m0 m : Rows} {rb ins : List Entity} (seen next : String → String → Bool)
    → ((p r : String) → seen p r ≡ true → next p r ≡ true)
    → Recorded m0 seen m rb ins
    → (change : Change) → IsQuiet change
    → Recorded m0 next (rows_after change m) (rollback_after change rb) (delete_after change ins)
unfolding rows_after rollback_after delete_after
quiet-Recorded seen next grows rec same h = same-Recorded seen next grows rec
quiet-Recorded seen next grows rec (added e) h = absurd h
quiet-Recorded seen next grows rec (removed e) h = absurd h
quiet-Recorded seen next grows rec (tracked e) h = absurd h
quiet-Recorded seen next grows rec (replaced d e) h = absurd h

own-Recorded :
    {m0 m : Rows} {rb ins : List Entity} (seen : Seen) (result : Result Answer) (next : Seen)
    (change : Change)
    → Recorded m0 (has_seen seen) m rb ins
    → IsOwn seen m (result, next, change)
    → Recorded m0
        (has_seen next)
        (rows_after change m)
        (rollback_after change rb)
        (delete_after change ins)
own-Recorded seen result next change rec (grows, inl quiet) =
    quiet-Recorded (has_seen seen) (has_seen next) grows rec change quiet
own-Recorded seen result next change rec (grows, inr (p, r, unseen, marked, h)) =
    change-Recorded (has_seen seen) (has_seen next) grows rec p r unseen marked change h

module _ (db : Loki) (laws : LokiLaws db) (account table : String)
    (check : Request → Result (Unit {0})) (id : String) (named : str_eq id "" ≡ false) where
  module _ {m : Rows} {rb ins : List Entity} {s : Store db.Collection}
      (at : At db laws account table m rb ins s) (seen : Seen) (r : Request)
      (here : r.path ≡ table) where
    abbrev standing : Session db.Collection
    standing = record { seen = seen; store = s }

    found-Serves :
        (o : Option Entity)
        → Serves db laws account table (as_found seen o) m rb ins (or_not_found o standing)
    unfolding as_found or_not_found rows_after rollback_after delete_after
    found-Serves none = (refl, refl, at)
    found-Serves (some e) = (refl, refl, at)

    query_at :
        (p : String) → query_table_entity db r.path account p r.row_key s ≡ (ok (m p r.row_key), s)
    query_at p =
        ap (λ path. query_table_entity db path account p r.row_key s) here
        ∙ Operations.query_table_entity_lem db laws account table at id named p r.row_key

    handle_batch_query-Serves :
        (o : Option String)
        → Serves db laws account table
            (query_outcome check o r seen m)
            m
            rb
            ins
            (handle_batch_query db check account id r o standing)
    unfolding handle_batch_query query_outcome in_store rows_after rollback_after delete_after
    handle_batch_query-Serves none = elim (Bool-cases (str_eq r.row_key "")) [
      | inl k ↦ rw k (refl, refl, at)
      | inr k ↦ rw k (refl, refl, at)
    ]
    handle_batch_query-Serves (some p) = elim (Bool-cases (str_eq p "" || str_eq r.row_key "")) [
      | inl k ↦ rw k (refl, refl, at)
      | inr k ↦ rw k (
          Routes.checked-Serves db laws account table check id named at seen r here (check r) seen _
            _ (rw (query_at p, in_store) (found-Serves (m p r.row_key))))
    ]

    dispatch-Serves :
        (v : Verb)
        → Serves db laws account table
            (outcome check v r seen m)
            m
            rb
            ins
            (dispatch db check account id v r standing)
    unfolding dispatch outcome rows_after rollback_after delete_after write_outcome
    dispatch-Serves post =
        Routes.handle_batch_insert-Serves db laws account table check id named at seen r here
    dispatch-Serves put =
        Routes.handle_batch_update-Serves db laws account table check id named at seen r here
    dispatch-Serves delete =
        Routes.handle_batch_delete-Serves db laws account table check id named at seen r here
    dispatch-Serves patch =
        Routes.handle_batch_merge-Serves db laws account table check id named at seen r here patch
          λ p next. refl
    dispatch-Serves merge =
        Routes.handle_batch_merge-Serves db laws account table check id named at seen r here merge
          λ p next. refl
    dispatch-Serves get_entity = handle_batch_query-Serves r.partition_key
    dispatch-Serves _ = (refl, refl, at)

  -- The loop and its specification end alike, and the trackers can undo what was done.
  abbrev pub Ends : Rows → Response × Rows → Response × Session db.Collection → Type 0
  Ends m0 (response, m) (result, session) =
      (result ≡ response)
      × (rb : List Entity) × (ins : List Entity) × At db laws account table m rb ins session.store
      × Recorded m0 (has_seen session.seen) m rb ins

  -- The requests name the table, and inserts the keys of their bodies.
  abbrev pub AreAddressed : List Request → Type 0
  AreAddressed [] = Unit
  AreAddressed (r ∷ rs) = (r.path ≡ table) × IsAddressed r.verb r × AreAddressed rs

  module _ {m0 m : Rows} {rb ins : List Entity} where
    served-Ends :
        (n : ℕ) (out : List Answer) (rs : List Request) (seen : Seen) (o : Outcome)
        (served : Result Answer × Session db.Collection)
        → Recorded m0 (has_seen seen) m rb ins
        → IsOwn seen m o
        → Serves db laws account table o m rb ins served
        → ((out' : List Answer) (m' : Rows) (rb' ins' : List Entity)
              (session : Session db.Collection)
            → At db laws account table m' rb' ins' session.store
            → Recorded m0 (has_seen session.seen) m' rb' ins'
            → Ends m0
                (serve check rs (n + 1) out' session.seen m')
                (submit_loop db check account id rs (n + 1) out' session))
        → Ends m0
            (elim o.0 [
              | ok a ↦ serve check rs (n + 1) (out ++ a ∷ []) o.1 (rows_after o.2 m)
              | err e ↦ (failed n e, rows_after o.2 m)
            ])
            (elim served.0 [
              | ok a ↦ submit_loop db check account id rs (n + 1) (out ++ a ∷ []) served.1
              | err e ↦ (failed n e, served.1)
            ])
    served-Ends n out rs seen (ok a, next, change) (result, session) rec own (e, f, at) more =
        let kept = own-Recorded seen (ok a) next change rec own in
        rw e (
          subst
            (λ x.
              Ends m0 (serve check rs (n + 1) (out ++ a ∷ []) x (rows_after change m))
                (submit_loop db check account id rs (n + 1) (out ++ a ∷ []) session))
            f
            (more (out ++ a ∷ []) _ _ _ session at (
              subst
                (λ x.
                  Recorded m0 (has_seen x) (rows_after change m) (rollback_after change rb)
                    (delete_after change ins))
                (sym f) kept)))
    served-Ends n out rs seen (err a, next, change) (result, session) rec own (e, f, at) more =
        let kept = own-Recorded seen (err a) next change rec own in
        rw e (
          refl,
          _,
          _,
          at,
          subst
              (λ x.
                Recorded m0 (has_seen x) (rows_after change m) (rollback_after change rb)
                  (delete_after change ins))
              (sym f) kept,
        )

  pub submit_loop-Ends :
      (rs : List Request) (n : ℕ) (out : List Answer) {m0 : Rows} (m : Rows) (rb ins : List Entity)
      (session : Session db.Collection)
      → AreAddressed rs
      → At db laws account table m rb ins session.store
      → Recorded m0 (has_seen session.seen) m rb ins
      → Ends m0
          (serve check rs n out session.seen m)
          (submit_loop db check account id rs n out session)
  unfolding submit_loop serve route
  submit_loop-Ends [] n out m rb ins session a at rec = (refl, rb, ins, at, rec)
  submit_loop-Ends (r ∷ rs) n out m rb ins session (here, addressed, rest) at rec =
      served-Ends n out rs session.seen (outcome check r.verb r session.seen m)
        (dispatch db check account id r.verb r session) rec
        (outcome-IsOwn check session.seen m
          (λ p t e h. laws.shown_has_key at.collection m p t e at.shown h) r r.verb addressed)
        (dispatch-Serves at session.seen r here r.verb)
        λ out' m' rb' ins' session' at' rec'.
          submit_loop-Ends rs (n + 1) out' m' rb' ins' session' rest at' rec'
