-- ===== src/Identity/Trace.antt =====
-- The identity service under any sequence of calls: each is one transaction, and one that raises
-- changes nothing.
use betmaxxing.Prelude.{ℕ, String, Option, none, some, List, [], ◌∷◌, Result, ok, err}
use betmaxxing.Names.Defs.{Python}
use betmaxxing.Table.{scalar}
use betmaxxing.Identity.Rows.{
  ProviderEvent, IdentityDb, ResolvedEvent, ResolutionStatus, EventSourceMapRow, SourceKey,
  of_source,
}
use betmaxxing.Identity.Alias.{AliasRow, import_aliases}
use betmaxxing.Identity.Resolve.{resolve}
use betmaxxing.Identity.Mapped.{IdentityError}
use betmaxxing.Identity.Review.{resolve_review}

pub data IdentityCall : Type 0 where
  call_resolve : ProviderEvent → String → ℕ → IdentityCall
  call_review : ℕ → String → String → ℕ → IdentityCall
  call_import : List AliasRow → IdentityCall

unfoldable pub identity_after : Python → IdentityDb → IdentityCall → IdentityDb
identity_after python db (call_resolve e fresh now) = (resolve python e fresh now db).1
identity_after python db (call_review review_id id operator moment) =
    (resolve_review review_id id operator moment db).1
identity_after python db (call_import rows) = record db {
  aliases = (import_aliases python rows db.aliases).1;
}

unfoldable pub identity_run : Python → IdentityDb → List IdentityCall → IdentityDb
unfolding identity_after
identity_run python db [] = db
identity_run python db (c ∷ calls) = identity_run python (identity_after python db c) calls

-- the status and the id that a caller of `resolve` is given
abbrev pub answered : Result IdentityError ResolvedEvent → Option (ResolutionStatus × String)
answered (err e) = none
answered (ok r) = elim r.internal_id [ none ↦ none | some id ↦ some (r.status, id) ]

-- the id that a pair is mapped to
abbrev pub id_of : Option EventSourceMapRow → Option String
id_of none = none
id_of (some r) = some r.internal_id

abbrev pub lookup : SourceKey → List EventSourceMapRow → Option String
lookup k source_map = id_of (scalar (of_source k) source_map)
