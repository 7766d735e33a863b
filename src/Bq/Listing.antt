-- ===== src/Bq/Listing.antt =====
-- cloud/bq/sanity.go: GetTablesMatching. The iterator is the list of the tables that it gives before its
-- first error, and `sort` is sort.Slice, which is given the order.
use etl_gardener.Base.{
  ℕ, Bool, true, String, none, some, List, [], ◌∷◌, ltb, str_eq, text_contains, if◌then◌else◌,
}
use etl_gardener.World.{M, follow}
use etl_gardener.Bq.{
  Outside, Table, TableMetadata, Pair, AnnotatedTable, new_annotated_table, err_not_regular_table,
}
use etl_gardener.Bq.Caches.{cached_meta}

module _ (out : Outside) where
  abbrev Listed : Type 0
  Listed = M out.World (Pair (List AnnotatedTable))

  abbrev prepend : AnnotatedTable → Pair (List AnnotatedTable) → Listed
  prepend at (none, e) w = some ((none, e), w)
  prepend at (some ats, e) w = some ((some (at ∷ ats), e), w)

  -- What CachedMeta leads to, where `rest` is the rest of the loop.
  abbrev end_meta : Listed → Pair TableMetadata × AnnotatedTable → Listed
  end_meta rest ((m, none), at) w = follow (rest w) (prepend at)
  end_meta rest ((m, some e), at) w =
      let later = rest w in
      if str_eq e err_not_regular_table then later else some ((none, some e), w)

  unfoldable pub match_loop : String → List Table → Listed
  match_loop filter [] w = some ((some [], none), w)
  match_loop filter (t ∷ ts) w =
      let skipped = match_loop filter ts w in
      let listed =
        follow (cached_meta out true (new_annotated_table t true) w)
          (end_meta (match_loop filter ts)) in
      if text_contains t.table_id filter then listed else skipped

  -- LastModifiedTime of a table that has its metadata.
  abbrev cached_time : AnnotatedTable → ℕ
  cached_time at = elim at.meta [ none ↦ 0 | some m ↦ m.last_modified_time ]

  abbrev sorted :
      ((AnnotatedTable → AnnotatedTable → Bool) → List AnnotatedTable → List AnnotatedTable)
      → Pair (List AnnotatedTable)
      → Listed
  sorted sort (none, e) w = some ((none, e), w)
  sorted sort (some ats, e) w =
      some ((some (sort (λ a b. ltb (cached_time a) (cached_time b)) ats), e), w)

  -- GetTablesMatching
  unfoldable pub get_tables_matching :
      ((AnnotatedTable → AnnotatedTable → Bool) → List AnnotatedTable → List AnnotatedTable)
      → String
      → List Table
      → Listed
  get_tables_matching sort filter ts w = follow (match_loop filter ts w) (sorted sort)
