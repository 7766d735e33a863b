-- ===== src/Bq/Caches.antt =====
-- cloud/bq/sanity.go: the cached annotations of a table. `ctx` tells whether the context is not nil.
use etl_gardener.Base.{
  ℕ, Bool, true, false, String, Option, none, some, str_eq, concat, if◌then◌else◌,
}
use etl_gardener.World.{M, ◌>>=◌, give}
use etl_gardener.Bq.{
  Outside, Detail, TableMetadata, PartitionInfo, Table, Pair, AnnotatedTable, TableNameParts,
  partition_summary, get_table_detail, get_table_parts, err_nil_context, err_no_dataset,
  err_not_regular_table, iterator_done, empty_info,
}

module _ (out : Outside) where
  -- The method's result and the table after it.
  abbrev pub Cached : Type 0 → Type 0
  Cached A = M out.World (Pair A × AnnotatedTable)

  -- CachedMeta, for the metadata and the error that the table has.
  abbrev pub meta_from :
      Option TableMetadata → Option String → Bool → AnnotatedTable → Cached TableMetadata
  meta_from (some m) e ctx at w = some (((some m, none), at), w)
  meta_from none (some e) ctx at w = some (((none, some e), at), w)
  meta_from none none false at w = some (((none, some err_nil_context), at), w)
  meta_from none none true at w =
      let r = out.metadata at.table w in some ((r.0, record at { meta = r.0.0; err = r.0.1 }), r.1)

  -- CachedMeta
  unfoldable pub cached_meta : Bool → AnnotatedTable → Cached TableMetadata
  cached_meta ctx at = meta_from at.meta at.err ctx at

  abbrev pub time_of : Pair TableMetadata → Option ℕ
  time_of (m, some e) = some 0
  time_of (none, none) = none
  time_of (some m, none) = some m.last_modified_time

  abbrev pub with_table :
      {A : Type 0} → Option A → AnnotatedTable → M out.World (A × AnnotatedTable)
  with_table none at w = none
  with_table (some a) at w = some ((a, at), w)

  -- LastModifiedTime; metadata that are nil without an error are dereferenced all the same.
  unfoldable pub last_modified_time : Bool → AnnotatedTable → M out.World (ℕ × AnnotatedTable)
  last_modified_time ctx at = do r ← cached_meta ctx at; with_table (time_of r.0) r.1

  -- The end of CachedDetail and of CachedPartitionInfo, without a cached value: the guards, and else
  -- what `fetch` gives.
  abbrev pub guarded :
      {A : Type 0} → Option String → Bool → Bool → AnnotatedTable → Cached A → Cached A
  guarded (some e) ds ctx at fetch w = some (((none, some e), at), w)
  guarded none false ctx at fetch w = some (((none, some err_no_dataset), at), w)
  guarded none true false at fetch w = some (((none, some err_nil_context), at), w)
  guarded none true true at fetch w = fetch w

  abbrev pub fetch_detail : AnnotatedTable → Cached Detail
  fetch_detail at = do
    r ← get_table_detail out at.table
    give (r, record at { detail = r.0; err = r.1 })

  abbrev pub detail_from : Option Detail → Bool → AnnotatedTable → Cached Detail
  detail_from (some d) ctx at w = some (((some d, none), at), w)
  detail_from none ctx at w = guarded at.err at.has_dataset ctx at (fetch_detail at) w

  -- CachedDetail
  unfoldable pub cached_detail : Bool → AnnotatedTable → Cached Detail
  cached_detail ctx at = detail_from at.detail ctx at

  abbrev parts_info : Table → TableNameParts × Option String → M out.World (Pair PartitionInfo)
  parts_info t (parts, some e) w = some ((none, some e), w)
  parts_info t (parts, none) w =
      let full = concat t.project_id (concat ":" (concat t.dataset_id (concat "." parts.prefix))) in
      let r = out.query_partition (partition_summary full parts.yyyymmdd) w in
      let answer : Pair PartitionInfo = elim r.0.1 [
        | none ↦ (some r.0.0, none)
        | some e ↦ if str_eq e iterator_done then (some empty_info, none) else (none, some e)
      ] in
      if parts.is_partitioned
      then some (answer, r.1)
      else some ((none, some (concat "TableID does not specify partition: " t.table_id)), w)

  -- GetPartitionInfo of a table that has a dataset
  unfoldable pub get_partition_info : Table → M out.World (Pair PartitionInfo)
  get_partition_info t = parts_info t (get_table_parts out t.table_id)

  abbrev fetch_info : AnnotatedTable → Cached PartitionInfo
  fetch_info at = do
    r ← get_partition_info at.table
    give (r, record at { p_info = r.0; err = r.1 })

  abbrev info_from : Option PartitionInfo → Bool → AnnotatedTable → Cached PartitionInfo
  info_from (some p) ctx at w = some (((some p, none), at), w)
  info_from none ctx at w = guarded at.err at.has_dataset ctx at (fetch_info at) w

  -- CachedPartitionInfo
  unfoldable pub cached_partition_info : Bool → AnnotatedTable → Cached PartitionInfo
  cached_partition_info ctx at = info_from at.p_info ctx at

  abbrev regular : Pair TableMetadata → Option (Option String)
  regular (m, some e) = some (some e)
  regular (none, none) = none
  regular (some m, none) = some (if m.is_regular then none else some err_not_regular_table)

  -- CheckIsRegular
  unfoldable pub check_is_regular :
      Bool → AnnotatedTable → M out.World (Option String × AnnotatedTable)
  check_is_regular ctx at = do r ← cached_meta ctx at; with_table (regular r.0) r.1
